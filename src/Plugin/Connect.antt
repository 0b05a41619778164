-- ===== src/Plugin/Connect.antt =====
-- src/plugin.cpp, `Hook_OnClientConnected_Post`: a connecting bot keeps the tie between slots and
-- identities, and no two live slots share a name or a SteamID64.
use native.Mathlib.Omega.{arith}
use cs2_bot_identity.Base.{
  ℕ, ◌<◌, ◌≡◌, refl, ◌==◌, ℤ, pos, negsuc, minus_one, is_nonneg, Bool, true, false, ◌||◌, List,
  some, leb, get_elem?, get_or, get_or_in, modify, length, get_elem?-modify_self, Bool-cases, ◌⊎◌,
  inl, inr, if◌then◌else◌,
}
use mathlib.Core.Path.{ap, ◌∙◌, sym, subst}
use cs2_bot_identity.BotInfo.{BotIdentity, max_slots, take_slot, release_entry}
use cs2_bot_identity.BotInfo.Pool.{reset_for_reuse, slot_is_stale}
use cs2_bot_identity.BotInfo.Pool.Choice.{Serves, fresh, recycled}
use cs2_bot_identity.BotInfo.Pool.Unique.{
  IsUnique, KeepsKeys, modify-IsUnique, release_entry-KeepsKeys,
}
use cs2_bot_identity.IdentityManager.{Roster, is_managed, unmark, unmark_entry}
use cs2_bot_identity.IdentityManager.Links.{IsLinked}
use cs2_bot_identity.IdentityManager.Preserve.{unmark-IsLinked}
use cs2_bot_identity.IdentityManager.Rewrite.{rewrite-IsLinked}
use cs2_bot_identity.EntityAccess.{resolve_client_by_slot}
use cs2_bot_identity.World.{World, Draws, vote_transaction_active}
use cs2_bot_identity.Disguise.{apply_disguise, disguise_entry, disguise_client, set_applied}

-- The slots and the bot list are tied, and live entries differ in name and in SteamID64.
pub record IsSound (r : Roster) : Type 0 where
  pub linked : IsLinked r
  pub unique : IsUnique r.bots

pub unmark-IsSound : (r : Roster) (slot : ℤ) → IsSound r → IsSound (unmark r slot)
unfolding unmark unmark_entry
unmark-IsSound r slot v = record { linked = unmark-IsLinked r slot v.linked; unique = kept slot }
  where
    entry : (n : ℕ) (worn : ℤ) → IsUnique (unmark_entry r n worn).bots
    entry n (negsuc k) = v.unique
    entry n (pos i) =
        modify-IsUnique release_entry release_entry-KeepsKeys r.bots i v.unique (λ b at e. cc)

    kept : (slot : ℤ) → IsUnique (unmark r slot).bots
    kept (negsuc n) = v.unique
    kept (pos n) = elim (Bool-cases (leb max_slots n)) [
      | inl out ↦ rw out v.unique
      | inr inside ↦ rw inside (entry n (get_or r.manager.slots n minus_one))
    ]

set_applied-KeepsKeys : KeepsKeys set_applied
set_applied-KeepsKeys = record { name = λ b. refl; steam_id = λ b. refl }

-- An entry that a slot wears may be noted as disguised.
pub set_applied-IsSound :
    (r : Roster)
    → IsSound r
    → (n i : ℕ) (b : BotIdentity) → get_elem? r.bots i ≡ some b
    → b.slot ≡ pos n
    → IsSound (record r { bots = modify set_applied r.bots i })
set_applied-IsSound r v n i b at slot = record {
  linked =
      rewrite-IsLinked r v.linked set_applied i b at (λ m e. e) (λ m e. e)
        (λ e. let live : is_nonneg b.slot ≡ true = rw slot refl in cc);
  unique =
      modify-IsUnique set_applied set_applied-KeepsKeys r.bots i v.unique
        (λ c at_c live. v.unique i c at_c live);
}

-- The entry that is handed out is idle, and the list it stands in is tied to the slots.
pub record IsHandedOut (r : Roster) (i : ℕ) (after : List BotIdentity) : Type 0 where
  pub entry : BotIdentity
  pub at : get_elem? after i ≡ some entry
  pub idle : is_nonneg entry.slot ≡ false
  pub plain : entry.applied ≡ false
  pub linked : IsLinked (record { bots = after; manager = r.manager })

-- What `GetFree` hands out while every managed slot is active was not live.
module _ (r : Roster) (v : IsLinked r) (active : ℤ → Bool)
    (all_active : (m : ℤ) → is_managed r.manager m ≡ true → active m ≡ true) where
  not_live :
      (i : ℕ) (b : BotIdentity)
      → get_elem? r.bots i ≡ some b
      → slot_is_stale active b.slot ≡ true
      → is_nonneg b.slot ≡ false
  unfolding is_managed
  not_live i b at stale = go b.slot refl
    where
      go : (s : ℤ) → b.slot ≡ s → is_nonneg b.slot ≡ false
      go (negsuc k) e = rw e refl
      go (pos s) e =
          let worn : get_or r.manager.slots s minus_one ≡ pos i = v.wearer i s b at e in
          let inside : s < length r.manager.slots =
            get_or_in r.manager.slots s minus_one (λ q. cc) in
          let in_64 : leb max_slots s ≡ false = ground (arith, v.sized) in
          let managed : is_managed r.manager (pos s) ≡ true = rw (in_64, worn) refl in
          let stale' : slot_is_stale active (pos s) ≡ true =
            subst (λ z. slot_is_stale active z ≡ true) e stale in
          let live = all_active (pos s) managed in absurd (ground (arith))

  pub served-IsHandedOut :
      (i : ℕ) (after : List BotIdentity) → Serves active r.bots i after → IsHandedOut r i after
  served-IsHandedOut i after (fresh b at free alone same) = record {
    entry = b;
    at = subst (λ l. get_elem? l i ≡ some b) (sym same) at;
    idle = free;
    plain = v.idle i b at free;
    linked = subst (λ l. IsLinked (record { bots = l; manager = r.manager })) (sym same) v;
  }
  served-IsHandedOut i after (recycled b at (stale, alone) none_free same) =
      let free = not_live i b at stale in
      let reset : get_elem? (modify reset_for_reuse r.bots i) i ≡ some (reset_for_reuse b) =
        get_elem?-modify_self reset_for_reuse r.bots i at in
      record {
        entry = reset_for_reuse b;
        at = subst (λ l. get_elem? l i ≡ some (reset_for_reuse b)) (sym same) reset;
        idle = refl;
        plain = refl;
        linked =
            subst (λ l. IsLinked (record { bots = l; manager = r.manager })) (sym same)
              (rewrite-IsLinked r v reset_for_reuse i b at
                (λ n e.
                  let no_slot : is_nonneg (pos n) ≡ false =
                    subst (λ z. is_nonneg z ≡ false) e free in
                  cc)
                (λ n e. cc) (λ e. refl));
      }

-- What `ApplyDisguise` does to the roster, for an entry that is not disguised yet.
pub apply_disguise-roster :
    (w : World) (slot : ℤ) (i : ℕ) (draws : Draws) (b : BotIdentity)
    → w.map_suspended ≡ false
    → get_elem? w.roster.bots i ≡ some b
    → b.applied ≡ false
    → let held = modify (take_slot slot) w.roster.bots i in
      ((apply_disguise w slot i draws).roster ≡ record { bots = held; manager = w.roster.manager })
      ⊎ ((apply_disguise w slot i draws).roster
          ≡ record { bots = modify set_applied held i; manager = w.roster.manager })
unfolding apply_disguise disguise_entry disguise_client
apply_disguise-roster w slot i draws b open_map at plain =
    let entered : apply_disguise w slot i draws ≡ disguise_entry w slot i draws =
      ap (λ s. if s then w else disguise_entry w slot i draws) open_map in
    elim (Bool-cases (vote_transaction_active w || (resolve_client_by_slot w.engine slot == 0))) [
      | inl e ↦ inl (ap (λ u. u.roster) entered ∙ rw (at, plain, e, disguise_entry) refl)
      | inr e ↦ inr (ap (λ u. u.roster) entered ∙ rw (at, plain, e, disguise_entry) refl)
    ]
