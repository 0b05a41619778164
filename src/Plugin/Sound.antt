-- ===== src/Plugin/Sound.antt =====
-- src/plugin.cpp: disguising, restoring and releasing managed slots keeps the roster sound.
use cs2_bot_identity.Base.{
  ℕ, ◌≡◌, refl, sym, subst, ap, ◌∙◌, ℤ, pos, negsuc, minus_one, is_nonneg, if◌then◌else◌, none,
  true, false, not, some, leb, get_or, get_elem?, modify, get_elem?-modify_self, Bool-cases, inl,
  inr, if_keeps, for_slots, for_slots_keeps, arith,
}
use cs2_bot_identity.BotInfo.{BotIdentity, max_slots, take_slot}
use cs2_bot_identity.BotInfo.Pool.Unique.{modify-IsUnique, take_slot-KeepsKeys}
use cs2_bot_identity.IdentityManager.{Roster, is_managed, lookup}
use cs2_bot_identity.IdentityManager.Rewrite.{rewrite-IsLinked}
use cs2_bot_identity.World.{World, Draws, max_vote_slots}
use cs2_bot_identity.Disguise.{apply_disguise, restore_identity, set_applied, disguise_entry}
use cs2_bot_identity.VoteTransaction.{
  worn_entry, disguise_pending, restore_player_identity, restore_one, set_snapshot_valid,
}
use cs2_bot_identity.VoteWindow.{reset_vote_transaction}
use cs2_bot_identity.MapGate.{release_one, release_managed_slots}
use cs2_bot_identity.MapGate.Release.{restore-roster}
use cs2_bot_identity.Plugin.Connect.{
  IsSound, set_applied-IsSound, unmark-IsSound, apply_disguise-roster,
}
use cs2_bot_identity.Plugin.Rosters.{restore_one-roster}

-- A world whose roster is sound.
abbrev pub Sound : World → Type 0
Sound w = IsSound w.roster

-- Slot `n` wears the entry `b` at `i`, which is disguised again, or for the first time.
module _ (r : Roster) (v : IsSound r) (n i : ℕ) (b : BotIdentity) (at : get_elem? r.bots i ≡ some b)
    (slot : b.slot ≡ pos n) where
  held : Roster
  held = record r { bots = modify (take_slot (pos n)) r.bots i }

  held-IsSound : IsSound held
  unfolding held
  held-IsSound = record {
    linked =
        rewrite-IsLinked r v.linked (take_slot (pos n)) i b at (λ m e. sym slot ∙ e)
          (λ m e. slot ∙ e) (λ e. cc);
    unique =
        modify-IsUnique (take_slot (pos n)) (take_slot-KeepsKeys (pos n)) r.bots i v.unique
          (λ c at_c live.
            let c_is : b ≡ c = cc in
            v.unique i c at_c
              (subst (λ s. is_nonneg s ≡ true) (sym (ap (λ d. d.slot) (sym c_is) ∙ slot)) refl));
  }

  applied-IsSound : IsSound (record held { bots = modify set_applied held.bots i })
  unfolding held
  applied-IsSound =
      set_applied-IsSound held held-IsSound n i (take_slot (pos n) b)
        (get_elem?-modify_self (take_slot (pos n)) r.bots i at) refl

apply_disguise-shut :
    (w : World) (slot : ℤ) (i : ℕ) (draws : Draws)
    → w.map_suspended ≡ true
    → apply_disguise w slot i draws ≡ w
unfolding apply_disguise
apply_disguise-shut w slot i draws shut =
    ap (λ s. if s then w else disguise_entry w slot i draws) shut

pub apply_disguise-IsSound :
    (w : World) (n i : ℕ) (draws : Draws) (b : BotIdentity)
    → Sound w
    → get_elem? w.roster.bots i ≡ some b
    → b.slot ≡ pos n
    → b.applied ≡ false
    → Sound (apply_disguise w (pos n) i draws)
unfolding held
apply_disguise-IsSound w n i draws b v at slot plain = elim (Bool-cases w.map_suspended) [
  | inl shut ↦ subst Sound (sym (apply_disguise-shut w (pos n) i draws shut)) v
  | inr open_map ↦ elim (apply_disguise-roster w (pos n) i draws b open_map at plain) [
    | inl e ↦ subst IsSound (sym e) (held-IsSound w.roster v n i b at slot)
    | inr e ↦ subst IsSound (sym e) (applied-IsSound w.roster v n i b at slot)
  ]
]

-- What is done with the entry that a managed slot wears, if it is not disguised.
pub wear-IsSound :
    (w : World) (n : ℕ) (draws : Draws)
    → Sound w
    → is_managed w.roster.manager (pos n) ≡ true
    → Sound (elim (worn_entry w (pos n)) [
      | none ↦ w
      | some (i, b) ↦ if b.applied then w else apply_disguise w (pos n) i draws
    ])
unfolding is_managed lookup
wear-IsSound w n draws v managed = go (get_or w.roster.manager.slots n minus_one) refl
  where
    inside : leb max_slots n ≡ false
    inside = ground (arith)

    go :
        (s : ℤ)
        → get_or w.roster.manager.slots n minus_one ≡ s
        → Sound (elim (worn_entry w (pos n)) [
          | none ↦ w
          | some (i, b) ↦ if b.applied then w else apply_disguise w (pos n) i draws
        ])
    go (negsuc k) e = rw (inside, e) v
    go (pos i) e =
        let (b, at, slot) = v.linked.worn n i e in
        elim (Bool-cases b.applied) [
          | inl on ↦ rw (inside, e, at, on) v
          | inr plain ↦
              rw (inside, e, at, plain) (apply_disguise-IsSound w n i draws b v at slot plain)
        ]

pub disguise_pending-IsSound :
    (draws : ℕ → Draws) (n : ℕ) (w : World) → Sound w → Sound (disguise_pending draws n w)
unfolding disguise_pending
disguise_pending-IsSound draws n w v = elim (Bool-cases (is_managed w.roster.manager (pos n))) [
  | inl managed ↦ rw managed (wear-IsSound w n (draws n) v managed)
  | inr free ↦ rw free v
]

pub restore_player-IsSound :
    (draws : ℕ → Draws) (w : World) → Sound w → Sound (restore_player_identity draws w)
unfolding restore_player_identity
restore_player-IsSound draws w v =
    if_keeps Sound w.vote.snapshot_valid
      (for_slots max_slots 0 (disguise_pending draws)
        (for_slots max_vote_slots 0 restore_one (set_snapshot_valid false w)))
      w
      (for_slots_keeps Sound (disguise_pending draws) (disguise_pending-IsSound draws) max_slots 0 _
        (subst IsSound
          (sym (
            for_slots_keeps (λ u. u.roster ≡ w.roster) restore_one (restore_one-roster w.roster)
              max_vote_slots 0 (set_snapshot_valid false w) refl))
          v))
      v

release_one-IsSound : (n : ℕ) (w : World) → Sound w → Sound (release_one n w)
unfolding release_one
release_one-IsSound n w v = elim (Bool-cases (not (is_managed w.roster.manager (pos n)))) [
  | inl e ↦ rw e v
  | inr e ↦ rw e (
      unmark-IsSound (restore_identity w (pos n)).roster (pos n)
        (subst IsSound (sym (restore-roster w (pos n))) v))
]

pub release_managed-IsSound : (w : World) → Sound w → Sound (release_managed_slots w)
unfolding release_managed_slots reset_vote_transaction
release_managed-IsSound w v =
    for_slots_keeps Sound release_one release_one-IsSound max_slots 0 (reset_vote_transaction w) v
