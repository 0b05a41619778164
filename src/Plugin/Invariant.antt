-- ===== src/Plugin/Invariant.antt =====
-- src/plugin.cpp: the hooks keep the roster sound. A connecting bot is served while every other
-- managed slot is an active one.
use native.Mathlib.Omega.{arith}
use cs2_bot_identity.Base.{
  ℕ, ◌<◌, ◌≡◌, ◌≢◌, refl, ◌==◌, ℤ, pos, negsuc, minus_one, is_nonneg, Bool, true, false, not, ◌||◌,
  List, some, Bytes, leb, get_or, modify, get_elem?-modify_self, Bool-cases, Option-cases, inl, inr,
  take, bytes_eq,
}
use mathlib.Core.Path.{ap, ◌∙◌, sym, subst}
use cs2_bot_identity.BotInfo.{BotIdentity, max_slots, take_slot}
use cs2_bot_identity.BotInfo.Pool.{get_free}
use cs2_bot_identity.BotInfo.Pool.Choice.{get_free-Serves}
use cs2_bot_identity.BotInfo.Pool.Unique.{IsUnique, get_free-IsUnique}
use cs2_bot_identity.IdentityManager.{Roster, is_managed, mark, unmark}
use cs2_bot_identity.IdentityManager.Links.{IsLinked}
use cs2_bot_identity.IdentityManager.Managed.{unmark-unmanaged, unmark-other, is_managed-bound}
use cs2_bot_identity.IdentityManager.Preserve.{adopt-IsLinked}
use cs2_bot_identity.EntityAccess.{is_slot_active}
use native.Mathlib.Decide.{ℕ_discrete}
use cs2_bot_identity.ShmPub.{publish_release}
use cs2_bot_identity.World.{World, Draws, max_vote_slots, empty_snapshot}
use cs2_bot_identity.VoteWindow.{reset_vote_transaction_slot}
use cs2_bot_identity.Disguise.{set_applied}
use cs2_bot_identity.Plugin.{release_slot, serve_free, adopt, on_client_connected, in_range, hltv}
use cs2_bot_identity.Plugin.Connect.{
  IsSound, set_applied-IsSound, unmark-IsSound, IsHandedOut, served-IsHandedOut,
  apply_disguise-roster,
}

-- A slot that is not managed takes the entry that `GetFree` handed out.
module _ (w : World) (draws : Draws) (n i : ℕ) (after : List BotIdentity) (n_lt : n < max_slots)
    (unmanaged : is_nonneg (get_or w.roster.manager.slots n minus_one) ≡ false)
    (handed : IsHandedOut w.roster i after)
    (unique : IsUnique (modify (take_slot (pos n)) after i)) where
  held : Roster
  held = record {
    bots = modify (take_slot (pos n)) after i;
    manager = mark w.roster.manager (pos n) (pos i);
  }

  held-IsLinked : IsLinked held
  unfolding held
  held-IsLinked =
      adopt-IsLinked (record { bots = after; manager = w.roster.manager }) handed.linked n i
        handed.entry n_lt handed.at handed.idle unmanaged

  applied-IsSound : IsSound (record held { bots = modify set_applied held.bots i })
  unfolding held
  applied-IsSound =
      set_applied-IsSound held (record { linked = held-IsLinked; unique = unique }) n i
        (take_slot (pos n) handed.entry)
        (get_elem?-modify_self (take_slot (pos n)) after i handed.at) refl

  adopt-IsSound : w.map_suspended ≡ false → IsSound (adopt w (pos n) i after draws).roster
  unfolding adopt held
  adopt-IsSound open_map =
      let marked = record w {
        roster = record { bots = after; manager = mark w.roster.manager (pos n) (pos i) };
      } in
      elim (apply_disguise-roster marked (pos n) i draws handed.entry open_map handed.at
        handed.plain) [
          | inl e ↦ subst IsSound (sym e) (record { linked = held-IsLinked; unique = unique })
          | inr e ↦ subst IsSound (sym e) applied-IsSound
        ]

serve_free-IsSound :
    (w : World) (draws : Draws) (n : ℕ)
    → IsSound w.roster
    → n < max_slots
    → is_nonneg (get_or w.roster.manager.slots n minus_one) ≡ false
    → ((m : ℤ) → is_managed w.roster.manager m ≡ true → is_slot_active w.engine m ≡ true)
    → w.map_suspended ≡ false
    → IsSound (serve_free w (pos n) draws).roster
unfolding serve_free
serve_free-IsSound w draws n v n_lt unmanaged all_active open_map =
    let active = is_slot_active w.engine in
    let served = get_free active draws.pick w.roster.bots in
    elim (Option-cases served.0) [
      | inl e ↦ rw (e, serve_free) v
      | inr (i, e) ↦
          let gave : served ≡ (some i, served.1) = ap (λ o. (o, served.1)) e in
          let handed =
            served-IsHandedOut w.roster v.linked active all_active i served.1
              (get_free-Serves active draws.pick w.roster.bots i served.1 gave) in
          let unique =
            get_free-IsUnique active draws.pick w.roster.bots i served.1 (pos n) gave v.unique in
          rw (e, serve_free)
            (adopt-IsSound w draws n i served.1 n_lt unmanaged handed unique open_map)
    ]

-- What letting a slot go changes.
record LetsGo (w : World) (n : ℕ) (u : World) : Type 0 where
  sound : IsSound u.roster
  free : is_managed u.roster.manager (pos n) ≡ false
  other :
      (m : ℤ)
      → is_managed u.roster.manager m ≡ true
      → (m ≢ pos n) × (is_managed w.roster.manager m ≡ true)
  engine_same : u.engine ≡ w.engine
  gate_same : u.map_suspended ≡ w.map_suspended

pub drop_slot-rest :
    (w : World) (slot : ℤ)
    → let u = reset_vote_transaction_slot w slot in
      (u.roster ≡ w.roster) × (u.engine ≡ w.engine) × (u.map_suspended ≡ w.map_suspended)
unfolding reset_vote_transaction_slot
drop_slot-rest w (negsuc n) = (refl, refl, refl)
drop_slot-rest w (pos n) =
    elim (Bool-cases
      (leb max_vote_slots n || not (get_or w.vote.snapshots n empty_snapshot).captured)) [
        | inl e ↦ rw e (refl, refl, refl)
        | inr e ↦ rw e (refl, refl, refl)
      ]

unmarked-other :
    (r : Roster) (n : ℕ) (m : ℤ)
    → is_managed (unmark r (pos n)).manager m ≡ true
    → (m ≢ pos n) × (is_managed r.manager m ≡ true)
unmarked-other r n m h =
    let (k, k_lt, m_is) = is_managed-bound (unmark r (pos n)).manager m h in
    let h' : is_managed (unmark r (pos n)).manager (pos k) ≡ true =
      subst (λ z. is_managed (unmark r (pos n)).manager z ≡ true) m_is h in
    elim (ℕ_discrete n k) [
      | yes q ↦
          let dead : is_managed (unmark r (pos n)).manager (pos k) ≡ false =
            subst (λ z. is_managed (unmark r (pos n)).manager (pos z) ≡ false) q
              (unmark-unmanaged r n) in
          absurd (ground (arith))
      | no q ↦ (
        (λ e. let k_is : pos k ≡ pos n = sym m_is ∙ e in q (let s : k ≡ n = cc in sym s)),
        subst (λ z. is_managed r.manager z ≡ true) (sym m_is) (sym (unmark-other r n k q) ∙ h'),
      )
    ]

release_slot-LetsGo : (w : World) (n : ℕ) → IsSound w.roster → LetsGo w n (release_slot w (pos n))
unfolding release_slot
release_slot-LetsGo w n v = elim (Bool-cases (is_managed w.roster.manager (pos n))) [
  | inr e ↦ rw e (record {
    sound = v;
    free = e;
    other = λ m h. (
      (λ q.
          let dead : is_managed w.roster.manager m ≡ false =
            subst (λ z. is_managed w.roster.manager z ≡ false) (sym q) e in
          absurd (ground (arith))),
      h,
    );
    engine_same = refl;
    gate_same = refl;
  })
  | inl e ↦
      let freed = record w {
        roster = unmark w.roster (pos n);
        shm_view = publish_release w.shm_view (pos n);
      } in
      let (r_e, e_e, g_e) = drop_slot-rest freed (pos n) in
      rw e (record {
        sound = subst IsSound (sym r_e) (unmark-IsSound w.roster (pos n) v);
        free = rw r_e (unmark-unmanaged w.roster n);
        other =
            λ m h. unmarked-other w.roster n m (subst (λ r. is_managed r.manager m ≡ true) r_e h);
        engine_same = e_e;
        gate_same = g_e;
      })
]

not_worn :
    (r : Roster) (n : ℕ)
    → n < max_slots
    → is_managed r.manager (pos n) ≡ false
    → is_nonneg (get_or r.manager.slots n minus_one) ≡ false
unfolding is_managed
not_worn r n lt h = let inside : leb max_slots n ≡ false = ground (arith) in rw inside at h

-- A client that connects leaves a sound roster sound: a slot that it takes over is let go first, and a
-- bot gets an identity that no live slot wears, by name or by SteamID64. This needs every slot that
-- is managed, other than the one connected to, to be one with an active connection.
pub on_client_connected-IsSound :
    (w : World) (slot : ℤ) (name : Bytes) (xuid : ℕ) (fake_player : Bool) (draws : Draws)
    → IsSound w.roster
    → ((m : ℤ) → m ≢ slot → is_managed w.roster.manager m ≡ true → is_slot_active w.engine m ≡ true)
    → IsSound (on_client_connected w slot name xuid fake_player draws).roster
unfolding on_client_connected
on_client_connected-IsSound w (negsuc k) name xuid fake_player draws v all_active =
    let out : (not w.plugin_active || not (in_range (negsuc k)) || bytes_eq (take 4 name) hltv)
        ≡ true =
      ground (arith) in
    rw out v
on_client_connected-IsSound w (pos n) name xuid fake_player draws v all_active =
    elim (Bool-cases
      (not w.plugin_active || not (in_range (pos n)) || bytes_eq (take 4 name) hltv)) [
        | inl out ↦ rw out v
        | inr ours ↦
            let n_lt : n < max_slots = ground (arith) in
            let freed = release_slot w (pos n) in
            let let_go = release_slot-LetsGo w n v in
            elim (Bool-cases (w.map_suspended || not (xuid == 0) || not fake_player)) [
              | inl human ↦ rw (ours, human) let_go.sound
              | inr bot ↦
                  let open_map : w.map_suspended ≡ false = ground (arith) in
                  rw (ours, bot)
                    (serve_free-IsSound freed draws n let_go.sound n_lt
                      (not_worn freed.roster n n_lt let_go.free)
                      (λ m h.
                        let (ne, was) = let_go.other m h in
                        subst (λ e. is_slot_active e m ≡ true) (sym let_go.engine_same)
                          (all_active m ne was))
                      (let_go.gate_same ∙ open_map))
            ]
      ]
