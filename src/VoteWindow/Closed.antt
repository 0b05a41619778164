-- ===== src/VoteWindow/Closed.antt =====
-- src/vote_transaction.cpp: what the loops of the window leave alone, and how the window closes.
use mathlib.Core.Path.{◌∙◌}
use cs2_bot_identity.Base.{
  ℕ, ◌≡◌, refl, ◌==◌, ℤ, pos, Bool, false, not, ◌||◌, get_or, get_elem?, if_keeps, Bool-cases,
  Option-cases, inl, inr, for_slots, for_slots_keeps,
}
use cs2_bot_identity.BotInfo.{max_slots}
use cs2_bot_identity.IdentityManager.{is_managed}
use cs2_bot_identity.EntityAccess.{resolve_client_by_slot}
use cs2_bot_identity.World.{World, empty_snapshot, max_vote_slots, Draws, vote_transaction_active}
use cs2_bot_identity.Disguise.{apply_disguise, disguise_entry, disguise_client}
use cs2_bot_identity.VoteTransaction.{
  reassert_one, reassert_client, restore_one, restore_client, disguise_pending, worn_entry,
  set_snapshot_valid, reassert_native_vote_markers, restore_player_identity,
}

-- How deep the window is, whether its end is scheduled, and for how many frames.
abbrev pub Timer : Type 0
Timer = ℕ × Bool × ℕ

abbrev pub timer : World → Timer
timer w = (w.vote.depth, w.vote.end_scheduled, w.vote.hold_frames_remaining)

reassert_one-timer : (t : Timer) (n : ℕ) (w : World) → timer w ≡ t → timer (reassert_one n w) ≡ t
unfolding reassert_one reassert_client
reassert_one-timer t n w h =
    let s = get_or w.vote.snapshots n empty_snapshot in
    elim (Bool-cases (
      not s.captured
      || not (is_managed w.roster.manager s.slot)
      || not (resolve_client_by_slot w.engine s.slot == s.client))) [
        | inl e ↦ rw e h
        | inr e ↦ rw e h
      ]

pub reassert-timer : (w : World) → timer (reassert_native_vote_markers w) ≡ timer w
unfolding reassert_native_vote_markers
reassert-timer w =
    let looped = for_slots max_vote_slots 0 reassert_one w in
    if_keeps (λ v. timer v ≡ timer w) w.vote.snapshot_valid looped w
      (for_slots_keeps (λ v. timer v ≡ timer w) reassert_one (reassert_one-timer (timer w))
        max_vote_slots 0 w refl)
      refl

restore_one-timer : (t : Timer) (n : ℕ) (w : World) → timer w ≡ t → timer (restore_one n w) ≡ t
unfolding restore_one restore_client
restore_one-timer t n w h =
    let s = get_or w.vote.snapshots n empty_snapshot in
    elim (Bool-cases s.captured) [
      | inr e ↦ rw e h
      | inl e ↦
          elim (Bool-cases (
            not (is_managed w.roster.manager s.slot)
            || not (resolve_client_by_slot w.engine s.slot == s.client))) [
              | inl f ↦ rw (e, f) h
              | inr f ↦ rw (e, f) h
            ]
    ]

disguise_entry-timer :
    (w : World) (slot : ℤ) (i : ℕ) (draws : Draws) → timer (disguise_entry w slot i draws) ≡ timer w
unfolding disguise_entry disguise_client
disguise_entry-timer w slot i draws = elim (Option-cases (get_elem? w.roster.bots i)) [
  | inl none_e ↦ rw (none_e, disguise_entry) refl
  | inr (b, b_e) ↦ elim (Bool-cases b.applied) [
    | inl a ↦ rw (b_e, a, disguise_entry) refl
    | inr a ↦
        elim (Bool-cases
          (vote_transaction_active w || (resolve_client_by_slot w.engine slot == 0))) [
            | inl v ↦ rw (b_e, a, v, disguise_entry) refl
            | inr v ↦ rw (b_e, a, v, disguise_entry) refl
          ]
  ]
]

apply_disguise-timer :
    (w : World) (slot : ℤ) (i : ℕ) (draws : Draws) → timer (apply_disguise w slot i draws) ≡ timer w
unfolding apply_disguise
apply_disguise-timer w slot i draws =
    if_keeps (λ v. timer v ≡ timer w) w.map_suspended w (disguise_entry w slot i draws) refl
      (disguise_entry-timer w slot i draws)

disguise_pending-timer :
    (draws : ℕ → Draws) (t : Timer) (n : ℕ) (w : World)
    → timer w ≡ t
    → timer (disguise_pending draws n w) ≡ t
unfolding disguise_pending
disguise_pending-timer draws t n w h = elim (Bool-cases (is_managed w.roster.manager (pos n))) [
  | inr e ↦ rw e h
  | inl e ↦ elim (Option-cases (worn_entry w (pos n))) [
    | inl none_e ↦ rw (e, none_e) h
    | inr ((i, b), b_e) ↦ elim (Bool-cases b.applied) [
      | inl a ↦ rw (e, b_e, a) h
      | inr a ↦ rw (e, b_e, a) (apply_disguise-timer w (pos n) i (draws n) ∙ h)
    ]
  ]
]

pub restore-timer :
    (draws : ℕ → Draws) (w : World) → timer (restore_player_identity draws w) ≡ timer w
unfolding restore_player_identity
restore-timer draws w =
    let unmarked = for_slots max_vote_slots 0 restore_one (set_snapshot_valid false w) in
    let done = for_slots max_slots 0 (disguise_pending draws) unmarked in
    if_keeps (λ v. timer v ≡ timer w) w.vote.snapshot_valid done w
      (for_slots_keeps (λ v. timer v ≡ timer w) (disguise_pending draws)
        (disguise_pending-timer draws (timer w)) max_slots 0 unmarked
        (for_slots_keeps (λ v. timer v ≡ timer w) restore_one (restore_one-timer (timer w))
          max_vote_slots 0 (set_snapshot_valid false w) refl))
      refl
