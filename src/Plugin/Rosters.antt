-- ===== src/Plugin/Rosters.antt =====
-- src/plugin.cpp: the calls of its hooks that leave slots and identities alone.
use cs2_bot_identity.Base.{
  ℕ, ◌-◌, ◌≡◌, refl, ◌==◌, ℤ, pos, negsuc, not, ◌||◌, leb, ltb, ltb_ℤ, get_or, Bool-cases,
  Option-cases, inl, inr, ◌∙◌, for_slots, if◌then◌else◌, for_slots_keeps, if_keeps,
}
use cs2_bot_identity.BotInfo.{max_slots}
use cs2_bot_identity.IdentityManager.{Roster, is_managed, get_identity}
use cs2_bot_identity.EntityAccess.{resolve_client_by_slot}
use cs2_bot_identity.World.{World, empty_snapshot, max_vote_slots}
use cs2_bot_identity.VoteTransaction.{
  capture_one_managed_slot, capture_client, capture_if_managed,
  capture_and_restore_native_bot_identity, clear_vote_snapshots, reassert_one, reassert_client,
  reassert_native_vote_markers, restore_one,
}
use cs2_bot_identity.VoteWindow.{
  begin_vote_transaction, begin_vote_transaction_for_slot, schedule_vote_transaction_end, hold_tick,
  deepen, capture_only,
}
use cs2_bot_identity.ControllerReap.{
  Outside, drain_pending_controller_removals, reap_orphan_controllers,
}
use cs2_bot_identity.Plugin.{jitter_one, jitter_pings, jitter_period}

-- A world with the roster `r`.
abbrev pub Has : Roster → World → Type 0
Has r w = w.roster ≡ r

capture_one-roster : (n : ℕ) (w : World) → (capture_one_managed_slot w (pos n)).0.roster ≡ w.roster
unfolding capture_one_managed_slot capture_client
capture_one-roster n w = elim (Bool-cases (leb max_vote_slots n || leb max_slots n)) [
  | inl e ↦ rw e refl
  | inr e ↦
      elim (Bool-cases (
        not (is_managed w.roster.manager (pos n))
        || resolve_client_by_slot w.engine (pos n) == 0)) [
          | inl f ↦ rw (e, f) refl
          | inr f ↦ rw (e, f) refl
        ]
]

capture_if-roster : (r : Roster) (n : ℕ) (w : World) → Has r w → Has r (capture_if_managed n w)
unfolding capture_if_managed
capture_if-roster r n w h =
    if_keeps (Has r) (is_managed w.roster.manager (pos n)) _ w (capture_one-roster n w ∙ h) h

capture-roster : (w : World) → (capture_and_restore_native_bot_identity w).roster ≡ w.roster
unfolding capture_and_restore_native_bot_identity
capture-roster w =
    for_slots_keeps (Has w.roster) capture_if_managed (capture_if-roster w.roster) max_slots 0
      (clear_vote_snapshots w) refl

pub begin-roster : (w : World) → (begin_vote_transaction w).roster ≡ w.roster
unfolding begin_vote_transaction
begin-roster w = elim (Bool-cases (w.vote.depth == 0)) [
  | inl e ↦ rw e (capture-roster (deepen w))
  | inr e ↦ rw e refl
]

capture_only-roster : (w : World) (slot : ℤ) → (capture_only w slot).roster ≡ w.roster
unfolding capture_only capture_one_managed_slot
capture_only-roster w (pos n) = capture_one-roster n (clear_vote_snapshots w)
capture_only-roster w (negsuc n) = refl

pub begin_for-roster :
    (w : World) (slot : ℤ) → (begin_vote_transaction_for_slot w slot).roster ≡ w.roster
unfolding begin_vote_transaction_for_slot
begin_for-roster w slot = elim (Bool-cases (w.vote.depth == 0)) [
  | inl e ↦ rw e (capture_only-roster (deepen w) slot)
  | inr e ↦ rw e refl
]

pub schedule-roster : (w : World) (n : ℤ) → (schedule_vote_transaction_end w n).roster ≡ w.roster
unfolding schedule_vote_transaction_end
schedule-roster w n = elim (Bool-cases (w.vote.depth == 0)) [
  | inl e ↦ rw e refl
  | inr e ↦ rw e refl
]

reassert_one-roster : (r : Roster) (n : ℕ) (w : World) → Has r w → Has r (reassert_one n w)
unfolding reassert_one reassert_client
reassert_one-roster r n w h =
    let s = get_or w.vote.snapshots n empty_snapshot in
    elim (Bool-cases (
      not s.captured
      || not (is_managed w.roster.manager s.slot)
      || not (resolve_client_by_slot w.engine s.slot == s.client))) [
        | inl e ↦ rw e h
        | inr e ↦ rw e h
      ]

pub hold_tick-roster : (w : World) → (hold_tick w).roster ≡ w.roster
unfolding hold_tick reassert_native_vote_markers
hold_tick-roster w =
    if_keeps (Has w.roster) w.vote.snapshot_valid (for_slots max_vote_slots 0 reassert_one w) w
      (for_slots_keeps (Has w.roster) reassert_one (reassert_one-roster w.roster) max_vote_slots 0 w
        refl)
      refl

pub restore_one-roster : (r : Roster) (n : ℕ) (w : World) → Has r w → Has r (restore_one n w)
unfolding restore_one
restore_one-roster r n w h =
    let s = get_or w.vote.snapshots n empty_snapshot in
    elim (Bool-cases (not s.captured)) [
      | inl e ↦ rw e h
      | inr e ↦
          elim (Bool-cases (
            not (is_managed w.roster.manager s.slot)
            || not (resolve_client_by_slot w.engine s.slot == s.client))) [
              | inl f ↦ rw (e, f) h
              | inr f ↦ rw (e, f) h
            ]
    ]

module _ (outside : Outside) where
  pub drain-roster : (w : World) → (drain_pending_controller_removals outside w).roster ≡ w.roster
  unfolding drain_pending_controller_removals
  drain-roster w = elim (Bool-cases (not w.engine.server_alive)) [
    | inl e ↦ rw e refl
    | inr e ↦ elim (Bool-cases (not w.engine.util_remove_target)) [
      | inl f ↦ rw (e, f) refl
      | inr f ↦ rw (e, f) refl
    ]
  ]

  pub reap-roster : (w : World) → (reap_orphan_controllers outside w).roster ≡ w.roster
  unfolding reap_orphan_controllers
  reap-roster w = elim (Bool-cases (not w.engine.server_alive || not w.engine.util_remove_target)) [
    | inl e ↦ rw e refl
    | inr e ↦ rw e refl
  ]

jitter_one-roster :
    (r : Roster) (rands : ℕ → ℕ) (n : ℕ) (w : World) → Has r w → Has r (jitter_one rands n w)
unfolding jitter_one
jitter_one-roster r rands n w h = elim (Bool-cases (not (is_managed w.roster.manager (pos n)))) [
  | inl e ↦ rw e h
  | inr e ↦ elim (Option-cases (get_identity w.roster (pos n))) [
    | inl f ↦ rw (e, f) h
    | inr (b, f) ↦ elim (Bool-cases (ltb_ℤ (pos 0) b.ping)) [
      | inl g ↦ rw (e, f, g) h
      | inr g ↦ rw (e, f, g) h
    ]
  ]
]

pub jitter-roster :
    (rands : ℕ → ℕ) (now : ℕ) (w : World) → (jitter_pings rands now w).roster ≡ w.roster
unfolding jitter_pings
jitter-roster rands now w =
    let started = if w.last_jitter_time == 0 then record w { last_jitter_time = now } else w in
    let kept : Has w.roster started =
      if_keeps (Has w.roster) (w.last_jitter_time == 0) (record w { last_jitter_time = now }) w refl
        refl in
    if_keeps (Has w.roster) (ltb (now - started.last_jitter_time) jitter_period) started
      (for_slots max_slots 0 (jitter_one rands) (record started { last_jitter_time = now })) kept
      (for_slots_keeps (Has w.roster) (jitter_one rands) (jitter_one-roster w.roster rands)
        max_slots 0 (record started { last_jitter_time = now }) kept)
