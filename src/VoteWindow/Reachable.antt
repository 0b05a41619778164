-- ===== src/VoteWindow/Reachable.antt =====
-- src/vote_transaction.cpp: the states of the window that its operations reach, in any order.
use native.Mathlib.Omega.{arith}
use cs2_bot_identity.Base.{
  ℕ, ◌+◌, ◌-◌, ◌%◌, ◌^◌, ◌<◌, ◌≤◌, ◌≡◌, refl, ◌==◌, ℤ, pos, negsuc, true, false, not, ◌&&◌, ◌||◌,
  leb, ltb, get_or, Bool-cases, inl, inr, for_slots_keeps,
}
use mathlib.Core.Path.{ap, ◌∙◌, sym, subst}
use cs2_bot_identity.BotInfo.{max_slots}
use cs2_bot_identity.IdentityManager.{is_managed}
use cs2_bot_identity.EntityAccess.{resolve_client_by_slot}
use cs2_bot_identity.World.{World, empty_snapshot, max_vote_slots, initial_vote, Draws}
use cs2_bot_identity.VoteTransaction.{
  capture_one_managed_slot, capture_client, capture_if_managed,
  capture_and_restore_native_bot_identity, clear_vote_snapshots,
}
use cs2_bot_identity.VoteWindow.{
  begin_vote_transaction, begin_vote_transaction_for_slot, end_vote_transaction,
  schedule_vote_transaction_end, reset_vote_transaction, tick_vote_transaction,
  force_end_vote_transaction, reset_vote_transaction_slot, deepen, unschedule, set_depth, hold_tick,
  capture_only,
}
use cs2_bot_identity.VoteWindow.Closed.{timer, Timer, restore-timer}
use cs2_bot_identity.VoteWindow.Countdown.{
  hold_tick-timer, close_window-timer, hold_frames_pos, hold_frames_le,
}

capture_one-timer : (n : ℕ) (w : World) → timer (capture_one_managed_slot w (pos n)).0 ≡ timer w
unfolding capture_one_managed_slot capture_client
capture_one-timer n w = elim (Bool-cases (leb max_vote_slots n || leb max_slots n)) [
  | inl e ↦ rw e refl
  | inr e ↦
      elim (Bool-cases (
        not (is_managed w.roster.manager (pos n))
        || resolve_client_by_slot w.engine (pos n) == 0)) [
          | inl f ↦ rw (e, f) refl
          | inr f ↦ rw (e, f) refl
        ]
]

capture_if_managed-timer :
    (t : Timer) (n : ℕ) (w : World) → timer w ≡ t → timer (capture_if_managed n w) ≡ t
unfolding capture_if_managed
capture_if_managed-timer t n w h = elim (Bool-cases (is_managed w.roster.manager (pos n))) [
  | inl e ↦ rw e (capture_one-timer n w ∙ h)
  | inr e ↦ rw e h
]

capture-timer : (w : World) → timer (capture_and_restore_native_bot_identity w) ≡ timer w
unfolding capture_and_restore_native_bot_identity
capture-timer w =
    for_slots_keeps (λ v. timer v ≡ timer w) capture_if_managed (capture_if_managed-timer (timer w))
      max_slots 0 (clear_vote_snapshots w) refl

capture_only-timer : (w : World) (slot : ℤ) → timer (capture_only w slot) ≡ timer w
unfolding capture_only capture_one_managed_slot
capture_only-timer w (pos n) = capture_one-timer n (clear_vote_snapshots w)
capture_only-timer w (negsuc n) = refl

-- What holds of every reachable state: an end is only ever scheduled inside a window, for 1 to 32
-- frames, and no frames are left over when no end is scheduled.
pub record IsTimed (t : Timer) : Type 0 where
  pub fits : t.0 < 2 ^ 32
  pub scheduled : t.1 ≡ true → (0 < t.0) × (1 ≤ t.2) × (t.2 ≤ 32)
  pub idle : t.1 ≡ false → t.2 ≡ 0

-- One call on the window, or anything else that leaves its timer alone. A window that is nested
-- 2^32 - 1 deep already is not begun again.
pub data Step (draws : ℕ → Draws) : World → World → Type 0 where
  begun : (w : World) → w.vote.depth + 1 < 2 ^ 32 → Step draws w (begin_vote_transaction w)
  begun_for :
      (w : World) (slot : ℤ)
      → w.vote.depth + 1 < 2 ^ 32
      → Step draws w (begin_vote_transaction_for_slot w slot)
  ended : (w : World) → Step draws w (end_vote_transaction draws w)
  end_scheduled : (w : World) (n : ℤ) → Step draws w (schedule_vote_transaction_end w n)
  ticked : (w : World) → Step draws w (tick_vote_transaction draws w)
  forced : (w : World) → Step draws w (force_end_vote_transaction draws w)
  dropped : (w : World) → Step draws w (reset_vote_transaction w)
  slot_dropped : (w : World) (slot : ℤ) → Step draws w (reset_vote_transaction_slot w slot)
  elsewhere : (w v : World) → timer v ≡ timer w → Step draws w v

pub data Reached (draws : ℕ → Draws) : World → Type 0 where
  started : (w : World) → w.vote ≡ initial_vote → Reached draws w
  then_step : {w v : World} → Reached draws w → Step draws w v → Reached draws v

closed-IsTimed : IsTimed (0, false, 0)
closed-IsTimed = record { fits = ground (arith); scheduled = λ e. ground (arith); idle = λ e. refl }

deeper-IsTimed :
    (w : World) → w.vote.depth + 1 < 2 ^ 32 → IsTimed (timer w) → IsTimed (timer (deepen w))
deeper-IsTimed w few h =
    let same : (w.vote.depth + 1) % 2 ^ 32 ≡ w.vote.depth + 1 = omega arith in
    record {
      fits = ground (arith);
      scheduled = λ e. let (p, q, r) = h.scheduled e in (omega arith, q, r);
      idle = h.idle;
    }

by_timer : {t u : Timer} → u ≡ t → IsTimed t → IsTimed u
by_timer e h = subst IsTimed (sym e) h

begin-IsTimed :
    (w : World)
    → w.vote.depth + 1 < 2 ^ 32
    → IsTimed (timer w)
    → IsTimed (timer (begin_vote_transaction w))
unfolding begin_vote_transaction
begin-IsTimed w few h = elim (Bool-cases (w.vote.depth == 0)) [
  | inl e ↦ rw e (by_timer (capture-timer (deepen w)) (deeper-IsTimed w few h))
  | inr e ↦ rw e (deeper-IsTimed w few h)
]

begin_for_slot-IsTimed :
    (w : World) (slot : ℤ)
    → w.vote.depth + 1 < 2 ^ 32
    → IsTimed (timer w)
    → IsTimed (timer (begin_vote_transaction_for_slot w slot))
unfolding begin_vote_transaction_for_slot
begin_for_slot-IsTimed w slot few h = elim (Bool-cases (w.vote.depth == 0)) [
  | inl e ↦ rw e (by_timer (capture_only-timer (deepen w) slot) (deeper-IsTimed w few h))
  | inr e ↦ rw e (deeper-IsTimed w few h)
]

left-IsTimed :
    (w : World) → IsTimed (timer w) → IsTimed (timer (set_depth (w.vote.depth - 1) (unschedule w)))
left-IsTimed w h =
    let f = h.fits in
    record { fits = omega arith; scheduled = λ e. ground (arith); idle = λ e. refl }

end-IsTimed :
    (draws : ℕ → Draws) (w : World)
    → IsTimed (timer w)
    → IsTimed (timer (end_vote_transaction draws w))
unfolding end_vote_transaction
end-IsTimed draws w h =
    let left = set_depth (w.vote.depth - 1) (unschedule w) in
    elim (Bool-cases (w.vote.depth == 0)) [
      | inl e ↦ rw e h
      | inr e ↦ elim (Bool-cases (w.vote.depth - 1 == 0)) [
        | inl f ↦ rw (e, f) (by_timer (restore-timer draws left) (left-IsTimed w h))
        | inr f ↦ rw (e, f) (left-IsTimed w h)
      ]
    ]

schedule-IsTimed :
    (w : World) (n : ℤ) → IsTimed (timer w) → IsTimed (timer (schedule_vote_transaction_end w n))
unfolding schedule_vote_transaction_end
schedule-IsTimed w n h = elim (Bool-cases (w.vote.depth == 0)) [
  | inl e ↦ rw e h
  | inr e ↦
      let deep : 0 < w.vote.depth = ground (arith) in
      let p = hold_frames_pos n in
      rw e (record {
        fits = h.fits;
        scheduled = λ e'. (deep, p, hold_frames_le n);
        idle = λ e'. ground (arith);
      })
]

hold-IsTimed :
    (w : World)
    → IsTimed (timer w)
    → 1 < w.vote.hold_frames_remaining
    → IsTimed (timer (hold_tick w))
hold-IsTimed w h more = by_timer (hold_tick-timer w) (record {
  fits = h.fits;
  scheduled = λ e. let (p, q, r) = h.scheduled e in (p, omega arith, omega arith);
  idle = λ e. let z = h.idle e in omega arith;
})

tick-IsTimed :
    (draws : ℕ → Draws) (w : World)
    → IsTimed (timer w)
    → IsTimed (timer (tick_vote_transaction draws w))
unfolding tick_vote_transaction reset_vote_transaction
tick-IsTimed draws w h = elim (Bool-cases (w.vote.depth == 0 && not w.vote.end_scheduled)) [
  | inl e ↦ rw e h
  | inr e ↦ elim (Bool-cases (not w.engine.server_alive)) [
    | inl f ↦ rw (e, f) closed-IsTimed
    | inr f ↦ elim (Bool-cases (not w.vote.end_scheduled)) [
      | inl g ↦ rw (e, f, g) h
      | inr g ↦ elim (Bool-cases (ltb 1 w.vote.hold_frames_remaining)) [
        | inl more ↦ rw (e, f, g, more) (hold-IsTimed w h (ground (arith)))
        | inr last ↦ rw (e, f, g, last) (by_timer (close_window-timer draws w) closed-IsTimed)
      ]
    ]
  ]
]

force-IsTimed :
    (draws : ℕ → Draws) (w : World)
    → IsTimed (timer w)
    → IsTimed (timer (force_end_vote_transaction draws w))
unfolding force_end_vote_transaction
force-IsTimed draws w h = elim (Bool-cases (w.vote.depth == 0 && not w.vote.end_scheduled)) [
  | inl e ↦ rw e h
  | inr e ↦ rw e (by_timer (close_window-timer draws w) closed-IsTimed)
]

drop_slot-timer : (w : World) (slot : ℤ) → timer (reset_vote_transaction_slot w slot) ≡ timer w
unfolding reset_vote_transaction_slot
drop_slot-timer w (negsuc n) = refl
drop_slot-timer w (pos n) =
    elim (Bool-cases
      (leb max_vote_slots n || not (get_or w.vote.snapshots n empty_snapshot).captured)) [
        | inl e ↦ rw e refl
        | inr e ↦ rw e refl
      ]

Step-IsTimed :
    {draws : ℕ → Draws} {w v : World} → Step draws w v → IsTimed (timer w) → IsTimed (timer v)
unfolding reset_vote_transaction
Step-IsTimed (begun w few) h = begin-IsTimed w few h
Step-IsTimed (begun_for w slot few) h = begin_for_slot-IsTimed w slot few h
Step-IsTimed {draws} (ended w) h = end-IsTimed draws w h
Step-IsTimed (end_scheduled w n) h = schedule-IsTimed w n h
Step-IsTimed {draws} (ticked w) h = tick-IsTimed draws w h
Step-IsTimed {draws} (forced w) h = force-IsTimed draws w h
Step-IsTimed (dropped w) h = closed-IsTimed
Step-IsTimed (slot_dropped w slot) h = by_timer (drop_slot-timer w slot) h
Step-IsTimed (elsewhere w v same) h = by_timer same h

-- Provided that the window is never begun when it is nested 2^32 - 1 deep already: in every state that
-- the calls reach from the initial one, an end is scheduled only while the window is open, and then
-- for 1 to 32 further frames; with no end scheduled no frames are left.
pub Reached-IsTimed : {draws : ℕ → Draws} {w : World} → Reached draws w → IsTimed (timer w)
Reached-IsTimed (started w e) =
    by_timer (ap (λ v. (v.depth, v.end_scheduled, v.hold_frames_remaining)) e) closed-IsTimed
Reached-IsTimed (then_step r s) = Step-IsTimed s (Reached-IsTimed r)
