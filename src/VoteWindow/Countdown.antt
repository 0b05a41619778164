-- ===== src/VoteWindow/Countdown.antt =====
-- src/vote_transaction.cpp: after its end is scheduled, the window stays open for the frames it was
-- given, and is closed by the last of them, whatever the engine looks like in between.
use mathlib.Core.Path.{◌∙◌, ap}
use native.Mathlib.Omega.{arith}
use cs2_bot_identity.Base.{
  ℕ, ◌-◌, ◌<◌, ◌≤◌, ◌≡◌, refl, ◌==◌, ℤ, pos, negsuc, true, false, not, ◌&&◌, ltb, List, [], ◌∷◌,
  length,
}
use cs2_bot_identity.EntityAccess.{Engine}
use cs2_bot_identity.World.{World, Draws}
use cs2_bot_identity.VoteWindow.{
  tick_vote_transaction, schedule_vote_transaction_end, hold_frames, hold_tick, close_window,
  set_depth, unschedule,
}
use cs2_bot_identity.VoteWindow.Closed.{timer, reassert-timer, restore-timer}

-- One `TickVoteTransaction` per frame, each with the engine as it is found in that frame.
pub frames : (ℕ → Draws) → List Engine → World → World
frames draws [] w = w
frames draws (e ∷ es) w = frames draws es (tick_vote_transaction draws (record w { engine = e }))

pub data AllLive : List Engine → Type 0 where
  none_left : AllLive []
  live_then :
      {e : Engine} {es : List Engine} → e.server_alive ≡ true → AllLive es → AllLive (e ∷ es)

pub tick_hold :
    (draws : ℕ → Draws) (w : World)
    → w.engine.server_alive ≡ true
    → w.vote.end_scheduled ≡ true
    → 1 < w.vote.hold_frames_remaining
    → tick_vote_transaction draws w ≡ hold_tick w
unfolding tick_vote_transaction
tick_hold draws w live ends more =
    let open_e : (w.vote.depth == 0 && not w.vote.end_scheduled) ≡ false = ground (arith) in
    let live_e : not w.engine.server_alive ≡ false = ground (arith) in
    let ends_e : not w.vote.end_scheduled ≡ false = ground (arith) in
    let more_e : ltb 1 w.vote.hold_frames_remaining ≡ true = ground (arith) in
    rw (open_e, live_e, ends_e, more_e) refl

pub tick_close :
    (draws : ℕ → Draws) (w : World)
    → w.engine.server_alive ≡ true
    → w.vote.end_scheduled ≡ true
    → w.vote.hold_frames_remaining ≤ 1
    → tick_vote_transaction draws w ≡ close_window draws w
unfolding tick_vote_transaction
tick_close draws w live ends last =
    let open_e : (w.vote.depth == 0 && not w.vote.end_scheduled) ≡ false = ground (arith) in
    let live_e : not w.engine.server_alive ≡ false = ground (arith) in
    let ends_e : not w.vote.end_scheduled ≡ false = ground (arith) in
    let last_e : ltb 1 w.vote.hold_frames_remaining ≡ false = ground (arith) in
    rw (open_e, live_e, ends_e, last_e) refl

pub hold_tick-timer :
    (w : World)
    → timer (hold_tick w) ≡ (w.vote.depth, w.vote.end_scheduled, w.vote.hold_frames_remaining - 1)
unfolding hold_tick
hold_tick-timer w = ap (λ t. (t.0, t.1, t.2 - 1)) (reassert-timer w)

pub close_window-timer :
    (draws : ℕ → Draws) (w : World) → timer (close_window draws w) ≡ (0, false, 0)
unfolding close_window
close_window-timer draws w = restore-timer draws (set_depth 0 (unschedule w))

-- The timer of a world after the frames, from its timer before them.
frames-timer_open :
    (draws : ℕ → Draws) (es : List Engine) (w : World) (d k : ℕ)
    → AllLive es
    → timer w ≡ (d, true, k)
    → length es < k
    → timer (frames draws es w) ≡ (d, true, k - length es)
unfolding frames
frames-timer_open draws [] w d k live t few = t ∙ ap (λ left. (d, true, left)) (omega arith)
frames-timer_open draws (e ∷ es) w d k (live_then e_live live) t few =
    let now = record w { engine = e } in
    let k_e : w.vote.hold_frames_remaining ≡ k = ap (λ t'. t'.2) t in
    let ends : w.vote.end_scheduled ≡ true = ap (λ t'. t'.1) t in
    let step : timer (tick_vote_transaction draws now) ≡ (d, true, k - 1) =
      ap timer (tick_hold draws now e_live ends (omega arith))
      ∙ hold_tick-timer now
      ∙ ap (λ t'. (t'.0, t'.1, t'.2 - 1)) t in
    frames-timer_open draws es (tick_vote_transaction draws now) d (k - 1) live step (omega arith)
    ∙ ap (λ left. (d, true, left)) (omega arith)

frames-timer_closed :
    (draws : ℕ → Draws) (es : List Engine) (w : World) (d k : ℕ)
    → AllLive es
    → timer w ≡ (d, true, k)
    → length es ≡ k
    → 0 < k
    → timer (frames draws es w) ≡ (0, false, 0)
unfolding frames
frames-timer_closed draws [] w d k live t all some_left = absurd (omega arith)
frames-timer_closed draws (e ∷ []) w d k (live_then e_live live) t all some_left =
    let now = record w { engine = e } in
    let k_e : w.vote.hold_frames_remaining ≡ k = ap (λ t'. t'.2) t in
    let ends : w.vote.end_scheduled ≡ true = ap (λ t'. t'.1) t in
    ap timer (tick_close draws now e_live ends (omega arith)) ∙ close_window-timer draws now
frames-timer_closed draws (e ∷ e' ∷ es) w d k (live_then e_live live) t all some_left =
    let now = record w { engine = e } in
    let k_e : w.vote.hold_frames_remaining ≡ k = ap (λ t'. t'.2) t in
    let ends : w.vote.end_scheduled ≡ true = ap (λ t'. t'.1) t in
    let step : timer (tick_vote_transaction draws now) ≡ (d, true, k - 1) =
      ap timer (tick_hold draws now e_live ends (omega arith))
      ∙ hold_tick-timer now
      ∙ ap (λ t'. (t'.0, t'.1, t'.2 - 1)) t in
    frames-timer_closed draws (e' ∷ es) (tick_vote_transaction draws now) d (k - 1) live step
      (omega arith) (omega arith)

pub hold_frames_le : (n : ℤ) → hold_frames n ≤ 32
hold_frames_le (pos n) = ground (arith)
hold_frames_le (negsuc n) = ground (arith)

pub hold_frames_pos : (n : ℤ) → 0 < hold_frames n
hold_frames_pos (pos n) = ground (arith)
hold_frames_pos (negsuc n) = ground (arith)

pub schedule-timer :
    (w : World) (n : ℤ)
    → 0 < w.vote.depth
    → timer (schedule_vote_transaction_end w n) ≡ (w.vote.depth, true, hold_frames n)
unfolding schedule_vote_transaction_end
schedule-timer w n deep =
    let deep_e : (w.vote.depth == 0) ≡ false = ground (arith) in rw deep_e refl

-- If the window is open when its end is scheduled for `n` frames, taken into 1 to 32, and fewer frames
-- than that have passed, all of them with a live server, it is open at the same depth, and what is
-- left of the hold is the difference.
pub schedule-frames_open :
    (draws : ℕ → Draws) (w : World) (n : ℤ) (es : List Engine)
    → 0 < w.vote.depth
    → AllLive es
    → length es < hold_frames n
    → timer (frames draws es (schedule_vote_transaction_end w n))
      ≡ (w.vote.depth, true, hold_frames n - length es)
schedule-frames_open draws w n es deep live few =
    frames-timer_open draws es (schedule_vote_transaction_end w n) w.vote.depth (hold_frames n) live
      (schedule-timer w n deep) few

-- If the window is open when its end is scheduled for `n` frames, taken into 1 to 32, then after
-- exactly that many frames with a live server it is closed: its depth is 0 and nothing is scheduled.
pub schedule-frames_closed :
    (draws : ℕ → Draws) (w : World) (n : ℤ) (es : List Engine)
    → 0 < w.vote.depth
    → AllLive es
    → length es ≡ hold_frames n
    → timer (frames draws es (schedule_vote_transaction_end w n)) ≡ (0, false, 0)
schedule-frames_closed draws w n es deep live all =
    frames-timer_closed draws es (schedule_vote_transaction_end w n) w.vote.depth (hold_frames n)
      live (schedule-timer w n deep) all (hold_frames_pos n)
