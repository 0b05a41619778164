-- ===== src/VoteWindow.antt =====
-- src/vote_transaction.cpp, `BeginVoteTransaction` to `ResetVoteTransactionSlot`: how the window of
-- native markers opens, nests, is held for some frames and closes. Console output is left out.
pub mod Closed
pub mod Countdown
pub mod Reachable
use cs2_bot_identity.Base.{
  ℕ, zero, suc, ◌+◌, ◌-◌, ◌%◌, ◌^◌, ◌==◌, ℤ, pos, negsuc, ltb_ℤ, pos_part, Bool, true, false, not,
  ◌&&◌, ◌||◌, if◌then◌else◌, ltb, leb, get_or,
}
use cs2_bot_identity.World.{
  World, VoteState, VoteSlotSnapshot, empty_snapshot, no_snapshots, initial_vote, max_vote_slots,
  Draws, vote_transaction_active,
}
use cs2_bot_identity.VoteTransaction.{
  capture_and_restore_native_bot_identity, capture_one_managed_slot, clear_vote_snapshots,
  set_snapshot_valid, set_snapshot, reassert_native_vote_markers, restore_player_identity,
}

-- `++g_VoteDepth`.
abbrev pub deepen : World → World
deepen w = record w { vote = record w.vote { depth = (w.vote.depth + 1) % 2 ^ 32 } }

abbrev pub unschedule : World → World
unschedule w = record w {
  vote = record w.vote { end_scheduled = false; hold_frames_remaining = 0 };
}

abbrev pub set_depth : ℕ → World → World
set_depth n w = record w { vote = record w.vote { depth = n } }

unfoldable pub begin_vote_transaction : World → World
begin_vote_transaction w =
    if w.vote.depth == 0 then capture_and_restore_native_bot_identity (deepen w) else deepen w

unfoldable pub capture_only : World → ℤ → World
capture_only w slot =
    let (captured, done) = capture_one_managed_slot (clear_vote_snapshots w) slot in
    set_snapshot_valid done captured

unfoldable pub begin_vote_transaction_for_slot : World → ℤ → World
unfolding capture_only
begin_vote_transaction_for_slot w slot =
    if w.vote.depth == 0 then capture_only (deepen w) slot else deepen w

pub end_vote_transaction : (ℕ → Draws) → World → World
end_vote_transaction draws w =
    if w.vote.depth == 0
    then w
    else let left = set_depth (w.vote.depth - 1) (unschedule w) in
      if w.vote.depth - 1 == 0 then restore_player_identity draws left else left

-- `if (frames < 1) frames = 1; if (frames > 32) frames = 32;`
abbrev pub hold_frames : ℤ → ℕ
hold_frames frames =
    if ltb_ℤ frames (pos 1) then 1 else if ltb_ℤ (pos 32) frames then 32 else pos_part frames

unfoldable pub schedule_vote_transaction_end : World → ℤ → World
schedule_vote_transaction_end w frames = if w.vote.depth == 0 then w else record w {
  vote = record w.vote { hold_frames_remaining = hold_frames frames; end_scheduled = true };
}

unfoldable pub reset_vote_transaction : World → World
reset_vote_transaction w = record w { vote = initial_vote }

-- The end of `TickVoteTransaction`, and of `ForceEndVoteTransaction`.
unfoldable pub close_window : (ℕ → Draws) → World → World
close_window draws w = restore_player_identity draws (set_depth 0 (unschedule w))

unfoldable pub hold_tick : World → World
hold_tick w =
    let held = reassert_native_vote_markers w in
    record held {
      vote = record held.vote { hold_frames_remaining = held.vote.hold_frames_remaining - 1 };
    }

unfoldable pub tick_vote_transaction : (ℕ → Draws) → World → World
unfolding hold_tick close_window
tick_vote_transaction draws w =
    if w.vote.depth == 0 && not w.vote.end_scheduled
    then w
    else if not w.engine.server_alive
    then reset_vote_transaction w
    else if not w.vote.end_scheduled
    then w
    else if ltb 1 w.vote.hold_frames_remaining
    then hold_tick w
    else close_window draws w

unfoldable pub force_end_vote_transaction : (ℕ → Draws) → World → World
unfolding close_window
force_end_vote_transaction draws w =
    if w.vote.depth == 0 && not w.vote.end_scheduled then w else close_window draws w

unfoldable pub reset_vote_transaction_slot : World → ℤ → World
reset_vote_transaction_slot w (negsuc n) = w
reset_vote_transaction_slot w (pos n) =
    if leb max_vote_slots n || not (get_or w.vote.snapshots n empty_snapshot).captured
    then w
    else set_snapshot n empty_snapshot w
