-- ===== src/Examples/Window.antt =====
-- The vote window of src/vote_transaction.cpp with a hold of three frames.
use cs2_bot_identity.Base.{ℕ, ◌≡◌, refl, arith, pos, true, false, [], ◌∷◌}
use cs2_bot_identity.World.{World, Draws}
use cs2_bot_identity.VoteWindow.{begin_vote_transaction, schedule_vote_transaction_end}
use cs2_bot_identity.VoteWindow.Closed.{timer}
use cs2_bot_identity.VoteWindow.Countdown.{
  frames, none_left, live_then, schedule-frames_open, schedule-frames_closed,
}
use cs2_bot_identity.VoteWindow.Reachable.{IsTimed, started, then_step, begun, Reached-IsTimed}
use cs2_bot_identity.Examples.Data.{world, engine, draws}

abbrev each : ℕ → Draws
each n = draws

abbrev open_world : World
open_world = record world { vote = record world.vote { depth = 1 } }

schedule-frames_open_example :
    timer (frames each (engine ∷ engine ∷ []) (schedule_vote_transaction_end open_world (pos 3)))
    ≡ (1, true, 1)
schedule-frames_open_example =
    schedule-frames_open each open_world (pos 3) (engine ∷ engine ∷ []) (omega arith)
      (live_then refl (live_then refl none_left)) (omega arith)

schedule-frames_closed_example :
    timer (
      frames each
        (engine ∷ engine ∷ engine ∷ [])
        (schedule_vote_transaction_end open_world (pos 3)))
    ≡ (0, false, 0)
schedule-frames_closed_example =
    schedule-frames_closed each open_world (pos 3) (engine ∷ engine ∷ engine ∷ []) (omega arith)
      (live_then refl (live_then refl (live_then refl none_left))) refl

Reached-IsTimed_example : IsTimed (timer (begin_vote_transaction world))
Reached-IsTimed_example =
    Reached-IsTimed {draws = each} (then_step (started world refl) (begun world (omega arith)))
