-- ===== src/Examples/Reap.antt =====
-- The controller of a kicked bot in src/controller_reap.cpp, and the client slots behind it.
use cs2_bot_identity.Base.{◌≡◌, refl, pos, [], ◌∷◌}
use cs2_bot_identity.IdentityManager.{initial}
use cs2_bot_identity.World.{World}
use cs2_bot_identity.ControllerReap.{
  drain_pending_controller_removals, queue_controller_removal_for_client,
  shrink_trailing_leftover_clients,
}
use cs2_bot_identity.ControllerReap.Queue.{IsOnce, empty, queue-IsOnce, drain_twice-empty}
use cs2_bot_identity.ControllerReap.Shrink.{Shrinks, shrink_trailing-Shrinks}
use cs2_bot_identity.Examples.Data.{world, engine, outside}

queue-IsOnce_example : IsOnce (queue_controller_removal_for_client world 100 (pos 0)).0.pending
queue-IsOnce_example = queue-IsOnce world 100 (pos 0) empty

abbrev queued : World
queued = record world {
  pending =
      record { controller = 200; handle = 1; slot = pos 0; user_id = 0; referenced_frames = 0 }
      ∷ [];
}

abbrev drained : World
drained = drain_pending_controller_removals outside queued

drain_twice-empty_example : (drain_pending_controller_removals outside drained).pending ≡ []
drain_twice-empty_example = drain_twice-empty outside queued drained refl

shrink_trailing-Shrinks_example :
    Shrinks initial engine (shrink_trailing_leftover_clients initial engine)
shrink_trailing-Shrinks_example = shrink_trailing-Shrinks initial engine
