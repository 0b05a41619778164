-- ===== src/Examples/Hooks.antt =====
-- A bot connects to slot 0 of src/plugin.cpp and leaves again.
use cs2_bot_identity.Base.{◌+◌, ◌≤◌, ◌≡◌, refl, arith, ℤ, pos, true, false, codes}
use cs2_bot_identity.IdentityManager.{is_managed}
use cs2_bot_identity.IdentityManager.Links.{IsLinked}
use cs2_bot_identity.EntityAccess.{is_slot_active}
use cs2_bot_identity.World.{World}
use cs2_bot_identity.MapGate.{release_managed_slots}
use cs2_bot_identity.MapGate.Release.{release_managed_slots-IsReleased}
use cs2_bot_identity.Plugin.{on_client_connected, on_client_disconnect, jittered_ping}
use cs2_bot_identity.Plugin.Connect.{IsSound}
use cs2_bot_identity.Plugin.Invariant.{on_client_connected-IsSound}
use cs2_bot_identity.Plugin.Disconnect.{on_client_disconnect-IsSound}
use cs2_bot_identity.Plugin.Jitter.{jittered_ping-bounds, span, clamp}
use cs2_bot_identity.Examples.Data.{world, engine, draws, outside, roster-IsSound}

everyone_active : (m : ℤ) → is_slot_active engine m ≡ true
unfolding is_slot_active
everyone_active m = refl

abbrev connected : World
connected = record world {
  roster = (on_client_connected world (pos 0) (codes "BOT Ann") 0 true draws).roster;
}

connected-IsSound : IsSound connected.roster
connected-IsSound =
    on_client_connected-IsSound world (pos 0) (codes "BOT Ann") 0 true draws roster-IsSound
      (λ m ne managed. everyone_active m)

on_client_connected-IsSound_example :
    IsSound (on_client_connected connected (pos 1) (codes "BOT Bob") 0 true draws).roster
on_client_connected-IsSound_example =
    on_client_connected-IsSound connected (pos 1) (codes "BOT Bob") 0 true draws connected-IsSound
      (λ m ne managed. everyone_active m)

on_client_disconnect-IsSound_example :
    IsSound (on_client_disconnect outside connected (pos 0) 39).roster
    × (is_managed (on_client_disconnect outside connected (pos 0) 39).roster.manager (pos 0)
        ≡ false)
on_client_disconnect-IsSound_example =
    on_client_disconnect-IsSound outside connected (pos 0) 39 connected-IsSound refl refl

release_managed_slots-IsReleased_example :
    IsLinked (release_managed_slots connected).roster
    × ((m : ℤ) → is_managed (release_managed_slots connected).roster.manager m ≡ false)
release_managed_slots-IsReleased_example =
    release_managed_slots-IsReleased connected connected-IsSound.linked

jittered_ping-bounds_example :
    (5 ≤ jittered_ping 40 30 7)
    × (jittered_ping 40 30 7 ≤ 250)
    × (clamp 40 ≤ jittered_ping 40 30 7 + span 40 30)
    × (jittered_ping 40 30 7 ≤ clamp 40 + span 40 30)
jittered_ping-bounds_example = jittered_ping-bounds 40 30 7 (omega arith) (omega arith)
