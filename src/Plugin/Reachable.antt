-- ===== src/Plugin/Reachable.antt =====
-- src/plugin.cpp: the states that the hooks reach, in any order, from what `Load` leaves.
use cs2_bot_identity.Base.{ℕ, ◌≡◌, ◌≢◌, subst, ℤ, Bool, true, some, Bytes}
use cs2_bot_identity.IdentityManager.{is_managed}
use cs2_bot_identity.EntityAccess.{Engine, is_slot_active}
use cs2_bot_identity.World.{World, Draws}
use cs2_bot_identity.ControllerReap.{Outside}
use cs2_bot_identity.Plugin.{
  on_client_connected, on_client_put_in_server, on_client_disconnect, on_level_init, unload,
  dispatch_con_command_pre, dispatch_con_command_post, game_frame,
}
use cs2_bot_identity.Plugin.Commands.{Command}
use cs2_bot_identity.Plugin.Startup.{Host, start_up}
use cs2_bot_identity.Plugin.Startup.Ready.{IsFresh, start_up-IsReady}
use cs2_bot_identity.Plugin.Connect.{IsSound}
use cs2_bot_identity.Plugin.Invariant.{on_client_connected-IsSound}
use cs2_bot_identity.Plugin.Sound.{Sound}
use cs2_bot_identity.Plugin.Hooks.{
  level_init-IsSound, unload-IsSound, put_in_server-IsSound, disconnect-IsSound, pre-IsSound,
  post-IsSound, frame-IsSound,
}

-- One hook, with whatever the engine passes to it, or a step of the engine between hooks. A client
-- connects while every other managed slot has an active connection.
pub data Step (outside : Outside) : World → World → Type 0 where
  connected :
      (w : World) (slot : ℤ) (name : Bytes) (xuid : ℕ) (fake_player : Bool) (draws : Draws)
      → ((m : ℤ)
          → m ≢ slot
          → is_managed w.roster.manager m ≡ true
          → is_slot_active w.engine m ≡ true)
      → Step outside w (on_client_connected w slot name xuid fake_player draws)
  put_in_server :
      (w : World) (slot : ℤ) (draws : Draws) → Step outside w (on_client_put_in_server w slot draws)
  disconnected :
      (w : World) (slot : ℤ) (reason : ℕ)
      → Step outside w (on_client_disconnect outside w slot reason)
  level_begun :
      (w : World) (new_map map_name addon : Bytes)
      → Step outside w (on_level_init new_map map_name addon w)
  command_begun :
      (w : World) (draws : ℕ → Draws) (c : Command)
      → Step outside w (dispatch_con_command_pre outside draws w c)
  command_ended :
      (w : World) (map_name addon : Bytes) (draws : ℕ → Draws) (c : Command)
      → Step outside w (dispatch_con_command_post outside map_name addon draws w c)
  frame_ended :
      (w : World) (map_name addon : Bytes) (draws : ℕ → Draws) (rands : ℕ → ℕ) (now : ℕ)
      → Step outside w (game_frame outside map_name addon draws rands now w)
  unloaded : (w : World) → Step outside w (unload w)
  engine_moved : (w : World) (e : Engine) → Step outside w (record w { engine = e })

-- `Load` has returned on a fresh state, whatever the host holds; then hooks and the engine take turns.
pub data Reached (outside : Outside) : World → Type 0 where
  started : (h : Host) (w u : World) → IsFresh w → start_up h w ≡ some u → Reached outside u
  then_step : {w u : World} → Reached outside w → Step outside w u → Reached outside u

Step-IsSound : {outside : Outside} {w u : World} → Step outside w u → Sound w → Sound u
Step-IsSound (connected w slot name xuid fake_player draws others) v =
    on_client_connected-IsSound w slot name xuid fake_player draws v others
Step-IsSound (put_in_server w slot draws) v = put_in_server-IsSound w slot draws v
Step-IsSound {outside} (disconnected w slot reason) v = disconnect-IsSound outside w slot reason v
Step-IsSound (level_begun w new_map map_name addon) v =
    level_init-IsSound new_map map_name addon w v
Step-IsSound {outside} (command_begun w draws c) v = pre-IsSound outside draws w c v
Step-IsSound {outside} (command_ended w map_name addon draws c) v =
    post-IsSound outside map_name addon draws w c v
Step-IsSound {outside} (frame_ended w map_name addon draws rands now) v =
    frame-IsSound outside map_name addon draws rands now w v
Step-IsSound (unloaded w) v = unload-IsSound w v
Step-IsSound (engine_moved w e) v = v

-- Provided that, whenever a client connects, every other managed slot has an active connection: in
-- every state that the hooks reach, in any order, from what `Load` leaves of a fresh state, slots and
-- identities are tied and no two live identities share a name or a SteamID64. The files may hold
-- anything, and the engine may otherwise change in any way between hooks.
pub Reached-IsSound : {outside : Outside} {w : World} → Reached outside w → IsSound w.roster
Reached-IsSound (started h w u fresh e) =
    let (v, v_is, ready) = start_up-IsReady h w fresh in
    let same : v ≡ u = cc in subst (λ x. IsSound x.roster) same ready.sound
Reached-IsSound (then_step r s) = Step-IsSound s (Reached-IsSound r)
