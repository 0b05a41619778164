-- ===== src/Disguise.antt =====
-- src/plugin.cpp, `PickFakePing` to `RestoreIdentity`: putting the player disguise on one slot, and
-- taking it off.
pub mod Bytes
pub mod Published
pub mod Shown
use cs2_bot_identity.Base.{
  ℕ, ◌%◌, ◌==◌, ℤ, pos, pos_part, ◌+ℤ◌, ◌-ℤ◌, ltb_ℤ, true, not, ◌&&◌, ◌||◌, Option, none, some,
  if◌then◌else◌, ltb, leb, is_empty, get_elem?,
}
use cs2_bot_identity.BotInfo.{BotIdentity, PluginFeatures, take_slot}
use cs2_bot_identity.Memory.{Memory}
use cs2_bot_identity.SscOps.{
  clear_fake_player, set_fake_player, write_steam_id, get_entity_index,
  clear_controller_fake_client_flag, set_controller_fake_client_flag,
}
use cs2_bot_identity.EntityAccess.{
  Engine, put_object, resolve_client_by_slot, resolve_player_controller, mark_entity_state_changed,
}
use cs2_bot_identity.ShmPub.{
  publish_adopt, bump_incarnation, publish_ping, publish_crosshair, publish_scoreboard_flair,
  publish_release,
}
use cs2_bot_identity.World.{World, Draws, vote_transaction_active, write_identity}

pub pick_fake_ping : PluginFeatures → BotIdentity → ℕ → ℤ
pick_fake_ping f identity rand =
    if not f.enable_fake_ping
    then pos 0
    else if ltb_ℤ (pos 0) identity.ping && ltb_ℤ identity.ping f.fake_ping_min
    then identity.ping
    else if not (ltb_ℤ f.fake_ping_min f.fake_ping_max)
    then f.fake_ping_min
    else f.fake_ping_min +ℤ pos (rand % pos_part (f.fake_ping_max -ℤ f.fake_ping_min +ℤ pos 1))

pub pick_scoreboard_flair : PluginFeatures → BotIdentity → ℕ → ℕ
pick_scoreboard_flair f identity rand =
    if not f.enable_scoreboard_flair
    then 0
    else if ltb f.scoreboard_flair_millis 1000 && leb f.scoreboard_flair_millis (rand % 1000)
    then 0
    else if ltb 0 identity.scoreboard_flair
    then identity.scoreboard_flair
    else f.default_scoreboard_flair

-- Rewrites the bytes of the object at a pointer.
abbrev pub on_object : (Memory → Memory) → ℕ → Engine → Engine
on_object f p e = put_object e p (f (e.heap p))

-- The controller at an entity index, if it is one, gets its flag written and marked as changed.
pub on_controller : (Memory → Memory) → ℤ → Engine → Engine
on_controller f index e = elim (resolve_player_controller e index) [
  | none ↦ e
  | some controller ↦ mark_entity_state_changed controller (on_object f controller e)
]

pub disguise_engine : Engine → ℕ → ℕ → Engine
disguise_engine e client steam_id =
    let index = get_entity_index e.offsets (e.heap client) in
    on_controller (clear_controller_fake_client_flag e.offsets) index
      (on_object (λ m. write_steam_id e.offsets (clear_fake_player e.offsets m) steam_id) client e)

-- The writes to the shared region for a slot that was just disguised.
pub publish_identity : PluginFeatures → ℤ → BotIdentity → Draws → Option Memory → Option Memory
publish_identity f slot b draws view =
    let adopted = bump_incarnation (publish_adopt view slot b.steam_id (some b.name)) slot in
    let ping = pick_fake_ping f b draws.ping in
    let pinged =
      if f.enable_fake_ping && ltb_ℤ (pos 0) ping
      then publish_ping adopted slot ping
      else adopted in
    let aimed =
      if f.enable_crosshair && not (is_empty b.crosshair)
      then publish_crosshair pinged slot (some b.crosshair)
      else pinged in
    let flair = pick_scoreboard_flair f b draws.flair in
    if ltb 0 flair then publish_scoreboard_flair aimed slot flair else aimed

abbrev pub set_applied : BotIdentity → BotIdentity
set_applied b = record b { applied = true }

-- The part of `ApplyDisguise` behind its guards, for a client that was resolved.
unfoldable pub disguise_client : World → ℤ → ℕ → BotIdentity → ℕ → Draws → World
disguise_client w slot i b client draws =
    let done = write_identity set_applied i w in
    record done {
      engine = disguise_engine w.engine client b.steam_id;
      shm_view = publish_identity w.features slot b draws w.shm_view;
    }

-- The part of `ApplyDisguise` behind the map gate.
unfoldable pub disguise_entry : World → ℤ → ℕ → Draws → World
disguise_entry w slot i draws = elim (get_elem? w.roster.bots i) [
  | none ↦ w
  | some b ↦
      if b.applied
      then w
      else let held = write_identity (take_slot slot) i w in
        if vote_transaction_active w || (resolve_client_by_slot w.engine slot == 0)
        then held
        else disguise_client held slot i b (resolve_client_by_slot w.engine slot) draws
]

-- `i` is the entry that `identity` points to.
unfoldable pub apply_disguise : World → ℤ → ℕ → Draws → World
apply_disguise w slot i draws = if w.map_suspended then w else disguise_entry w slot i draws

pub restore_engine : Engine → ℕ → Engine
restore_engine e client =
    let index = get_entity_index e.offsets (e.heap client) in
    on_object (λ m. write_steam_id e.offsets (set_fake_player e.offsets m) 0) client
      (on_controller (set_controller_fake_client_flag e.offsets) index e)

unfoldable pub restore_identity : World → ℤ → World
restore_identity w slot = if resolve_client_by_slot w.engine slot == 0 then w else record w {
  engine = restore_engine w.engine (resolve_client_by_slot w.engine slot);
  shm_view = publish_release w.shm_view slot;
}
