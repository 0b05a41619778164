-- ===== src/Plugin.antt =====
-- src/plugin.cpp: the hooks on client connection, put in server, disconnection, console commands and
-- frames. Hook registration, interface lookup and console output are left out; the engine interface
-- pointers are there.
pub mod Commands
pub mod Connect
pub mod Disconnect
pub mod Disguised
pub mod Invariant
pub mod Jitter
pub mod Hooks
pub mod Reachable
pub mod Rosters
pub mod Sound
pub mod Startup
use mathlib.Core.Option
use cs2_bot_identity.Base.{
  ℕ, zero, suc, ◌+◌, ◌-◌, ◌*◌, ◌/◌, ◌%◌, ◌^◌, ◌==◌, ℤ, pos, negsuc, pos_part, ltb_ℤ, Bool, true,
  false, not, ◌&&◌, ◌||◌, Option, none, some, List, [], ◌∷◌, if◌then◌else◌, ltb, leb, is_empty,
  Bytes, bytes_eq, codes, take, get_elem?, for_slots,
}
use cs2_bot_identity.BotInfo.{BotIdentity, PluginFeatures, max_slots}
use cs2_bot_identity.BotInfo.Pool.{get_free}
use cs2_bot_identity.Memory.{to_int32}
use cs2_bot_identity.IdentityManager.{is_managed, lookup, mark, unmark, get_identity}
use cs2_bot_identity.EntityAccess.{Engine, is_slot_active, resolve_client_by_slot}
use cs2_bot_identity.ShmPub.{publish_release, publish_ping}
use cs2_bot_identity.World.{World, Draws, vote_transaction_active}
use cs2_bot_identity.Disguise.{apply_disguise, restore_identity}
use cs2_bot_identity.VoteTransaction.{worn_entry, disguise_pending}
use cs2_bot_identity.VoteWindow.{
  begin_vote_transaction, begin_vote_transaction_for_slot, schedule_vote_transaction_end,
  tick_vote_transaction, force_end_vote_transaction, reset_vote_transaction_slot,
  reset_vote_transaction,
}
use cs2_bot_identity.ControllerReap.{
  Outside, move_managed_bot_to_spectator, queue_controller_removal_for_client,
  drain_pending_controller_removals, reap_orphan_controllers, clear_pending_controller_removals,
}
use cs2_bot_identity.MapGate.{apply_map_gate, poll_map_gate, hint_map_gate}
use cs2_bot_identity.Plugin.Commands.{
  Command, is_map_change_command, is_kick_command, is_bot_add_command, is_bot_kick_group_target,
  named_bot_kick, kick_managed_bot_by_user_id, is_population_command,
}

abbrev pub in_range : ℤ → Bool
in_range (pos n) = ltb n max_slots
in_range (negsuc n) = false

abbrev pub hltv : Bytes
hltv = codes "HLTV"

-- `OnLevelInit`, for the name of the new map and what the engine says of the live one.
pub on_level_init : Bytes → Bytes → Bytes → World → World
on_level_init new_map map_name addon w = poll_map_gate map_name addon (apply_map_gate w new_map)

-- `Unload`, less the removal of the hooks.
pub unload : World → World
unload w = reset_vote_transaction (
    clear_pending_controller_removals (record w {
      plugin_active = false;
      map_suspended = false;
      gate_map = [];
      population_command_depth = 0;
      shm_view = none;
    }))

-- The three calls that let a slot go when it is connected to again.
pub release_slot : World → ℤ → World
release_slot w slot =
    if is_managed w.roster.manager slot
    then reset_vote_transaction_slot
        (record w { roster = unmark w.roster slot; shm_view = publish_release w.shm_view slot })
        slot
    else w

-- `Mark`, then `ApplyDisguise`, for the entry that `GetFree` gave. The loop that finds the index of
-- the entry by its address finds that index.
pub adopt : World → ℤ → ℕ → List BotIdentity → Draws → World
adopt w slot i after draws =
    apply_disguise
      (record w { roster = record { bots = after; manager = mark w.roster.manager slot (pos i) } })
      slot i draws

pub serve_free : World → ℤ → Draws → World
serve_free w slot draws =
    let (found, after) = get_free (is_slot_active w.engine) draws.pick w.roster.bots in
    elim found [ none ↦ w | some i ↦ adopt w slot i after draws ]

-- `Hook_OnClientConnected_Post`.
pub on_client_connected : World → ℤ → Bytes → ℕ → Bool → Draws → World
on_client_connected w slot name xuid fake_player draws =
    if not w.plugin_active || not (in_range slot) || bytes_eq (take 4 name) hltv
    then w
    else if w.map_suspended || not (xuid == 0) || not fake_player
    then release_slot w slot
    else serve_free (release_slot w slot) slot draws

-- `Hook_ClientPutInServer_Post`; `slot` is in range when it is managed.
pub on_client_put_in_server : World → ℤ → Draws → World
on_client_put_in_server w slot draws =
    if not w.plugin_active || w.map_suspended || not (is_managed w.roster.manager slot)
    then w
    else elim (worn_entry w slot) [
      | none ↦ w
      | some (i, b) ↦ if b.applied then w else apply_disguise w slot i draws
    ]

pub is_targeted_client_removal_reason : ℕ → Bool
is_targeted_client_removal_reason reason =
    (reason == 39) || (reason == 40) || (reason == 41) || (leb 150 reason && leb reason 164)

abbrev pub jitter_period : ℕ
jitter_period = 30 * 10 ^ 9

-- `jitter`, for a ping and a percentage that are an `int` above 0. The product and the sum wrap where
-- they leave `int`; a range below 2, which a product that wrapped may give, becomes 2.
pub jittered_ping : ℕ → ℕ → ℕ → ℕ
jittered_ping base percent rand =
    let share = pos_part (to_int32 (base * percent % 2 ^ 32)) / 100 in
    let range = if ltb share 2 then 2 else share in
    let jitter = to_int32 ((base + rand % (2 * range + 1) + 2 ^ 32 - range) % 2 ^ 32) in
    if ltb_ℤ jitter (pos 5) then 5 else if ltb_ℤ (pos 250) jitter then 250 else pos_part jitter

abbrev jitter_percent : PluginFeatures → ℕ
jitter_percent f =
    if ltb_ℤ (pos 0) f.ping_jitter_percent then pos_part f.ping_jitter_percent else 30

abbrev publish_jitter : (ℕ → ℕ) → ℕ → BotIdentity → World → World
publish_jitter rands n b w = record w {
  shm_view =
      publish_ping w.shm_view (pos n)
        (pos (jittered_ping (pos_part b.ping) (jitter_percent w.features) (rands n)));
}

jitter_one : (ℕ → ℕ) → ℕ → World → World
jitter_one rands n w =
    if not (is_managed w.roster.manager (pos n)) then w else elim (get_identity w.roster (pos n)) [
      | none ↦ w
      | some b ↦ if ltb_ℤ (pos 0) b.ping then publish_jitter rands n b w else w
    ]

pub jitter_pings : (ℕ → ℕ) → ℕ → World → World
unfolding jitter_one
jitter_pings rands now w =
    let started = if w.last_jitter_time == 0 then record w { last_jitter_time = now } else w in
    if ltb (now - started.last_jitter_time) jitter_period
    then started
    else for_slots max_slots 0 (jitter_one rands) (record started { last_jitter_time = now })

module _ (outside : Outside) where
  abbrev pub to_spectator : ℤ → World → World
  to_spectator slot w = record w {
    engine = (move_managed_bot_to_spectator outside w.roster.manager w.engine slot).0;
  }

  -- The part of the hook behind its guards.
  pub disconnect_managed : World → ℤ → Bool → World
  disconnect_managed w slot kick_removal =
      let dropped = reset_vote_transaction_slot w slot in
      let moved = if kick_removal then to_spectator slot dropped else dropped in
      let client = resolve_client_by_slot moved.engine slot in
      let restored = restore_identity moved slot in
      let queued =
        if kick_removal
        then (queue_controller_removal_for_client restored client slot).0
        else restored in
      record queued { roster = unmark queued.roster slot }

  -- `Hook_ClientDisconnect_Pre`.
  pub on_client_disconnect : World → ℤ → ℕ → World
  on_client_disconnect w slot reason =
      if not w.plugin_active || w.map_suspended || not (is_managed w.roster.manager slot)
      then w
      else disconnect_managed w slot (is_targeted_client_removal_reason reason)

  abbrev deepen_population : World → World
  deepen_population w = record w {
    population_command_depth = (w.population_command_depth + 1) % 2 ^ 32;
  }

  abbrev may_open_window : World → Bool
  may_open_window w = not (vote_transaction_active w) || not (w.population_command_depth == 0)

  abbrev begin_kick : World → World
  begin_kick w = if may_open_window w then deepen_population (begin_vote_transaction w) else w

  pub kick_named : World → ℤ → World
  kick_named w slot =
      let moved = to_spectator slot w in
      let opened =
        if may_open_window moved
        then deepen_population (begin_vote_transaction_for_slot moved slot)
        else moved in
      record opened {
        engine = kick_managed_bot_by_user_id opened.roster.manager opened.engine slot;
      }

  pub move_all_to_spectator : World → World
  move_all_to_spectator w = for_slots max_slots 0 (λ n. to_spectator (pos n)) w

  pub dispatch_kick : World → Command → World
  dispatch_kick w c =
      let (slot, target) = named_bot_kick w.roster c in
      let is_bot_kick = bytes_eq c.name (codes "bot_kick") in
      elim slot [
        | some n ↦ kick_named w (pos n)
        | none ↦
            if is_bot_kick && not (is_empty target) && not (is_bot_kick_group_target target)
            then w
            else if is_bot_kick && (is_empty target || bytes_eq target (codes "all"))
            then begin_kick (move_all_to_spectator w)
            else begin_kick w
      ]

  -- `Hook_DispatchConCommand_Pre`; the command is valid. `draws` are for the disguises that the end
  -- of a window puts on.
  pub dispatch_con_command_pre : (ℕ → Draws) → World → Command → World
  dispatch_con_command_pre draws w c =
      if not w.plugin_active || w.map_suspended
      then w
      else if bytes_eq c.name (codes "callvote")
      then begin_vote_transaction w
      else if is_kick_command c.name
      then dispatch_kick w c
      else if is_bot_add_command c.name && vote_transaction_active w
      then force_end_vote_transaction draws w
      else w

  abbrev schedule_end : World → World
  schedule_end w = schedule_vote_transaction_end w w.features.vote_transaction_hold_frames

  abbrev leave_kick : World → World
  leave_kick w =
      if w.population_command_depth == 0
      then w
      else let left = record w { population_command_depth = w.population_command_depth - 1 } in
        if left.population_command_depth == 0 then schedule_end left else left

  pub apply_pending_disguises : (ℕ → Draws) → World → World
  apply_pending_disguises draws w =
      if w.map_suspended then w else for_slots max_slots 0 (disguise_pending draws) w

  -- What is done after every kick and every `bot_add`.
  pub settle_population : World → World
  settle_population w =
      reap_orphan_controllers outside
        (drain_pending_controller_removals outside (drain_pending_controller_removals outside w))

  -- `Hook_DispatchConCommand_Post`, with the map's name and addon as the engine gives them.
  pub dispatch_con_command_post : Bytes → Bytes → (ℕ → Draws) → World → Command → World
  dispatch_con_command_post map_name addon draws w c =
      if is_map_change_command c.name
      then poll_map_gate map_name addon
          (elim c.arguments [ [] ↦ w | first ∷ others ↦ hint_map_gate w first ])
      else if w.map_suspended
      then w
      else if bytes_eq c.name (codes "callvote")
      then (if vote_transaction_active w then schedule_end w else w)
      else if is_kick_command c.name
      then settle_population (leave_kick w)
      else if is_bot_add_command c.name
      then settle_population (apply_pending_disguises draws w)
      else w

  -- `Hook_GameFrame_Post`; `now` is the steady clock, and `rands` the draws for the pings.
  pub game_frame : Bytes → Bytes → (ℕ → Draws) → (ℕ → ℕ) → ℕ → World → World
  game_frame map_name addon draws rands now w =
      if not w.plugin_active
      then w
      else let gated = poll_map_gate map_name addon w in
        if gated.map_suspended
        then gated
        else let drained =
            drain_pending_controller_removals outside (tick_vote_transaction draws gated) in
          if drained.features.enable_fake_ping then jitter_pings rands now drained else drained
