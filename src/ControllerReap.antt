-- ===== src/ControllerReap.antt =====
-- src/controller_reap.cpp: taking a kicked bot's controller away, and the client slots it leaves
-- behind. Console output and the three dump routines are left out.
pub mod Shrink
pub mod Queue
use cs2_bot_identity.Base.{
  ℕ, zero, suc, ◌+◌, ◌-◌, ◌%◌, ◌^◌, ◌==◌, ℤ, pos, negsuc, Bool, true, false, not, ◌&&◌, ◌||◌,
  Option, none, some, List, [], ◌∷◌, ◌++◌, if◌then◌else◌, ltb, leb, ltb_ℤ, bytes_eq, is_empty,
  for_slots,
}
use cs2_bot_identity.BotInfo.{max_slots}
use cs2_bot_identity.IdentityManager.{IdentityManager, is_managed}
use cs2_bot_identity.SscOps.{
  read_net_channel, read_user_id, write_user_id, read_signon_state, read_steam_id, get_entity_index,
  read_controller_team, write_controller_team,
}
use cs2_bot_identity.EntityAccess.{
  Engine, EngineCall, change_team_called, util_remove_called, call, resolve_client_by_slot,
  client_list_count, shrink_client_list_to, resolve_entity_instance, resolve_player_controller,
  player_controller, is_entity_being_deleted, mark_entity_field_changed, mark_entity_state_changed,
  change_team_vtable_index,
}
use cs2_bot_identity.World.{World, PendingControllerRemoval}
use cs2_bot_identity.Disguise.{on_object}

-- The engine's own code: what `ChangeTeam` and `UTIL_Remove` do, whether an object has a
-- `ChangeTeam` at the index of the table, and the entry index of a handle.
pub record Outside : Type 0 where
  pub change_team : ℕ → ℕ → Engine → Engine
  pub has_change_team : ℕ → Bool
  pub util_remove : ℕ → Engine → Engine
  pub entry_index : ℕ → ℤ

abbrev pub leftover_user_id : ℕ
leftover_user_id = 65535

abbrev spectator_team : ℕ
spectator_team = 1

abbrev on_team : ℕ → Bool
on_team team = (team == 2) || (team == 3)

abbrev is_zero_ℤ : ℤ → Bool
is_zero_ℤ (pos n) = n == 0
is_zero_ℤ (negsuc n) = false

-- `ClientLooksLeftoverOrEmpty`, and `IsTrailingLeftoverSlot`, which is the same test.
pub client_looks_leftover_or_empty : IdentityManager → Engine → ℤ → Bool
client_looks_leftover_or_empty m e slot =
    let client = resolve_client_by_slot e slot in
    let bytes = e.heap client in
    (client == 0)
    || (not (is_managed m slot)
        && (read_net_channel e.offsets bytes == 0)
        && (read_user_id e.offsets bytes == leftover_user_id)
        && is_zero_ℤ (read_signon_state e.offsets bytes)
        && (read_steam_id e.offsets bytes == 0))

-- `while (keep > 0 && IsTrailingLeftoverSlot(keep - 1)) --keep;`, for a test of a slot.
pub trim : (ℕ → Bool) → ℕ → ℕ
trim leftover zero = zero
trim leftover (suc keep) = elim (leftover keep) [ true ↦ trim leftover keep | false ↦ suc keep ]

pub shrink_trailing_leftover_clients : IdentityManager → Engine → Engine
shrink_trailing_leftover_clients m e =
    let count = client_list_count e in
    let keep = trim (λ n. client_looks_leftover_or_empty m e (pos n)) count in
    if keep == count then e else (shrink_client_list_to e (pos keep)).0

module _ (outside : Outside) where
  -- The new engine, and whether `ChangeTeam` was called.
  pub call_controller_change_team : Engine → ℕ → ℕ → Engine × Bool
  call_controller_change_team e controller team =
      if (controller == 0)
        || ltb_ℤ (change_team_vtable_index e.offsets) (pos 0)
        || not (outside.has_change_team controller)
      then (e, false)
      else (call (change_team_called controller team) (outside.change_team controller team e), true)

  pub remove_entity : Engine → ℕ → Engine
  remove_entity e p =
      if not e.util_remove_target || (p == 0)
      then e
      else call (util_remove_called p) (outside.util_remove p e)

  abbrev write_team : ℕ → Engine → Engine
  write_team controller e = mark_entity_state_changed controller (
      mark_entity_field_changed controller e.offsets.controller_team_num
        (on_object (λ m. write_controller_team e.offsets m 0) controller e))

  pub detach_controller_from_team : Engine → ℕ → Engine
  detach_controller_from_team e controller =
      if not (on_team (read_controller_team e.offsets (e.heap controller)))
      then e
      else if is_entity_being_deleted e controller
      then write_team controller e
      else let (called, ok) = call_controller_change_team e controller spectator_team in
        if ok then called else write_team controller e

  -- The new engine, and whether `ChangeTeam` was called.
  pub move_managed_bot_to_spectator : IdentityManager → Engine → ℤ → Engine × Bool
  move_managed_bot_to_spectator m e slot =
      let client = resolve_client_by_slot e slot in
      if not (is_managed m slot)
        || ltb_ℤ (change_team_vtable_index e.offsets) (pos 0)
        || (client == 0)
      then (e, false)
      else elim (resolve_player_controller e (get_entity_index e.offsets (e.heap client))) [
        | none ↦ (e, false)
        | some controller ↦
            if is_entity_being_deleted e controller
              || not (on_team (read_controller_team e.offsets (e.heap controller)))
            then (e, false)
            else call_controller_change_team e controller spectator_team
      ]

  -- `IsControllerReferencedByClient` from a slot on: the user id of the first client that has the
  -- controller.
  pub referenced_from : Engine → ℕ → ℕ → ℕ → Option ℕ
  referenced_from e controller zero slot = none
  referenced_from e controller (suc rounds) slot =
      let rest = referenced_from e controller rounds (suc slot) in
      let client = resolve_client_by_slot e (pos slot) in
      if client == 0
      then rest
      else elim (resolve_player_controller e (get_entity_index e.offsets (e.heap client))) [
        | none ↦ rest
        | some current ↦
            if current == controller then some (read_user_id e.offsets (e.heap client)) else rest
      ]

  abbrev detach_and_remove :
      Engine → PendingControllerRemoval → Engine × Option PendingControllerRemoval
  detach_and_remove e item =
      (remove_entity (detach_controller_from_team e item.controller) item.controller, none)

  -- The part of a round for an item whose controller is the live one.
  pub drain_live : Engine → PendingControllerRemoval → Engine × Option PendingControllerRemoval
  drain_live e item = elim (referenced_from e item.controller max_slots 0) [
    | none ↦ detach_and_remove e item
    | some user_id ↦
        if user_id == leftover_user_id
        then detach_and_remove e item
        else if not (user_id == item.user_id)
        then (e, none)
        else if item.referenced_frames == 0
        then (e, some (record item { referenced_frames = item.referenced_frames + 1 }))
        else detach_and_remove e item
  ]

  -- The item's controller is what its handle stands for, and is not a reused one.
  pub is_live_item : Engine → PendingControllerRemoval → Bool
  is_live_item e item = elim (resolve_player_controller e (outside.entry_index item.handle)) [
    | none ↦ false
    | some current ↦
        (current == item.controller)
        && elim (e.deleting current) [ none ↦ false | some flagged ↦ true ]
        && (e.ref_handle current % 2 ^ 32 == item.handle)
  ]

  -- One round of the loop of `DrainPendingControllerRemovals`: the item, if it stays.
  pub drain_item : Engine → PendingControllerRemoval → Engine × Option PendingControllerRemoval
  drain_item e item = if is_live_item e item then drain_live e item else (e, none)

  abbrev keep_item :
      Option PendingControllerRemoval
      → List PendingControllerRemoval
      → List PendingControllerRemoval
  keep_item none rest = rest
  keep_item (some item) rest = item ∷ rest

  pub drain_items : Engine → List PendingControllerRemoval → Engine × List PendingControllerRemoval
  drain_items e [] = (e, [])
  drain_items e (item ∷ items) =
      let (drained, stays) = drain_item e item in
      let (done, rest) = drain_items drained items in (done, keep_item stays rest)

  unfoldable pub drain_pending_controller_removals : World → World
  drain_pending_controller_removals w =
      if not w.engine.server_alive
      then record w { pending = [] }
      else if not w.engine.util_remove_target
      then record w {
        pending = [];
        engine = shrink_trailing_leftover_clients w.roster.manager w.engine;
      }
      else let (drained, left) = drain_items w.engine w.pending in
        record w {
          pending = left;
          engine = shrink_trailing_leftover_clients w.roster.manager drained;
        }

  -- One round of `ReapOrphanControllers`, for the controller of a slot.
  reap_one : IdentityManager → ℕ → Engine → Engine
  reap_one m slot e = elim (resolve_player_controller e (pos (slot + 1))) [
    | none ↦ e
    | some controller ↦
        if not (client_looks_leftover_or_empty m e (pos slot))
          || not (on_team (read_controller_team e.offsets (e.heap controller)))
        then e
        else let detached = detach_controller_from_team e controller in
          if is_entity_being_deleted detached controller
          then detached
          else remove_entity detached controller
  ]

  unfoldable pub reap_orphan_controllers : World → World
  unfolding reap_one
  reap_orphan_controllers w =
      if not w.engine.server_alive || not w.engine.util_remove_target
      then w
      else record w { engine = for_slots max_slots 0 (reap_one w.roster.manager) w.engine }

pub holds_handle : ℕ → List PendingControllerRemoval → Bool
holds_handle handle [] = false
holds_handle handle (item ∷ items) = (item.handle == handle) || holds_handle handle items

-- `QueueControllerRemovalForClient`; `client` may be null.
unfoldable pub queue_controller_removal_for_client : World → ℕ → ℤ → World × Bool
queue_controller_removal_for_client w client slot =
    let e = w.engine in
    if (client == 0) || not e.util_remove_target
    then (w, false)
    else elim (resolve_player_controller e (get_entity_index e.offsets (e.heap client))) [
      | none ↦ (w, false)
      | some controller ↦
          let handle = e.ref_handle controller % 2 ^ 32 in
          if is_entity_being_deleted e controller
          then (w, false)
          else if holds_handle handle w.pending
          then (w, true)
          else (
            record w {
              pending =
                  w.pending
                  ++ record {
                    controller = controller;
                    handle = handle;
                    slot = slot;
                    user_id = read_user_id e.offsets (e.heap client);
                    referenced_frames = 0;
                  }
                    ∷ [];
            },
            true,
          )
    ]

unfoldable pub clear_pending_controller_removals : World → World
clear_pending_controller_removals w = record w { pending = [] }

-- One round of `NeutralizeCollidingLeftoverUserIds`.
neutralize_one : IdentityManager → ℕ → ℕ → ℕ → Engine → Engine
neutralize_one m keep_slot user_id slot e =
    let client = resolve_client_by_slot e (pos slot) in
    let bytes = e.heap client in
    if (slot == keep_slot)
      || (client == 0)
      || is_managed m (pos slot)
      || not (read_net_channel e.offsets bytes == 0)
      || not (read_steam_id e.offsets bytes == 0)
      || not (read_user_id e.offsets bytes == user_id)
    then e
    else on_object (λ b. write_user_id e.offsets b leftover_user_id) client e

pub neutralize_colliding_leftover_user_ids : IdentityManager → Engine → ℤ → ℕ → Engine
unfolding neutralize_one
neutralize_colliding_leftover_user_ids m e (negsuc n) user_id = e
neutralize_colliding_leftover_user_ids m e (pos n) user_id =
    if leb max_slots n || (user_id == leftover_user_id)
    then e
    else for_slots max_slots 0 (neutralize_one m n user_id) e
