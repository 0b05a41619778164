-- ===== src/VoteTransaction.antt =====
-- src/vote_transaction.cpp: the window in which the managed bots carry Valve's native markers.
-- Console output is left out.
pub mod Closed
pub mod OneBot
use cs2_bot_identity.Base.{
  ℕ, ◌%◌, ◌^◌, ◌==◌, ℤ, pos, negsuc, Bool, true, false, not, ◌&&◌, ◌||◌, Option, none, some,
  if◌then◌else◌, leb, get_elem?, get_or, set, for_slots,
}
use cs2_bot_identity.BotInfo.{BotIdentity, max_slots}
use cs2_bot_identity.IdentityManager.{is_managed, lookup}
use cs2_bot_identity.Memory.{Memory}
use cs2_bot_identity.SscOps.{
  get_entity_index, read_steam_id, read_controller_flags, read_controller_steam_id,
  clear_fake_player, write_steam_id, clear_controller_fake_client_flag,
}
use cs2_bot_identity.EntityAccess.{
  Engine, put_object, resolve_client_by_slot, resolve_player_controller, mark_entity_state_changed,
}
use cs2_bot_identity.VoteScan.{Objects, restore_steam_id_copies}
use cs2_bot_identity.VoteMarkers.{apply_native_vote_markers}
use cs2_bot_identity.World.{
  World, VoteSlotSnapshot, empty_snapshot, no_snapshots, max_vote_slots, Draws,
}
use cs2_bot_identity.Disguise.{apply_disguise, on_object}

-- `ResolveController`: the controller and its handle.
unfoldable pub resolve_controller : Engine → ℤ → Option (ℕ × ℕ)
resolve_controller e index = elim (resolve_player_controller e index) [
  | none ↦ none
  | some controller ↦ some (controller, e.ref_handle controller % 2 ^ 32)
]

abbrev same_controller : VoteSlotSnapshot → Option (ℕ × ℕ) → Option ℕ
same_controller s none = none
same_controller s (some (controller, handle)) =
    if controller == s.controller && handle == s.controller_handle then some controller else none

-- `SnapshotControllerLive`: the controller, if it is still the one of the snapshot.
unfoldable pub snapshot_controller_live : Engine → VoteSlotSnapshot → ℕ → Option ℕ
snapshot_controller_live e s client =
    if not s.has_controller || client == 0
    then none
    else same_controller s (resolve_controller e (get_entity_index e.offsets (e.heap client)))

-- The bytes of the two objects of a bot, read and written back.
abbrev objects_of : Engine → ℕ → Option ℕ → Objects
objects_of e client none = record { client = e.heap client; controller = none }
objects_of e client (some c) = record { client = e.heap client; controller = some (e.heap c) }

abbrev put_controller : Option ℕ → Option Memory → Engine → Engine
put_controller (some c) (some m) e = put_object e c m
put_controller _ _ e = e

abbrev put_objects : Engine → ℕ → Option ℕ → Objects → Engine
put_objects e client controller objects =
    put_controller controller objects.controller (put_object e client objects.client)

-- `ApplyNativeVoteMarkers` on the engine and on the table of a snapshot.
unfoldable pub mark_native : Engine → VoteSlotSnapshot → ℕ → Option ℕ → Engine × VoteSlotSnapshot
mark_native e s client controller =
    let (objects, copies) =
      apply_native_vote_markers e.offsets s.ssc_steam_id s.copies
        (objects_of e client controller) in
    (put_objects e client controller objects, record s { copies = copies })

abbrev pub set_snapshot : ℕ → VoteSlotSnapshot → World → World
set_snapshot n s w = record w { vote = record w.vote { snapshots = set w.vote.snapshots n s } }

-- The snapshot of a client before its markers are written.
unfoldable pub take_snapshot : Engine → ℤ → ℕ → VoteSlotSnapshot
take_snapshot e slot client =
    let m = e.heap client in
    let index = get_entity_index e.offsets m in
    let plain = record empty_snapshot {
      captured = true;
      slot = slot;
      client = client;
      entity_index = index;
      connection_flags = m e.offsets.connection_type_flags;
      fake_player = m e.offsets.fake_player;
      ssc_steam_id = read_steam_id e.offsets m;
    } in
    elim (resolve_controller e index) [
      | none ↦ plain
      | some (controller, handle) ↦ record plain {
        has_controller = true;
        controller = controller;
        controller_handle = handle;
        controller_flags = read_controller_flags e.offsets (e.heap controller);
        controller_off1800 = read_controller_steam_id e.offsets (e.heap controller);
      }
    ]

abbrev snapshot_controller : VoteSlotSnapshot → Option ℕ
snapshot_controller s = if s.has_controller then some s.controller else none

unfoldable pub capture_client : World → ℕ → ℕ → World
capture_client w n client =
    let s = take_snapshot w.engine (pos n) client in
    let (engine', s') = mark_native w.engine s client (snapshot_controller s) in
    record (set_snapshot n s' w) { engine = engine' }

-- The new world, and whether the slot was captured.
unfoldable pub capture_one_managed_slot : World → ℤ → World × Bool
unfolding capture_client
capture_one_managed_slot w (negsuc n) = (w, false)
capture_one_managed_slot w (pos n) =
    if leb max_vote_slots n || leb max_slots n
    then (w, false)
    else let cleared = set_snapshot n empty_snapshot w in
      let client = resolve_client_by_slot w.engine (pos n) in
      if not (is_managed w.roster.manager (pos n)) || client == 0
      then (cleared, false)
      else (capture_client cleared n client, true)

abbrev pub clear_vote_snapshots : World → World
clear_vote_snapshots w = record w { vote = record w.vote { snapshots = no_snapshots } }

abbrev pub set_snapshot_valid : Bool → World → World
set_snapshot_valid b w = record w { vote = record w.vote { snapshot_valid = b } }

unfoldable pub capture_if_managed : ℕ → World → World
capture_if_managed n w =
    if is_managed w.roster.manager (pos n) then (capture_one_managed_slot w (pos n)).0 else w

unfoldable pub capture_and_restore_native_bot_identity : World → World
unfolding capture_if_managed
capture_and_restore_native_bot_identity w =
    set_snapshot_valid true (for_slots max_slots 0 capture_if_managed (clear_vote_snapshots w))

-- One round of `ReassertNativeVoteMarkers`, over the snapshot at `n`.
unfoldable pub reassert_client : World → ℕ → VoteSlotSnapshot → ℕ → World
reassert_client w n s client =
    let (engine', s') =
      mark_native w.engine s client (snapshot_controller_live w.engine s client) in
    record (set_snapshot n (record s' { hold_probed = true }) w) { engine = engine' }

unfoldable pub reassert_one : ℕ → World → World
unfolding reassert_client
reassert_one n w =
    let s = get_or w.vote.snapshots n empty_snapshot in
    let client = resolve_client_by_slot w.engine s.slot in
    if not s.captured || not (is_managed w.roster.manager s.slot) || not (client == s.client)
    then w
    else reassert_client w n s client

unfoldable pub reassert_native_vote_markers : World → World
unfolding reassert_one
reassert_native_vote_markers w =
    if w.vote.snapshot_valid then for_slots max_vote_slots 0 reassert_one w else w

-- `ApplyControllerBit(controller, false)`, where the controller is live.
abbrev clear_controller_bit : Option ℕ → Engine → Engine
clear_controller_bit none e = e
clear_controller_bit (some c) e =
    mark_entity_state_changed c (on_object (clear_controller_fake_client_flag e.offsets) c e)

unfoldable pub restore_client : Engine → VoteSlotSnapshot → Engine
restore_client e s =
    let player =
      on_object (λ m. write_steam_id e.offsets (clear_fake_player e.offsets m) s.ssc_steam_id)
        s.client e in
    let controller = snapshot_controller_live player s s.client in
    let cleared = clear_controller_bit controller player in
    put_objects cleared s.client controller
      (restore_steam_id_copies s.copies (objects_of cleared s.client controller))

-- One round of the first loop of `RestorePlayerIdentity`.
unfoldable pub restore_one : ℕ → World → World
unfolding restore_client
restore_one n w =
    let s = get_or w.vote.snapshots n empty_snapshot in
    let taken = set_snapshot n (record s { captured = false }) w in
    if not s.captured
    then w
    else if not (is_managed w.roster.manager s.slot)
        || not (resolve_client_by_slot w.engine s.slot == s.client)
    then taken
    else record taken { engine = restore_client w.engine s }

-- The entry that a slot wears, by its index.
abbrev pub worn_entry : World → ℤ → Option (ℕ × BotIdentity)
worn_entry w slot = elim (lookup w.roster.manager slot) [
  | negsuc k ↦ none
  | pos i ↦ elim (get_elem? w.roster.bots i) [ none ↦ none | some b ↦ some (i, b) ]
]

-- One round of its second loop, and of `ApplyPendingDisguises`.
unfoldable pub disguise_pending : (ℕ → Draws) → ℕ → World → World
disguise_pending draws n w =
    if not (is_managed w.roster.manager (pos n)) then w else elim (worn_entry w (pos n)) [
      | none ↦ w
      | some (i, b) ↦ if b.applied then w else apply_disguise w (pos n) i (draws n)
    ]

unfoldable pub restore_player_identity : (ℕ → Draws) → World → World
unfolding restore_one
restore_player_identity draws w =
    if w.vote.snapshot_valid
    then for_slots max_slots 0 (disguise_pending draws)
        (for_slots max_vote_slots 0 restore_one (set_snapshot_valid false w))
    else w
