-- ===== src/Examples/OneBot.antt =====
-- The client at 100 and its controller at 200 through the two halves of a vote window, with a copy of
-- the SteamID64 in the controller.
use cs2_bot_identity.Base.{
  ℕ, ◌≤◌, ◌≡◌, ◌∙◌, inr, refl, sym, some, List, [], pos, true, bytes_eq, arith, ◌==◌, if◌then◌else◌,
  set,
}
use cs2_bot_identity.IdentityManager.{initial, is_managed}
use cs2_bot_identity.Memory.{Memory, IsBytes, read_le, write_le, store}
use cs2_bot_identity.Memory.Laws.{write_le-outside, write_le-IsBytes}
use cs2_bot_identity.SscOps.{
  linux_offsets, set_controller_fake_client_flag, read_steam_id, set_fake_player, clear_fake_player,
  write_steam_id, read_controller_flags, get_entity_index,
}
use cs2_bot_identity.EntityAccess.{
  Engine, resolve_client_by_slot, resolve_player_controller, resolve_entity_instance,
}
use cs2_bot_identity.World.{World}
use cs2_bot_identity.VoteScan.{
  SteamIdCopy, scan_and_zero_steam_id_copies, scan_region, note_copy, copy_overlaps,
}
use cs2_bot_identity.VoteScan.Skip.{scan_loop-skip, scan_loop-rest, scan_loop-hit}
use cs2_bot_identity.VoteMarkers.Controller.{IsPlayerController}
use cs2_bot_identity.VoteMarkers.RoundTrip.{MissesMarkers}
use cs2_bot_identity.VoteMarkers.{apply_native_vote_markers}
use cs2_bot_identity.VoteTransaction.OneBot.{live_controller}
use cs2_bot_identity.VoteTransaction.{
  capture_one_managed_slot, restore_one, take_snapshot, resolve_controller, mark_native,
  snapshot_controller_live, capture_client,
}
use cs2_bot_identity.VoteTransaction.Closed.{
  SameObjects, kept_snapshot, opened_world, restore_one-capture_one, bot_client, bot_controller,
}
use cs2_bot_identity.Examples.Data.{engine, world, roster}
use cs2_bot_identity.Examples.Vote.{
  client, client-IsDisguised, linux-IsLaidOut, marked, twice, found, first_byte, scan_client,
}

abbrev controller : Memory
controller i = if i == 1800 then 2 else 0

controller-IsPlayer : IsPlayerController linux_offsets controller
unfolding read_controller_flags read_le
controller-IsPlayer = record { bytes = λ i. ground arith; no_fake_bit = refl }

abbrev marked_controller : Memory
marked_controller = set_controller_fake_client_flag linux_offsets controller

marked_controller-IsBytes : IsBytes marked_controller
unfolding set_controller_fake_client_flag read_controller_flags read_le write_le store
marked_controller-IsBytes i = ground arith

hit_at : (i : ℕ) → marked_controller i ≡ 2 → i ≡ 1800
unfolding set_controller_fake_client_flag read_controller_flags read_le write_le store
hit_at i h = ground arith

hits : read_le 8 marked_controller 1800 ≡ 2
unfolding set_controller_fake_client_flag read_controller_flags read_le write_le store
hits = refl

abbrev cleared : Memory
cleared = write_le 8 marked_controller 1800 0

abbrev found_all : List SteamIdCopy
found_all = note_copy found 1800 2 true

rest : (j : ℕ) → 1808 ≤ j → read_le 8 cleared j ≡ 2 → ⊥
rest j from h =
    let bytes = write_le-IsBytes 8 marked_controller 1800 0 marked_controller-IsBytes in
    let same : cleared j ≡ marked_controller j =
      write_le-outside 8 marked_controller 1800 0 j (inr (omega arith)) in
    ground (arith, hit_at j (sym same ∙ first_byte cleared j bytes h))

scan_marked : scan_region 4096 true 2 marked_controller found ≡ (cleared, found_all)
unfolding scan_region
scan_marked =
    scan_loop-skip 4096 true 2 marked_controller found 1800 4096 2296 0 (omega arith) (omega arith)
      (λ j from to h.
        ground (arith, hit_at j (first_byte marked_controller j marked_controller-IsBytes h)))
    ∙ scan_loop-hit 4096 true 2 marked_controller found 2295 1800 (omega arith) hits
    ∙ scan_loop-rest 4096 true 2 cleared found_all 2295 1808 rest

scanned :
    scan_and_zero_steam_id_copies 2
      (record { client = marked; controller = some marked_controller })
      []
    ≡ (record { client = twice; controller = some cleared }, found_all)
unfolding scan_and_zero_steam_id_copies
scanned = rw (scan_client, scan_marked) refl

abbrev seated : Engine
seated = record engine {
  heap = λ p. if p == 100 then client else if p == 200 then controller else λ i. 0;
}

abbrev managed : World
managed = record world {
  engine = seated;
  roster = record roster { manager = record initial { slots = set initial.slots 0 (pos 0) } };
}

taken_client : bot_client managed 0 ≡ 100
unfolding resolve_client_by_slot
taken_client = refl

taken_controller : bot_controller managed 0 ≡ some 200
unfolding resolve_client_by_slot take_snapshot resolve_controller resolve_player_controller
    resolve_entity_instance get_entity_index read_le bytes_eq
taken_controller = refl

copies_are : (kept_snapshot managed 0).copies ≡ found_all
unfolding capture_one_managed_slot capture_client mark_native take_snapshot
    apply_native_vote_markers resolve_client_by_slot resolve_controller resolve_player_controller
    resolve_entity_instance get_entity_index read_steam_id read_le bytes_eq is_managed
copies_are = rw scanned refl

misses : MissesMarkers linux_offsets found_all
unfolding note_copy copy_overlaps
misses = record {
  room = omega arith;
  flags = refl;
  fake = refl;
  controller_flags = λ i from to. ground arith;
}

live : live_controller (opened_world managed 0).engine (kept_snapshot managed 0) ≡ some 200
unfolding capture_one_managed_slot capture_client mark_native take_snapshot
    apply_native_vote_markers resolve_client_by_slot resolve_controller resolve_player_controller
    resolve_entity_instance get_entity_index read_steam_id read_le bytes_eq is_managed
    snapshot_controller_live set_fake_player clear_fake_player write_steam_id write_le store
live = rw scanned refl

restore_one-capture_one_example :
    SameObjects
      (restore_one 0 (capture_one_managed_slot managed (pos 0)).0).engine
      seated
      (bot_client managed 0)
      (bot_controller managed 0)
unfolding resolve_client_by_slot is_managed
restore_one-capture_one_example =
    restore_one-capture_one managed 0 (omega arith) (omega arith) refl (λ e. cc) linux-IsLaidOut
      client-IsDisguised (rw taken_controller controller-IsPlayer)
      (rw taken_controller (λ e. omega arith)) (rw copies_are misses) (live ∙ sym taken_controller)
