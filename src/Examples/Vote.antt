-- ===== src/Examples/Vote.antt =====
-- A disguised client of src/vote_transaction.cpp through one vote window.
use cs2_bot_identity.Base.{
  ℕ, ◌≤◌, ◌≡◌, refl, arith, ◌==◌, if◌then◌else◌, List, [], ◌∷◌, none, false, ◌⊎◌, inl, inr,
}
use cs2_bot_identity.Memory.{Memory, IsBytes, read_le, write_le, store}
use cs2_bot_identity.Memory.Laws.{nth_byte, nth_byte-read_le, write_le-outside, write_le-IsBytes}
use mathlib.Core.Path.{◌∙◌, sym, ap}
use cs2_bot_identity.SscOps.{linux_offsets, read_steam_id, set_fake_player}
use cs2_bot_identity.VoteScan.{
  SteamIdCopy, scan_and_zero_steam_id_copies, scan_region, note_copy, copy_overlaps,
}
use cs2_bot_identity.VoteScan.{scan_loop}
use cs2_bot_identity.VoteScan.Fuel.{scan_region-fuel}
use cs2_bot_identity.VoteScan.Skip.{scan_loop-skip, scan_loop-rest, scan_loop-hit}
use cs2_bot_identity.VoteScan.Undo.{Undoes, UndoesController, scan_and_zero-Undoes}
use cs2_bot_identity.VoteMarkers.{apply_native_vote_markers, restore_objects}
use cs2_bot_identity.VoteMarkers.Client.{IsLaidOut, IsDisguised}
use cs2_bot_identity.VoteMarkers.RoundTrip.{
  MissesMarkers, SameBytes, restore_objects-apply_native_vote_markers,
}

-- The player bit is set, both fields of the SteamID64 hold 2, and the entity is 1.
abbrev pub client : Memory
client i =
    if i == 96 then 1 else if i == 171 then 2 else if i == 179 then 2 else if i == 76 then 1 else 0

abbrev controller : Memory
controller i = 0

pub linux-IsLaidOut : IsLaidOut linux_offsets
linux-IsLaidOut = record {
  flags_ne_fake = λ e. omega arith;
  flags_steam_id = inl (omega arith);
  flags_mirror = inl (omega arith);
}

pub client-IsDisguised : IsDisguised linux_offsets client
unfolding read_le
client-IsDisguised = record {
  bytes = λ i. ground arith;
  not_fake = refl;
  player_bit = refl;
  bot_bit = refl;
  mirrored = refl;
}

-- The client with the markers of a bot.
abbrev pub marked : Memory
marked = set_fake_player linux_offsets client

marked-IsBytes : IsBytes marked
unfolding set_fake_player store
marked-IsBytes i = ground arith

hit_at : (i : ℕ) → marked i ≡ 2 → (i ≡ 171) ⊎ (i ≡ 179)
unfolding set_fake_player store
hit_at i h = ground arith

pub first_byte : (m : Memory) (off : ℕ) → IsBytes m → read_le 8 m off ≡ 2 → m off ≡ 2
unfolding nth_byte
first_byte m off b h =
    sym (nth_byte-read_le 8 m off 0 off b (omega arith) (omega arith)) ∙ ap (nth_byte 0) h

hits : (read_le 8 marked 171 ≡ 2)
unfolding set_fake_player store read_le
hits = refl

abbrev pub once : Memory
once = write_le 8 marked 171 0

abbrev pub twice : Memory
twice = write_le 8 once 179 0

abbrev first : SteamIdCopy
first = record { offset = 171; value = 2; on_controller = false }

abbrev second : SteamIdCopy
second = record { offset = 179; value = 2; on_controller = false }

abbrev pub found : List SteamIdCopy
found = first ∷ second ∷ []

noted : note_copy (note_copy [] 171 2 false) 179 2 false ≡ found
unfolding note_copy copy_overlaps
noted = refl

hits_again : read_le 8 once 179 ≡ 2
unfolding set_fake_player store read_le write_le
hits_again = refl

rest : (j : ℕ) → 187 ≤ j → read_le 8 twice j ≡ 2 → ⊥
rest j from h =
    let bytes = write_le-IsBytes 8 once 179 0 (write_le-IsBytes 8 marked 171 0 marked-IsBytes) in
    let same : twice j ≡ marked j =
      write_le-outside 8 once 179 0 j (inr (omega arith))
      ∙ write_le-outside 8 marked 171 0 j (inr (omega arith)) in
    ground (arith, hit_at j (sym same ∙ first_byte twice j bytes h))

pub scan_client : scan_region 2048 false 2 marked [] ≡ (twice, found)
unfolding scan_region
scan_client =
    scan_loop-skip 2048 false 2 marked [] 171 2048 1877 0 (omega arith) (omega arith)
      (λ j from to h. ground (arith, hit_at j (first_byte marked j marked-IsBytes h)))
    ∙ scan_loop-hit 2048 false 2 marked [] 1876 171 (omega arith) hits
    ∙ scan_loop-hit 2048 false 2 once (note_copy [] 171 2 false) 1875 179 (omega arith) hits_again
    ∙ scan_loop-rest 2048 false 2 twice (note_copy (note_copy [] 171 2 false) 179 2 false) 1875 187
        rest
    ∙ ap (λ cs. (twice, cs)) noted

scanned :
    (scan_and_zero_steam_id_copies 2 (record { client = marked; controller = none }) []).1 ≡ found
unfolding scan_and_zero_steam_id_copies
scanned = ap (λ r. r.1) scan_client

opened :
    (apply_native_vote_markers linux_offsets 2 [] (record { client = client; controller = none })).1
    ≡ found
unfolding apply_native_vote_markers scan_and_zero_steam_id_copies
opened = ap (λ r. r.1) scan_client

steam_id_is : read_steam_id linux_offsets client ≡ 2
unfolding read_steam_id read_le
steam_id_is = refl

found-MissesMarkers : MissesMarkers linux_offsets found
found-MissesMarkers = record {
  room = omega arith;
  flags = refl;
  fake = refl;
  controller_flags = λ i from to. refl;
}

restore_objects-apply_native_vote_markers_example :
    ((i : ℕ)
      → (restore_objects linux_offsets
            (read_steam_id linux_offsets client)
            (apply_native_vote_markers linux_offsets
              (read_steam_id linux_offsets client)
              []
              (record { client = client; controller = none })).1
            (apply_native_vote_markers linux_offsets
              (read_steam_id linux_offsets client)
              []
              (record { client = client; controller = none })).0).client
          i
        ≡ client i)
    × SameBytes
        (restore_objects linux_offsets
          (read_steam_id linux_offsets client)
          (apply_native_vote_markers linux_offsets
            (read_steam_id linux_offsets client)
            []
            (record { client = client; controller = none })).1
          (apply_native_vote_markers linux_offsets
            (read_steam_id linux_offsets client)
            []
            (record { client = client; controller = none })).0).controller
        none
restore_objects-apply_native_vote_markers_example =
    restore_objects-apply_native_vote_markers linux_offsets client none linux-IsLaidOut
      client-IsDisguised tt (rw (steam_id_is, opened) found-MissesMarkers)

scan_and_zero-Undoes_example :
    let (after, copies) =
      scan_and_zero_steam_id_copies 2 (record { client = marked; controller = none }) [] in
    Undoes marked after.client false copies × UndoesController none after.controller copies
scan_and_zero-Undoes_example =
    scan_and_zero-Undoes 2 marked none marked-IsBytes tt (rw scanned (omega arith))

scan_region-fuel_example :
    scan_loop 3000 2048 false 2 0 marked [] ≡ scan_region 2048 false 2 marked []
scan_region-fuel_example = scan_region-fuel 2048 false 2 marked [] 3000 (omega arith)
