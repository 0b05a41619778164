-- ===== src/VoteMarkers.antt =====
-- src/vote_transaction.cpp, `ApplyNativeVoteMarkers` and the writes of `RestorePlayerIdentity`: how
-- the objects of one bot change when a vote window opens and when it closes.
pub mod Client
pub mod Controller
pub mod RoundTrip
use cs2_bot_identity.Base.{ℕ, Option, none, some, List, Bool}
use mathlib.Core.Option
use cs2_bot_identity.Memory.{Memory}
use cs2_bot_identity.SscOps.{
  Offsets, set_fake_player, clear_fake_player, write_steam_id, set_controller_fake_client_flag,
  clear_controller_fake_client_flag,
}
use cs2_bot_identity.VoteScan.{
  SteamIdCopy, Objects, scan_and_zero_steam_id_copies, restore_steam_id_copies,
}

-- The objects with Valve's markers, and the copies that were zeroed.
unfoldable pub apply_native_vote_markers :
    Offsets → ℕ → List SteamIdCopy → Objects → Objects × List SteamIdCopy
apply_native_vote_markers o ssc_steam_id copies objects =
    let marked : Objects = record {
      client = set_fake_player o objects.client;
      controller = Option.map (set_controller_fake_client_flag o) objects.controller;
    } in
    let (zeroed, copies') = scan_and_zero_steam_id_copies ssc_steam_id marked copies in
    (record zeroed { client = write_steam_id o zeroed.client 0 }, copies')

unfoldable pub restore_objects : Offsets → ℕ → List SteamIdCopy → Objects → Objects
restore_objects o ssc_steam_id copies objects = restore_steam_id_copies copies (record {
  client = write_steam_id o (clear_fake_player o objects.client) ssc_steam_id;
  controller = Option.map (clear_controller_fake_client_flag o) objects.controller;
})
