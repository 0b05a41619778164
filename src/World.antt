-- ===== src/World.antt =====
-- The state of the plugin: the file-level variables of src/bot_info.cpp, src/vote_transaction.cpp,
-- src/controller_reap.cpp, src/shm_pub.cpp and src/plugin.cpp, and the engine that they act on.
use cs2_bot_identity.Base.{
  ℕ, ◌==◌, ℤ, minus_one, Bool, false, not, Option, List, [], Bytes, replicate, modify,
}
use cs2_bot_identity.BotInfo.{BotIdentity, PluginFeatures}
use cs2_bot_identity.IdentityManager.{Roster}
use cs2_bot_identity.Memory.{Memory}
use cs2_bot_identity.EntityAccess.{Engine}
use cs2_bot_identity.VoteScan.{SteamIdCopy}

pub record VoteSlotSnapshot : Type 0 where
  pub captured : Bool
  pub slot : ℤ
  pub client : ℕ
  pub entity_index : ℤ
  pub connection_flags : ℕ
  pub fake_player : ℕ
  pub ssc_steam_id : ℕ
  pub has_controller : Bool
  pub controller : ℕ
  pub controller_flags : ℕ
  pub controller_handle : ℕ
  pub controller_off1800 : ℕ
  pub copies : List SteamIdCopy
  pub hold_probed : Bool

abbrev pub empty_snapshot : VoteSlotSnapshot
empty_snapshot = record {
  captured = false;
  slot = minus_one;
  client = 0;
  entity_index = minus_one;
  connection_flags = 0;
  fake_player = 0;
  ssc_steam_id = 0;
  has_controller = false;
  controller = 0;
  controller_flags = 0;
  controller_handle = 0;
  controller_off1800 = 0;
  copies = [];
  hold_probed = false;
}

-- `g_VoteDepth` to `g_HoldFramesRemaining`; the hold is never negative.
pub record VoteState : Type 0 where
  pub depth : ℕ
  pub snapshots : List VoteSlotSnapshot
  pub snapshot_valid : Bool
  pub end_scheduled : Bool
  pub hold_frames_remaining : ℕ

abbrev pub max_vote_slots : ℕ
max_vote_slots = 64

abbrev pub no_snapshots : List VoteSlotSnapshot
no_snapshots = replicate max_vote_slots empty_snapshot

abbrev pub initial_vote : VoteState
initial_vote = record {
  depth = 0;
  snapshots = no_snapshots;
  snapshot_valid = false;
  end_scheduled = false;
  hold_frames_remaining = 0;
}

pub record PendingControllerRemoval : Type 0 where
  pub controller : ℕ
  pub handle : ℕ
  pub slot : ℤ
  pub user_id : ℕ
  pub referenced_frames : ℕ

-- `last_jitter_time` is in nanoseconds of the steady clock.
pub record World : Type 0 where
  pub roster : Roster
  pub features : PluginFeatures
  pub map_blacklist : List Bytes
  pub engine : Engine
  pub shm_view : Option Memory
  pub vote : VoteState
  pub pending : List PendingControllerRemoval
  pub plugin_active : Bool
  pub map_suspended : Bool
  pub gate_map : Bytes
  pub population_command_depth : ℕ
  pub last_jitter_time : ℕ

abbrev pub vote_transaction_active : World → Bool
vote_transaction_active w = not (w.vote.depth == 0)

-- A write through the `BotIdentity*` of entry `i`.
abbrev pub write_identity : (BotIdentity → BotIdentity) → ℕ → World → World
write_identity f i w = record w { roster = record w.roster { bots = modify f w.roster.bots i } }

-- The numbers that `rand()` returns while one slot is served.
pub record Draws : Type 0 where
  pub pick : ℕ
  pub ping : ℕ
  pub flair : ℕ
