-- ===== src/Examples/Data.antt =====
-- A server with two identities and one connected client.
use cs2_bot_identity.Base.{
  ℕ, zero, suc, ◌==◌, ◌≡◌, refl, arith, pos, minus_one, is_nonneg, true, false, List, [], ◌∷◌, some,
  get_elem?, codes, if◌then◌else◌,
}
use cs2_bot_identity.BotInfo.{BotIdentity, PluginFeatures}
use cs2_bot_identity.IdentityManager.{Roster, initial}
use cs2_bot_identity.IdentityManager.Initial.{IsIdleList, initial-IsLinked, idle-IsUnique}
use cs2_bot_identity.SscOps.{linux_offsets}
use cs2_bot_identity.EntityAccess.{Engine, player_controller}
use cs2_bot_identity.World.{World, initial_vote, Draws}
use cs2_bot_identity.ControllerReap.{Outside}
use cs2_bot_identity.Plugin.Connect.{IsSound}

abbrev pub ann : BotIdentity
ann = record {
  slot = minus_one;
  steam_id = 7;
  name = codes "ann";
  ping = pos 40;
  crosshair = [];
  scoreboard_flair = 0;
  applied = false;
  reused = 0;
}

abbrev pub bob : BotIdentity
bob = record ann { steam_id = 8; name = codes "bob" }

abbrev pub bots : List BotIdentity
bots = ann ∷ bob ∷ []

pub bots-IsIdleList : IsIdleList bots
bots-IsIdleList = record { few = omega arith; free = free; plain = plain }
  where
    free : (i : ℕ) (b : BotIdentity) → get_elem? bots i ≡ some b → is_nonneg b.slot ≡ false
    free zero b at = let e : ann ≡ b = cc in rw⁻¹ e refl
    free (suc zero) b at = let e : bob ≡ b = cc in rw⁻¹ e refl
    free (suc (suc i)) b at = cc

    plain : (i : ℕ) (b : BotIdentity) → get_elem? bots i ≡ some b → b.applied ≡ false
    plain zero b at = let e : ann ≡ b = cc in rw⁻¹ e refl
    plain (suc zero) b at = let e : bob ≡ b = cc in rw⁻¹ e refl
    plain (suc (suc i)) b at = cc

abbrev pub roster : Roster
roster = record { bots = bots; manager = initial }

pub roster-IsSound : IsSound roster
roster-IsSound = record {
  linked = initial-IsLinked bots bots-IsIdleList;
  unique = idle-IsUnique bots bots-IsIdleList;
}

abbrev pub features : PluginFeatures
features = record {
  enable_fake_ping = true;
  fake_ping_min = pos 20;
  fake_ping_max = pos 90;
  enable_scoreboard_flair = true;
  scoreboard_flair_millis = 300;
  default_scoreboard_flair = 0;
  enable_crosshair = true;
  ping_jitter_percent = pos 30;
  vote_transaction_hold_frames = pos 3;
}

-- The client at address 100 has the controller at address 200, which is the entity 1.
abbrev pub engine : Engine
engine = record {
  server_alive = true;
  clients = 100 ∷ [];
  heap = λ p i. if p == 100 then (if i == 76 then 1 else 0) else 0;
  entity_system = true;
  chunks = λ k. some (λ i. record {
    class_name = some player_controller;
    instance_ptr = if i == 1 then 200 else 0;
  });
  ref_handle = λ p. 1;
  deleting = λ p. some false;
  connection_type = λ s. 2;
  util_remove_target = true;
  offsets = linux_offsets;
  calls = [];
}

abbrev pub world : World
world = record {
  roster = roster;
  features = features;
  map_blacklist = codes "Cabin" ∷ [];
  engine = engine;
  shm_view = some (λ i. 0);
  vote = initial_vote;
  pending = [];
  plugin_active = true;
  map_suspended = false;
  gate_map = [];
  population_command_depth = 0;
  last_jitter_time = 0;
}

abbrev pub draws : Draws
draws = record { pick = 1; ping = 5; flair = 0 }

-- An engine that takes the team away when it is asked to, and removes nothing at once.
abbrev pub outside : Outside
outside = record {
  change_team = λ controller team e. e;
  has_change_team = λ controller. true;
  util_remove = λ p e. e;
  entry_index = λ handle. pos handle;
}
