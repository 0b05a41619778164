-- ===== src/BotInfo.antt =====
-- src/bot_info.h and src/bot_info.cpp: the bot list with its identities and the plugin's features.
-- An index into the list stands for the pointer to an entry.
pub mod Pool
pub mod Text
use cs2_bot_identity.Base.{ℕ, ℤ, minus_one, Bool, false, List, Bytes}

-- `kMaxSlots`, `kMaxBotIdentities` and `kMaxPersonaNameBytes`.
abbrev pub max_slots : ℕ
max_slots = 64

abbrev pub max_bot_identities : ℕ
max_bot_identities = 256

abbrev pub max_persona_name_bytes : ℕ
max_persona_name_bytes = 31

pub record BotIdentity : Type 0 where
  pub slot : ℤ
  pub steam_id : ℕ
  pub name : Bytes
  pub ping : ℤ
  pub crosshair : Bytes
  pub scoreboard_flair : ℕ
  pub applied : Bool
  pub reused : ℕ

-- `scoreboard_flair_millis` is `int(scoreboardFlairProbability * 1000.0)`.
pub record PluginFeatures : Type 0 where
  pub enable_fake_ping : Bool
  pub fake_ping_min : ℤ
  pub fake_ping_max : ℤ
  pub enable_scoreboard_flair : Bool
  pub scoreboard_flair_millis : ℕ
  pub default_scoreboard_flair : ℕ
  pub enable_crosshair : Bool
  pub ping_jitter_percent : ℤ
  pub vote_transaction_hold_frames : ℤ

-- `identity->slot = slot`.
abbrev pub take_slot : ℤ → BotIdentity → BotIdentity
take_slot slot b = record b { slot = slot }

-- `identity->slot = -1; identity->applied = false`.
abbrev pub release_entry : BotIdentity → BotIdentity
release_entry b = record b { slot = minus_one; applied = false }
