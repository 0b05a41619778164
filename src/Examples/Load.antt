-- ===== src/Examples/Load.antt =====
-- Files of src/bot_info.cpp's loaders: configurations, a bot list and a core.json.
use cs2_bot_identity.Base.{
  ℕ, ◌-◌, ◌*◌, ◌≡◌, ◌↔◌, refl, pos, true, false, Option, some, List, [], ◌∷◌, map, Bytes, bytes_eq,
  codes, arith, minus_one,
}
use cs2_bot_identity.BotInfo.{BotIdentity}
use cs2_bot_identity.BotInfo.Text.{trim_ascii, trim_front, trim_back}
use cs2_bot_identity.Json.{
  skip_whitespace, match_char, quoted, read_string, read_digits, read_uint64, span_digits,
  read_double, skip_scalar, skip_nested, skip_deep, skip_json_value, skip_plain, next_key, comma,
  members, object, skip_rest, read_block,
}
use cs2_bot_identity.Json.Print.{no_quote, sign, member, text}
use cs2_bot_identity.Loader.{
  Config, returned, read_flag, load_feature, load_token, load_tokens, skip_unknown, load_blacklist,
  load_key, load,
}
use cs2_bot_identity.Loader.Bots.{
  BotList, load_field, add_bot, load_bot, load_bots_key, load_bots, no_bots,
}
use cs2_bot_identity.Loader.Bots.Limits.{IsLoaded, load_bots-Returns}
use cs2_bot_identity.Loader.Bots.RoundTrip.{Entry, IsWritable, identity_of, print_bots}
use cs2_bot_identity.Loader.Bots.Whole.{AreWritable, none_left, and_more, load_bots-print_bots}
use cs2_bot_identity.Loader.Limits.{Returns, IsConfigured, load-Returns}
use cs2_bot_identity.Loader.Refusal.{opens_object, loaders_refuse}
use cs2_bot_identity.Loader.Language.{select_bot_list}
use cs2_bot_identity.Loader.Language.Choice.{IsChoice, select_bot_list-IsChoice}
use cs2_bot_identity.Loader.Language.Named.{print_members}
use cs2_bot_identity.Json.Values.{
  Value, is_text, is_word, is_brackets, nothing, char_then, text_then, brackets_then,
}

abbrev defaults : Config
defaults = record {
  features = record {
    enable_fake_ping = true;
    fake_ping_min = pos 20;
    fake_ping_max = pos 90;
    enable_scoreboard_flair = true;
    scoreboard_flair_millis = 300;
    default_scoreboard_flair = 0;
    enable_crosshair = true;
    ping_jitter_percent = pos 30;
    vote_transaction_hold_frames = pos 3;
  };
  map_blacklist = [];
}

-- Exact thousandths of a fraction below one.
abbrev millis : Bytes → Bytes → ℕ
millis whole [] = 0
millis whole (a ∷ part) = (a - 48) * 100

abbrev config_text : Bytes
config_text =
    codes
      "{ \"features\": { \"enableFakePing\": false, \"scoreboardFlairProbability\": 0.5,\n \"voteTransactionHoldFrames\": 99 }, \"mapBlacklist\": [\" de_dust2 \", \"\"] }"

abbrev loaded_config : Config
loaded_config = record {
  features = record defaults.features {
    enable_fake_ping = false;
    scoreboard_flair_millis = 500;
    vote_transaction_hold_frames = pos 32;
  };
  map_blacklist = codes "de_dust2" ∷ [];
}

loads_config : load millis (some config_text) defaults ≡ returned true loaded_config
unfolding load load_key load_feature load_blacklist load_tokens load_token skip_unknown read_flag
    members read_block object comma next_key skip_rest skip_scalar skip_nested read_double
    span_digits read_uint64 read_digits read_string quoted match_char skip_whitespace bytes_eq
    skip_json_value skip_deep skip_plain trim_ascii trim_front trim_back
loads_config = refl

load-Returns_example :
    Returns (λ c. c ≡ defaults) IsConfigured (load millis (some config_text) defaults)
load-Returns_example = load-Returns millis config_text defaults

-- Behind an unknown object that follows its colon directly, `Load` steps over the comma and stops,
-- so the blacklist stays empty.
drops_later_keys :
    load millis (some (codes "{\"x\":{\"y\":1},\"mapBlacklist\":[\"de_dust2\"]}")) defaults
    ≡ returned true defaults
unfolding load load_key load_feature load_blacklist load_tokens load_token skip_unknown read_flag
    members read_block object comma next_key skip_rest skip_scalar skip_nested read_double
    span_digits read_uint64 read_digits read_string quoted match_char skip_whitespace bytes_eq
    skip_json_value skip_deep skip_plain trim_ascii trim_front trim_back
drops_later_keys = refl

-- An unknown object among the features takes the brace of `features` with it.
takes_brace :
    load millis
      (some (codes "{\"features\":{\"x\":{\"y\":1}},\"mapBlacklist\":[\"de_dust2\"]}"))
      defaults
    ≡ returned true defaults
unfolding load load_key load_feature load_blacklist load_tokens load_token skip_unknown read_flag
    members read_block object comma next_key skip_rest skip_scalar skip_nested read_double
    span_digits read_uint64 read_digits read_string quoted match_char skip_whitespace bytes_eq
    skip_json_value skip_deep skip_plain trim_ascii trim_front trim_back
takes_brace = refl

loaders_refuse_example :
    ((load millis (some (codes " [")) defaults ≡ returned false defaults)
      ↔ (opens_object (some (codes " [")) ≡ false))
    × ((load_bots (some (codes " [")) no_bots ≡ returned false no_bots)
        ↔ (opens_object (some (codes " [")) ≡ false))
loaders_refuse_example = loaders_refuse millis (some (codes " [")) defaults no_bots

abbrev nameless : BotIdentity
nameless = record {
  slot = minus_one;
  steam_id = 0x7400000000000001;
  name = codes "Bot01";
  ping = pos 0;
  crosshair = [];
  scoreboard_flair = 0;
  applied = false;
  reused = 0;
}

abbrev named_name : BotIdentity
named_name = record nameless { steam_id = 0x7400000000000002; name = codes "name" }

-- A bot list as in the repository's bots.json.
abbrev pub henry : Entry
henry = record {
  key = codes "Bot01";
  steam_id = 76561197961483905;
  name = codes "henry";
  ping = 62;
  crosshair = codes "CSGO-M9OZ1-5NPW6-SY5O0-LAMEI-G4Y7V";
  scoreboard_flair = 2481;
}

abbrev pub emma : Entry
emma = record henry {
  key = codes "Bot02";
  steam_id = 76561197963198459;
  name = codes "emma";
  crosshair = [];
}

abbrev pub entries : List Entry
entries = henry ∷ emma ∷ []

-- A line feed and four spaces.
abbrev pub gap : Bytes
gap = 10 ∷ 32 ∷ 32 ∷ 32 ∷ 32 ∷ []

gap_is_blank : skip_whitespace gap ≡ []
unfolding skip_whitespace
gap_is_blank = refl

entries-AreWritable : AreWritable entries
unfolding no_quote
entries-AreWritable = and_more henry_fits (and_more emma_fits none_left)
  where
    henry_fits : IsWritable henry
    henry_fits = record {
      key_plain = refl;
      key_some = refl;
      steam_id_fits = omega arith;
      name_plain = refl;
      name_fits = omega arith;
      ping_fits = omega arith;
      crosshair_plain = refl;
      flair_fits = omega arith;
    }

    emma_fits : IsWritable emma
    emma_fits = record {
      key_plain = refl;
      key_some = refl;
      steam_id_fits = omega arith;
      name_plain = refl;
      name_fits = omega arith;
      ping_fits = omega arith;
      crosshair_plain = refl;
      flair_fits = omega arith;
    }

abbrev pub loaded_bots : BotList
loaded_bots = record { bots = map identity_of entries; dropped = 0; truncated = 0 }

pub loads_bots : load_bots (some (print_bots gap entries)) no_bots ≡ returned true loaded_bots
loads_bots = load_bots-print_bots gap gap_is_blank entries no_bots entries-AreWritable (omega arith)

load_bots-print_bots_example :
    load_bots (some (print_bots gap entries)) no_bots ≡ returned true loaded_bots
load_bots-print_bots_example =
    load_bots-print_bots gap gap_is_blank entries no_bots entries-AreWritable (omega arith)

load_bots-Returns_example :
    Returns (λ l. l ≡ no_bots) IsLoaded (load_bots (some (print_bots gap entries)) no_bots)
load_bots-Returns_example = load_bots-Returns (print_bots gap entries) no_bots

-- A field that `LoadBots` does not know ends its entry, and the fields behind it become entries.
makes_entries :
    load_bots (some (codes "{\"bots\":{\"Bot01\":{\"note\":1,\"name\":\"henry\"}}}")) no_bots
    ≡ returned true (record { bots = nameless ∷ named_name ∷ []; dropped = 0; truncated = 0 })
unfolding load_bots load_bots_key load_bot load_field add_bot members read_block object comma
    next_key skip_rest skip_scalar read_uint64 read_digits read_string quoted match_char
    skip_whitespace bytes_eq
makes_entries = refl

-- A core.json with settings of several kinds before the language: an array with an array in it, a
-- word and a text.
abbrev settings : List (Bytes × Value)
settings =
    (
      codes "PublicChatTrigger",
      is_brackets false (
          text_then (codes "!")
            (char_then 44 (brackets_then false (char_then 49 nothing) nothing))),
    )
    ∷ (codes "FollowCS2ServerGuidelines", is_word (codes "true"))
    ∷ (codes "Note", is_text (codes "x"))
    ∷ []

abbrev core_text : Bytes
core_text = sign gap b'{' (
    print_members gap settings
      (member gap (codes "ServerLanguage") (text gap (codes "zh-Hans") (codes "}"))))

abbrev base_dir : Bytes
base_dir = codes "/csgo"

abbrev files : Bytes → Option Bytes
files path = some core_text

select_bot_list-IsChoice_example : IsChoice base_dir (select_bot_list files base_dir)
select_bot_list-IsChoice_example = select_bot_list-IsChoice files base_dir
