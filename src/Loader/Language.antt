-- ===== src/Loader/Language.antt =====
-- src/bot_info.h, `BotListSelection`, and src/bot_info.cpp, `ReadCssServerLanguage` and
-- `SelectBotList`: which bot list is loaded. `files` are the texts of the files that can be opened.
pub mod Choice
pub mod Named
use cs2_bot_identity.Base.{
  ℕ, zero, suc, Bool, true, false, not, ◌&&◌, Option, none, some, [], ◌++◌, if◌then◌else◌, length,
  is_empty, Bytes, bytes_eq, codes,
}
use cs2_bot_identity.BotInfo.Text.{is_simplified_chinese}
use cs2_bot_identity.Json.{
  match_char, read_string, Run, out_of_fuel, done, bind, skip_json_value, Key, stop, key, next_key,
  comma,
}
use cs2_bot_identity.Loader.{Outcome, unfinished, returned}

-- The loop of `ReadCssServerLanguage`; `language` is empty until the key is met.
pub find_language : ℕ → ℕ → Bytes → Bytes → Run Bytes
find_language whole zero language s = out_of_fuel
find_language whole (suc fuel) language s = elim (next_key s) [
  | stop rest ↦ done language rest
  | key k r ↦
      let text = read_string r in
      let more = bind (skip_json_value whole language r) (comma (find_language whole fuel)) in
      if bytes_eq k (codes "ServerLanguage") then done text.0 text.1 else more
]

-- It returns `!out.empty()`, and `false` at the end of the loop, where `out` is empty.
abbrev pub found_language : Run Bytes → Outcome Bytes
found_language out_of_fuel = unfinished
found_language (done language s) = returned (not (is_empty language)) language

unfoldable pub read_css_server_language : Option Bytes → Outcome Bytes
read_css_server_language none = returned false []
read_css_server_language (some json) =
    let m = match_char b'{' json in
    let fuel = suc (length json) in
    if m.0 then found_language (find_language fuel fuel [] m.1) else returned false []

pub record BotListSelection : Type 0 where
  pub matched : Bytes
  pub relative_file : Bytes
  pub absolute_path : Bytes
  pub css_language : Bytes
  pub css_language_found : Bool

abbrev pub core_path : Bytes → Bytes
core_path base_dir = base_dir ++ codes "/addons/counterstrikesharp/configs/core.json"

-- What `SelectBotList` returns for what `ReadCssServerLanguage` gave.
abbrev pub selection : Bytes → Bool → Bytes → BotListSelection
selection base_dir found language =
    if found && is_simplified_chinese language
    then record {
      matched = codes "zh-CN";
      relative_file = codes "lang/zh-CN.json";
      absolute_path = base_dir ++ codes "/addons/BotIdentity/lang/zh-CN.json";
      css_language = language;
      css_language_found = found;
    }
    else record {
      matched = codes "default";
      relative_file = codes "bots.json";
      absolute_path = base_dir ++ codes "/addons/BotIdentity/bots.json";
      css_language = language;
      css_language_found = found;
    }

unfoldable pub select_bot_list : (Bytes → Option Bytes) → Bytes → Option BotListSelection
select_bot_list files base_dir = elim (read_css_server_language (files (core_path base_dir))) [
  | unfinished ↦ none
  | returned found language ↦ some (selection base_dir found language)
]
