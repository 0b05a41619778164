-- ===== src/Loader/Bots.antt =====
-- src/bot_info.cpp, `BotInfo::LoadBots`: the identities of bots.json, and what was cut off them.
pub mod Limits
pub mod RoundTrip
pub mod Size
pub mod Whole
use cs2_bot_identity.Base.{
  ℕ, zero, suc, ◌+◌, ◌%◌, ◌^◌, ℤ, minus_one, pos, false, Option, none, some, List, [], ◌∷◌, ◌++◌,
  if◌then◌else◌, ltb, length, Bytes, bytes_eq, codes,
}
use cs2_bot_identity.BotInfo.{BotIdentity, max_bot_identities, max_persona_name_bytes}
use cs2_bot_identity.BotInfo.Text.{truncate_utf8}
use cs2_bot_identity.Json.{
  match_char, read_string, read_uint64, Run, done, bind, skip_json_value, Handler, members, object,
  read_block,
}
use cs2_bot_identity.Loader.{Outcome, returned, conclude, to_int}

-- `m_Bots`, `m_DroppedOnLoad` and `m_TruncatedOnLoad`.
pub record BotList : Type 0 where
  pub bots : List BotIdentity
  pub dropped : ℕ
  pub truncated : ℕ

abbrev pub steam_id_base : ℕ
steam_id_base = 0x7400000000000001

-- A `BotIdentity` with the name and the SteamID64 that it has where the file gives none.
abbrev pub fresh_identity : Bytes → ℕ → BotIdentity
fresh_identity name count = record {
  slot = minus_one;
  steam_id = (steam_id_base + count) % 2 ^ 64;
  name = name;
  ping = pos 0;
  crosshair = [];
  scoreboard_flair = 0;
  applied = false;
  reused = 0;
}

-- The body of the loop over the fields of one entry.
unfoldable pub load_field : Handler BotIdentity
load_field k b s =
    let number = read_uint64 s in
    let text = read_string s in
    if bytes_eq k (codes "steamid")
    then done (record b { steam_id = number.0 }) number.1
    else if bytes_eq k (codes "name")
    then done (record b { name = text.0 }) text.1
    else if bytes_eq k (codes "ping")
    then done (record b { ping = to_int number.0 }) number.1
    else if bytes_eq k (codes "crosshair")
    then done (record b { crosshair = text.0 }) text.1
    else if bytes_eq k (codes "scoreboardFlair")
    then done (record b { scoreboard_flair = number.0 % 2 ^ 32 }) number.1
    else done b s

abbrev pub cut_name : BotIdentity → BotIdentity
cut_name b =
    if ltb max_persona_name_bytes (length b.name)
    then record b { name = truncate_utf8 b.name max_persona_name_bytes }
    else b

abbrev pub count_cut : BotIdentity → ℕ
count_cut b = if ltb max_persona_name_bytes (length b.name) then 1 else 0

-- The entry is cut to fit, and appended where there is room.
unfoldable pub add_bot : BotList → BotIdentity → BotList
add_bot l b =
    if ltb (length l.bots) max_bot_identities
    then record l { bots = l.bots ++ cut_name b ∷ []; truncated = l.truncated + count_cut b }
    else record l { dropped = l.dropped + 1; truncated = l.truncated + count_cut b }

-- The callback that `LoadBots` gives to `ReadBlock`.
unfoldable pub load_bot : ℕ → Handler BotList
load_bot fuel bot_name l s =
    bind (object fuel load_field (fresh_identity bot_name (length l.bots)) s)
      (λ b r. done (add_bot l b) r)

-- The body of the loop of `LoadBots`.
unfoldable pub load_bots_key : ℕ → Handler BotList
load_bots_key fuel k l s =
    if bytes_eq k (codes "bots")
    then read_block fuel (load_bot fuel) l s
    else skip_json_value fuel l s

abbrev pub no_bots : BotList
no_bots = record { bots = []; dropped = 0; truncated = 0 }

unfoldable pub load_bots : Option Bytes → BotList → Outcome BotList
load_bots none l = returned false l
load_bots (some json) l =
    let m = match_char b'{' json in
    let fuel = suc (length json) in
    if m.0
    then conclude
        (bind (members fuel (load_bots_key fuel) no_bots m.1) λ l' r. done l' (match_char b'}' r).1)
    else returned false l
