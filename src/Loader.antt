-- ===== src/Loader.antt =====
-- src/bot_info.cpp, `BotInfo::Load` and `LoadFeatures`: the features and the map blacklist of
-- config.json. A file is its text, or `none` where it cannot be opened; `flair_millis` is
-- `int(v * 1000.0)` for the `double` that `ReadDouble` makes of the digits around the point.
pub mod Bots
pub mod Language
pub mod Limits
pub mod Refusal
use cs2_bot_identity.Base.{
  ℕ, zero, suc, ◌%◌, ◌^◌, ◌==◌, ℤ, pos, ltb_ℤ, Bool, true, false, not, ◌||◌, Option, none, some,
  List, [], ◌∷◌, ◌++◌, if◌then◌else◌, length, drop, is_empty, Bytes, bytes_eq, codes,
}
use cs2_bot_identity.BotInfo.{PluginFeatures}
use cs2_bot_identity.BotInfo.Text.{trim_ascii}
use cs2_bot_identity.Memory.{to_int32}
use cs2_bot_identity.Json.{
  first, skip_whitespace, match_char, read_string, read_uint64, read_double, skip_scalar,
  skip_nested, Run, out_of_fuel, done, bind, skip_json_value, Handler, comma, members, read_block,
}

pub record Config : Type 0 where
  pub features : PluginFeatures
  pub map_blacklist : List Bytes

-- What a loader returned, with the state that it left; or its fuel ran out.
pub data Outcome {ℓ} (S : Type ℓ) : Type ℓ where
  unfinished : Outcome S
  returned : Bool → S → Outcome S

abbrev pub conclude {ℓ} : {S : Type ℓ} → Run S → Outcome S
conclude out_of_fuel = unfinished
conclude (done st s) = returned true st

-- `(int)`, of a `uint64_t`.
abbrev pub to_int : ℕ → ℤ
to_int v = to_int32 (v % 2 ^ 32)

-- `json[i] == 't' || json[i] == '1'`, and the scalar is passed.
unfoldable pub read_flag : Bytes → Bool × Bytes
read_flag s =
    let rest = skip_whitespace s in ((first rest == b't') || (first rest == b'1'), skip_scalar rest)

-- The callback that `Load` gives to `ReadBlock`.
unfoldable pub load_feature : (Bytes → Bytes → ℕ) → Handler PluginFeatures
load_feature flair_millis k f s =
    let flag = read_flag s in
    let number = read_uint64 s in
    let fraction = read_double s in
    if bytes_eq k (codes "enableFakePing")
    then done (record f { enable_fake_ping = flag.0 }) flag.1
    else if bytes_eq k (codes "fakePingMin")
    then done (record f { fake_ping_min = to_int number.0 }) number.1
    else if bytes_eq k (codes "fakePingMax")
    then done (record f { fake_ping_max = to_int number.0 }) number.1
    else if bytes_eq k (codes "enableScoreboardFlair")
    then done (record f { enable_scoreboard_flair = flag.0 }) flag.1
    else if bytes_eq k (codes "scoreboardFlairProbability")
    then done (record f { scoreboard_flair_millis = flair_millis fraction.0 fraction.1 }) fraction.2
    else if bytes_eq k (codes "enableCrosshair")
    then done (record f { enable_crosshair = flag.0 }) flag.1
    else if bytes_eq k (codes "defaultScoreboardFlair")
    then done (record f { default_scoreboard_flair = number.0 % 2 ^ 32 }) number.1
    else if bytes_eq k (codes "pingJitterPercent")
    then done (record f { ping_jitter_percent = to_int number.0 }) number.1
    else if bytes_eq k (codes "voteTransactionHoldFrames")
    then done (record f { vote_transaction_hold_frames = to_int number.0 }) number.1
    else done f s

-- `if (!tok.empty()) m_MapBlacklist.push_back(tok);`
abbrev pub add_token : Bytes → Config → Config
add_token tok c =
    if is_empty tok then c else record c { map_blacklist = c.map_blacklist ++ tok ∷ [] }

-- One element of the array `mapBlacklist`.
unfoldable pub load_token : ℕ → Config → Bytes → Run Config
load_token fuel c s =
    if first s == b'"'
    then done (add_token (trim_ascii (read_string s).0) c) (read_string s).1
    else skip_json_value fuel c s

-- `whole` is the fuel for the values.
unfoldable pub load_tokens : ℕ → ℕ → Config → Bytes → Run Config
load_tokens whole zero c s = out_of_fuel
load_tokens whole (suc fuel) c s =
    let rest = skip_whitespace s in
    if is_empty rest || (first rest == b']')
    then done c rest
    else bind (load_token whole c rest) (comma (load_tokens whole fuel))

-- The value of an unknown key; behind a nested one `Load` steps over one more character.
unfoldable pub skip_unknown : Bytes → Bytes
skip_unknown s =
    if first s == b'{'
    then drop 1 (skip_nested b'{' b'}' 1 (drop 1 s))
    else if first s == b'['
    then drop 1 (skip_nested b'[' b']' 1 (drop 1 s))
    else skip_scalar s

unfoldable pub load_blacklist : ℕ → Config → Bytes → Run Config
load_blacklist fuel c s =
    let m = match_char b'[' s in
    if m.0
    then bind (load_tokens fuel fuel c m.1) (λ c' r. done c' (match_char b']' r).1)
    else skip_json_value fuel c m.1

-- The body of the loop of `Load`.
unfoldable pub load_key : (Bytes → Bytes → ℕ) → ℕ → Handler Config
load_key flair_millis fuel k c s =
    if bytes_eq k (codes "features")
    then bind (read_block fuel (load_feature flair_millis) c.features s)
        (λ f r. done (record c { features = f }) r)
    else if bytes_eq k (codes "mapBlacklist")
    then load_blacklist fuel c s
    else done c (skip_unknown s)

abbrev pub clamp_hold : ℤ → ℤ
clamp_hold frames =
    let low = if ltb_ℤ frames (pos 1) then pos 1 else frames in
    if ltb_ℤ (pos 32) low then pos 32 else low

abbrev pub clamp_features : Config → Config
clamp_features c = record c {
  features = record c.features {
    vote_transaction_hold_frames = clamp_hold c.features.vote_transaction_hold_frames;
  };
}

unfoldable pub load : (Bytes → Bytes → ℕ) → Option Bytes → Config → Outcome Config
load flair_millis none c = returned false c
load flair_millis (some json) c =
    let m = match_char b'{' json in
    let fuel = suc (length json) in
    if m.0
    then conclude (
        bind (members fuel (load_key flair_millis fuel) (record c { map_blacklist = [] }) m.1)
          λ c' r. done (clamp_features c') (match_char b'}' r).1)
    else returned false c

-- `LoadFeatures`, which is `Load`.
abbrev pub load_features : (Bytes → Bytes → ℕ) → Option Bytes → Config → Outcome Config
load_features = load
