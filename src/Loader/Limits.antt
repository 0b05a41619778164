-- ===== src/Loader/Limits.antt =====
-- src/bot_info.cpp, `BotInfo::Load`: it returns on every text, with features and tokens in their
-- ranges.
use cs2_bot_identity.Base.{
  ℕ, zero, suc, ◌≤◌, ◌<◌, ◌==◌, ◌≡◌, ◌≢◌, refl, inl, inr, ℤ, pos, ◌≤ℤ◌, true, false, ◌||◌, some,
  List, [], ◌∷◌, ◌++◌, Bool-cases, if_keeps, length, drop, is_empty, Bytes, arith, bytes_eq, codes,
}
use cs2_bot_identity.BotInfo.{PluginFeatures}
use cs2_bot_identity.BotInfo.Text.{trim_ascii}
use cs2_bot_identity.BotInfo.Text.Tags.{trim-trim}
use cs2_bot_identity.Json.{
  first, skip_whitespace, match_char, read_string, skip_nested, Run, done, skip_json_value, comma,
  members, read_block,
}
use cs2_bot_identity.Json.Shrinks.{
  length-drop1, skip_whitespace-Shrinks, match_char-Shrinks, read_string-Shrinks,
  read_uint64-Shrinks, read_double-Shrinks, skip_scalar-Shrinks, skip_nested-Shrinks,
}
use cs2_bot_identity.Json.Kept.{
  Ends, Ends-le, Ends-bind, skip_json_value-Ends, comma-Ends, Keeps, members-Ends, read_block-Ends,
}
use cs2_bot_identity.Loader.{
  Config, Outcome, unfinished, returned, conclude, read_flag, load_feature, add_token, load_token,
  load_tokens, skip_unknown, load_blacklist, load_key, clamp_hold, load,
}

-- No token is empty, and none has a blank at an end.
pub data AreTokens : List Bytes → Type 0 where
  no_tokens : AreTokens []
  one_more :
      {tok : Bytes} {toks : List Bytes}
      → tok ≢ []
      → trim_ascii tok ≡ tok
      → AreTokens toks
      → AreTokens (toks ++ tok ∷ [])

abbrev pub HasTokens : Config → Type 0
HasTokens c = AreTokens c.map_blacklist

-- Every feature may be read.
abbrev AnyFeatures : PluginFeatures → Type 0
AnyFeatures f = Unit {0}

read_flag-Shrinks : (s : Bytes) → length (read_flag s).1 ≤ length s
unfolding read_flag
read_flag-Shrinks s =
    omega (arith, skip_whitespace-Shrinks s, skip_scalar-Shrinks (skip_whitespace s))

load_feature-Keeps :
    (flair_millis : Bytes → Bytes → ℕ) (bound : ℕ)
    → Keeps AnyFeatures bound (load_feature flair_millis)
unfolding load_feature
load_feature-Keeps flair_millis bound k f s l p =
    let flag = read_flag-Shrinks s in
    let number = read_uint64-Shrinks s in let fraction = read_double-Shrinks s in ground arith

add_token-HasTokens :
    (tok : Bytes) (c : Config) → HasTokens c → HasTokens (add_token (trim_ascii tok) c)
add_token-HasTokens tok c h = added (trim_ascii tok) (trim-trim tok)
  where
    added : (t : Bytes) → trim_ascii t ≡ t → HasTokens (add_token t c)
    added [] e = h
    added (x ∷ t) e = one_more (λ q. cc) e h

module _ (fuel : ℕ) where
  load_token-Ends :
      (c : Config) (s : Bytes)
      → length s < fuel
      → HasTokens c
      → Ends HasTokens (length s) (load_token fuel c s)
  unfolding load_token
  load_token-Ends c s l h =
      if_keeps (Ends HasTokens (length s)) (first s == b'"') _ _
        (add_token-HasTokens (read_string s).0 c h, read_string-Shrinks s)
        (skip_json_value-Ends HasTokens fuel c s l h)

  load_tokens-Ends :
      (left : ℕ) (c : Config) (s : Bytes)
      → length s < left
      → length s < fuel
      → HasTokens c
      → Ends HasTokens (length s) (load_tokens fuel left c s)
  unfolding load_tokens
  load_tokens-Ends zero c s l f h = absurd (omega arith)
  load_tokens-Ends (suc left) c s l f h =
      let rest = skip_whitespace s in
      let spaces = skip_whitespace-Shrinks s in
      let item = load_token-Ends c rest (omega arith) h in
      let after = λ (c' : Config) (r : Bytes) (h' : HasTokens c') (l' : length r ≤ length rest).
        comma-Ends HasTokens (load_tokens fuel left) (length s) c' r
          (λ c'' r' l'' h''. load_tokens-Ends left c'' r' (omega arith) (omega arith) h'')
          (omega arith) h' in
      elim (Bool-cases (is_empty rest || (first rest == b']'))) [
        | inl e ↦ rw e (h, spaces)
        | inr e ↦ rw e (
            Ends-bind HasTokens HasTokens (length rest) (length s) (load_token fuel c rest)
              (comma (load_tokens fuel left)) item after)
      ]

  load_blacklist-Ends :
      (c : Config) (s : Bytes)
      → length s < fuel
      → HasTokens c
      → Ends HasTokens (length s) (load_blacklist fuel c s)
  unfolding load_blacklist
  load_blacklist-Ends c s l h =
      let m = match_char b'[' s in
      let passed = match_char-Shrinks b'[' s in
      if_keeps (Ends HasTokens (length s)) m.0 _ _
        (Ends-bind HasTokens HasTokens (length m.1) (length s) (load_tokens fuel fuel c m.1) _
          (load_tokens-Ends fuel c m.1 (omega arith) (omega arith) h)
          λ c' r h' l'. (h', omega (arith, match_char-Shrinks b']' r)))
        (Ends-le HasTokens (skip_json_value fuel c m.1)
          (skip_json_value-Ends HasTokens fuel c m.1 (omega arith) h) passed)

skip_unknown-Shrinks : (s : Bytes) → length (skip_unknown s) ≤ length s
unfolding skip_unknown
skip_unknown-Shrinks s =
    let inner = length-drop1 s in
    let braces = skip_nested-Shrinks b'{' b'}' 1 (drop 1 s) in
    let brackets = skip_nested-Shrinks b'[' b']' 1 (drop 1 s) in
    let past_brace = length-drop1 (skip_nested b'{' b'}' 1 (drop 1 s)) in
    let past_bracket = length-drop1 (skip_nested b'[' b']' 1 (drop 1 s)) in
    ground (arith, skip_scalar-Shrinks s)

load_key-Keeps :
    (flair_millis : Bytes → Bytes → ℕ) (fuel : ℕ)
    → Keeps HasTokens fuel (load_key flair_millis fuel)
unfolding load_key
load_key-Keeps flair_millis fuel k c s l h =
    if_keeps (Ends HasTokens (length s)) (bytes_eq k (codes "features")) _ _
      (Ends-bind AnyFeatures HasTokens (length s) (length s)
        (read_block fuel (load_feature flair_millis) c.features s) _
        (read_block-Ends AnyFeatures fuel (load_feature flair_millis) c.features s
          (load_feature-Keeps flair_millis fuel) l tt)
        λ f r u l'. (h, l'))
      (if_keeps (Ends HasTokens (length s)) (bytes_eq k (codes "mapBlacklist")) _ _
        (load_blacklist-Ends fuel c s l h) (h, skip_unknown-Shrinks s))

clamp_hold_range : (frames : ℤ) → (pos 1 ≤ℤ clamp_hold frames) × (clamp_hold frames ≤ℤ pos 32)
clamp_hold_range frames = ground arith

-- The features and the tokens that a file was read into.
pub record IsConfigured (c : Config) : Type 0 where
  pub hold_low : pos 1 ≤ℤ c.features.vote_transaction_hold_frames
  pub hold_high : c.features.vote_transaction_hold_frames ≤ℤ pos 32
  pub tokens : AreTokens c.map_blacklist

-- It returned: `false` with `P` of the state, or `true` with `Q` of it.
abbrev pub Returns : {S : Type 0} → (S → Type 0) → (S → Type 0) → Outcome S → Type 0
Returns P Q unfinished = ⊥
Returns P Q (returned false st) = P st
Returns P Q (returned true st) = Q st

pub conclude-Returns :
    {S : Type 0} (P Q : S → Type 0) (n : ℕ) (r : Run S) → Ends Q n r → Returns P Q (conclude r)
conclude-Returns P Q n (done st s) e = e.0
conclude-Returns P Q n _ e = absurd e

-- `Load` returns on every text. Where it returns `false`, the state is as it was; where it returns
-- `true`, the hold lies between 1 and 32 frames, and no token of the blacklist is empty or has a
-- blank at an end.
pub load-Returns :
    (flair_millis : Bytes → Bytes → ℕ) (json : Bytes) (c : Config)
    → Returns (λ c'. c' ≡ c) IsConfigured (load flair_millis (some json) c)
unfolding load
load-Returns flair_millis json c =
    let m = match_char b'{' json in
    let fuel = suc (length json) in
    let opened = match_char-Shrinks b'{' json in
    if_keeps (Returns (λ c'. c' ≡ c) IsConfigured) m.0 _ _
      (conclude-Returns (λ c'. c' ≡ c) IsConfigured (length m.1) _
        (Ends-bind HasTokens IsConfigured (length m.1) (length m.1)
          (members fuel (load_key flair_millis fuel) (record c { map_blacklist = [] }) m.1) _
          (members-Ends HasTokens fuel fuel (load_key flair_millis fuel) _ m.1
            (load_key-Keeps flair_millis fuel) (omega arith) (omega arith) no_tokens)
          λ c' r h l. (
            (record {
              hold_low = (clamp_hold_range c'.features.vote_transaction_hold_frames).0;
              hold_high = (clamp_hold_range c'.features.vote_transaction_hold_frames).1;
              tokens = h;
            }),
            omega (arith, match_char-Shrinks b'}' r),
          )))
      refl
