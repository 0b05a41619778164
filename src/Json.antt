-- ===== src/Json.antt =====
-- src/bot_info.cpp, `SkipWhitespace` to `ReadBlock`: the reader of the JSON files. A position in the
-- text is the rest of the text from there.
pub mod Shrinks
pub mod Kept
pub mod Print
pub mod Values
use cs2_bot_identity.Base.{
  ℕ, zero, suc, ◌+◌, ◌-◌, ◌*◌, ◌%◌, ◌^◌, ◌==◌, Bool, true, false, not, ◌&&◌, ◌||◌, [], ◌∷◌,
  if◌then◌else◌, ltb, leb, drop, is_empty, Bytes,
}
use cs2_bot_identity.BotInfo.Text.{is_blank}

-- `json[i]`: past the end a string reads as NUL.
abbrev pub first : Bytes → ℕ
first [] = 0
first (c ∷ s) = c

unfoldable pub skip_whitespace : Bytes → Bytes
skip_whitespace [] = []
skip_whitespace (c ∷ s) = elim (is_blank c) [ true ↦ skip_whitespace s | false ↦ c ∷ s ]

-- Whether the character is there, and where the reader stands then.
unfoldable pub match_char : ℕ → Bytes → Bool × Bytes
match_char c s =
    let rest = skip_whitespace s in if first rest == c then (true, drop 1 rest) else (false, rest)

-- What stands before the closing quote, and what follows it.
unfoldable pub quoted : Bytes → Bytes × Bytes
quoted [] = ([], [])
quoted (c ∷ s) = let more = quoted s in if c == b'"' then ([], s) else (c ∷ more.0, more.1)

unfoldable pub read_string : Bytes → Bytes × Bytes
read_string s = let m = match_char b'"' s in if m.0 then quoted m.1 else ([], m.1)

abbrev pub is_digit : ℕ → Bool
is_digit c = leb b'0' c && leb c b'9'

unfoldable pub read_digits : ℕ → Bytes → ℕ × Bytes
read_digits v [] = (v, [])
read_digits v (c ∷ s) = elim (is_digit c) [
  | true ↦ read_digits ((v * 10 + (c - 48)) % 2 ^ 64) s
  | false ↦ (v, c ∷ s)
]

unfoldable pub read_uint64 : Bytes → ℕ × Bytes
read_uint64 s = read_digits 0 (skip_whitespace s)

-- The digits at the front, and the rest.
unfoldable pub span_digits : Bytes → Bytes × Bytes
span_digits [] = ([], [])
span_digits (c ∷ s) =
    let more = span_digits s in if is_digit c then (c ∷ more.0, more.1) else ([], c ∷ s)

-- The digits before the point, those after it, and the rest.
unfoldable pub read_double : Bytes → Bytes × Bytes × Bytes
read_double s =
    let whole = span_digits (skip_whitespace s) in
    let part = span_digits (drop 1 whole.1) in
    if first whole.1 == b'.' then (whole.0, part.0, part.1) else (whole.0, [], whole.1)

-- `while (i < json.size() && json[i] != ',' && json[i] != '}') ++i;`
unfoldable pub skip_scalar : Bytes → Bytes
skip_scalar [] = []
skip_scalar (c ∷ s) = let more = skip_scalar s in if (c == b',') || (c == b'}') then c ∷ s else more

-- The loop of `ReadBlock` and of `Load` over a nested value: `depth` of its brackets are open.
unfoldable pub skip_nested : ℕ → ℕ → ℕ → Bytes → Bytes
skip_nested opening closing zero s = s
skip_nested opening closing (suc depth) [] = []
skip_nested opening closing (suc depth) (c ∷ s) =
    skip_nested opening closing
      (if c == opening then suc (suc depth) else if c == closing then depth else suc depth) s

-- A loop ended in a state and at a place, or the fuel ran out.
pub data Run {ℓ} (S : Type ℓ) : Type ℓ where
  out_of_fuel : Run S
  done : S → Bytes → Run S

abbrev pub bind {ℓ κ} : {S : Type ℓ} {T : Type κ} → Run S → (S → Bytes → Run T) → Run T
bind out_of_fuel k = out_of_fuel
bind (done st s) k = k st s

-- The last loop of `SkipJsonValue`.
unfoldable pub skip_plain : Bytes → Bytes
skip_plain [] = []
skip_plain (c ∷ s) =
    let more = skip_plain s in if (c == b',') || (c == b'}') || (c == b']') then c ∷ s else more

abbrev pub opens : ℕ → Bool
opens c = (c == b'{') || (c == b'[')

-- The depth behind the character, in the loop of `SkipJsonValue`.
abbrev pub deeper : ℕ → ℕ → ℕ
deeper c depth =
    if opens c then depth + 1 else if (c == b'}') || (c == b']') then depth - 1 else depth

module _ {ℓ} {S : Type ℓ} where
  -- The loop body, and the test behind it; a string is passed over whole.
  unfoldable pub skip_deep : ℕ → S → ℕ → Bytes → Run S
  skip_deep zero st depth s = out_of_fuel
  skip_deep (suc fuel) st depth [] = done st []
  skip_deep (suc fuel) st depth (c ∷ s) =
      let depth' = if c == b'"' then depth else deeper c depth in
      let rest = if c == b'"' then (read_string (c ∷ s)).1 else s in
      let more = skip_deep fuel st depth' rest in
      if not (is_empty rest) && ltb 0 depth' then more else done st rest

  -- It leaves the state as it is.
  unfoldable pub skip_json_value : ℕ → S → Bytes → Run S
  skip_json_value fuel st s =
      let rest = skip_whitespace s in
      if first rest == b'"'
      then done st (read_string rest).1
      else if opens (first rest)
      then skip_deep fuel st 0 rest
      else done st (skip_plain rest)

-- The head of the loops over an object: its end or a fault, or a key and what follows the colon.
pub data Key : Type 0 where
  stop : Bytes → Key
  key : Bytes → Bytes → Key

unfoldable pub next_key : Bytes → Key
next_key s =
    let rest = skip_whitespace s in
    let k = read_string rest in
    let m = match_char b':' k.1 in
    if is_empty rest || (first rest == b'}')
    then stop rest
    else if is_empty k.0
    then stop k.1
    else if m.0
    then key k.0 m.1
    else stop m.1

-- What a loop over an object does with a key and the text behind its colon.
abbrev pub Handler {ℓ} : Type ℓ → Type ℓ
Handler S = Bytes → S → Bytes → Run S

-- What the callback did not read of the value.
unfoldable pub skip_rest : Bytes → Bytes
skip_rest s =
    if first s == b'{'
    then skip_nested b'{' b'}' 1 s
    else if first s == b'['
    then skip_nested b'[' b']' 1 s
    else skip_scalar s

module _ {ℓ} {S : Type ℓ} where
  -- `if (!MatchChar(json, i, ',')) break;` at the end of a loop's body.
  unfoldable pub comma : (S → Bytes → Run S) → S → Bytes → Run S
  comma loop st s = let m = match_char b',' s in if m.0 then loop st m.1 else done st m.1

  -- `while (SkipWhitespace(json, i) && json[i] != '}') { … }`
  unfoldable pub members : ℕ → Handler S → S → Bytes → Run S
  members zero h st s = out_of_fuel
  members (suc fuel) h st s = elim (next_key s) [
    | stop rest ↦ done st rest
    | key k r ↦ bind (h k st r) (comma (members fuel h))
  ]

  -- The members between braces; nothing is read where no brace opens.
  unfoldable pub object : ℕ → Handler S → S → Bytes → Run S
  object fuel h st s =
      let m = match_char b'{' s in
      if m.0
      then bind (members fuel h st m.1) (λ st' r. done st' (match_char b'}' r).1)
      else done st m.1

  unfoldable pub read_block : ℕ → Handler S → S → Bytes → Run S
  read_block fuel on_key st s =
      object fuel (λ k st' r. bind (on_key k st' r) (λ st'' r'. done st'' (skip_rest r'))) st s
