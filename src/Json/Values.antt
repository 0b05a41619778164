-- ===== src/Json/Values.antt =====
-- Values of any kind as they stand in the JSON files: texts, numbers and words, objects and arrays.
pub mod Skip
use cs2_bot_identity.Base.{
  ℕ, suc, ◌+◌, ◌-◌, ◌≤◌, ◌≡◌, ◌∙◌, refl, ◌==◌, inl, inr, Bool, true, false, not, ◌&&◌, ◌||◌,
  &&_true, Bool-cases, [], ◌∷◌, ◌++◌, Bytes, arith, if◌then◌else◌, length, length-append, ltb,
  is_empty,
}
use cs2_bot_identity.BotInfo.Text.{is_blank}
use cs2_bot_identity.Json.{
  first, skip_whitespace, match_char, done, skip_plain, opens, deeper, skip_deep, skip_json_value,
}
use cs2_bot_identity.Json.Print.{no_quote, sign, text, past_gap, match_char-sign, read_string-text}

-- What stands between two brackets: characters, texts and further brackets, braces where the
-- Boolean is true.
pub data Inside : Type 0 where
  nothing : Inside
  char_then : ℕ → Inside → Inside
  text_then : Bytes → Inside → Inside
  brackets_then : Bool → Inside → Inside → Inside

abbrev pub opening : Bool → ℕ
opening braces = if braces then b'{' else b'['

abbrev pub closing : Bool → ℕ
closing braces = if braces then b'}' else b']'

pub print_inside : Inside → Bytes → Bytes
print_inside nothing rest = rest
print_inside (char_then c i) rest = c ∷ print_inside i rest
print_inside (text_then s i) rest = b'"' ∷ (s ++ (b'"' ∷ print_inside i rest))
print_inside (brackets_then braces inner i) rest =
    opening braces ∷ print_inside inner (closing braces ∷ print_inside i rest)

-- A character that opens or closes nothing.
abbrev pub is_plain : ℕ → Bool
is_plain c =
    not (c == b'"') && not (c == b'{') && not (c == b'[') && not (c == b'}') && not (c == b']')

-- The characters are plain, and the texts need no escapes.
pub data IsInside : Inside → Type 0 where
  inside_nothing : IsInside nothing
  inside_char : {c : ℕ} {i : Inside} → is_plain c ≡ true → IsInside i → IsInside (char_then c i)
  inside_text : {s : Bytes} {i : Inside} → no_quote s ≡ true → IsInside i → IsInside (text_then s i)
  inside_brackets :
      {braces : Bool} {inner i : Inside}
      → IsInside inner
      → IsInside i
      → IsInside (brackets_then braces inner i)

-- A text, a number or a word, or an object or an array.
pub data Value : Type 0 where
  is_text : Bytes → Value
  is_word : Bytes → Value
  is_brackets : Bool → Inside → Value

-- No comma and no closing bracket.
unfoldable pub no_end : Bytes → Bool
no_end [] = true
no_end (c ∷ s) = not ((c == b',') || (c == b'}') || (c == b']')) && no_end s

pub data IsValue : Value → Type 0 where
  value_text : {s : Bytes} → no_quote s ≡ true → IsValue (is_text s)
  value_word :
      {s : Bytes}
      → is_empty s ≡ false
      → is_blank (first s) ≡ false
      → (first s == b'"') ≡ false
      → opens (first s) ≡ false
      → no_end s ≡ true
      → IsValue (is_word s)
  value_brackets : {braces : Bool} {i : Inside} → IsInside i → IsValue (is_brackets braces i)

pub print_value : Bytes → Value → Bytes → Bytes
print_value gap (is_text s) rest = text gap s rest
print_value gap (is_word s) rest = gap ++ (s ++ rest)
print_value gap (is_brackets braces i) rest =
    gap ++ (opening braces ∷ print_inside i (closing braces ∷ rest))

-- The rounds of the loop of `SkipJsonValue`.
pub rounds : Inside → ℕ
rounds nothing = 0
rounds (char_then c i) = suc (rounds i)
rounds (text_then s i) = suc (rounds i)
rounds (brackets_then braces inner i) = suc (rounds inner + suc (rounds i))
