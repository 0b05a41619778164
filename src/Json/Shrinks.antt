-- ===== src/Json/Shrinks.antt =====
-- The reader of src/bot_info.cpp never moves back: what is left of the text is no longer than it was.
use cs2_bot_identity.Base.{
  ℕ, zero, suc, ◌+◌, ◌-◌, ◌*◌, ◌%◌, ◌^◌, ◌≤◌, ◌<◌, ◌==◌, ◌≡◌, inl, inr, true, false, [], ◌∷◌,
  Bool-cases, if◌then◌else◌, length, drop, is_empty, Bytes, arith,
}
use cs2_bot_identity.Json.{
  first, skip_whitespace, match_char, quoted, read_string, is_digit, read_digits, read_uint64,
  span_digits, read_double, skip_scalar, skip_nested, skip_plain, Key, stop, key, next_key,
  skip_rest,
}

pub length-drop1 : (s : Bytes) → length (drop 1 s) ≤ length s
length-drop1 [] = omega arith
length-drop1 (c ∷ s) = omega arith

pub skip_whitespace-Shrinks : (s : Bytes) → length (skip_whitespace s) ≤ length s
unfolding skip_whitespace
skip_whitespace-Shrinks [] = omega arith
skip_whitespace-Shrinks (c ∷ s) = ground (arith, skip_whitespace-Shrinks s)

-- A character that is found is passed.
found_shorter : (c : ℕ) (s : Bytes) → 0 < c → (first s == c) ≡ true → length (drop 1 s) < length s
found_shorter c [] h e = ground arith
found_shorter c (x ∷ s) h e = omega arith

pub match_char-Shrinks : (c : ℕ) (s : Bytes) → length (match_char c s).1 ≤ length s
unfolding match_char
match_char-Shrinks c s = ground (arith, skip_whitespace-Shrinks s, length-drop1 (skip_whitespace s))

pub match_char-passes :
    (c : ℕ) (s : Bytes) → 0 < c → (match_char c s).0 ≡ true → length (match_char c s).1 < length s
unfolding match_char
match_char-passes c s h e =
    ground (arith, skip_whitespace-Shrinks s, found_shorter c (skip_whitespace s) h)

pub quoted-Shrinks : (s : Bytes) → length (quoted s).1 ≤ length s
unfolding quoted
quoted-Shrinks [] = omega arith
quoted-Shrinks (c ∷ s) = ground (arith, quoted-Shrinks s)

pub read_string-Shrinks : (s : Bytes) → length (read_string s).1 ≤ length s
unfolding read_string
read_string-Shrinks s =
    ground (arith, match_char-Shrinks b'"' s, quoted-Shrinks (match_char b'"' s).1)

pub read_string-passes :
    (s : Bytes) → (match_char b'"' s).0 ≡ true → length (read_string s).1 < length s
unfolding read_string
read_string-passes s e =
    ground (arith, match_char-passes b'"' s (omega arith) e, quoted-Shrinks (match_char b'"' s).1)

-- A string that is not empty was read from behind a quote.
pub read_string-some :
    (s : Bytes) → is_empty (read_string s).0 ≡ false → length (read_string s).1 < length s
unfolding read_string
read_string-some s e =
    ground (arith, match_char-passes b'"' s (omega arith), quoted-Shrinks (match_char b'"' s).1)

pub read_digits-Shrinks : (v : ℕ) (s : Bytes) → length (read_digits v s).1 ≤ length s
unfolding read_digits
read_digits-Shrinks v [] = omega arith
read_digits-Shrinks v (c ∷ s) = elim (Bool-cases (is_digit c)) [
  | inl e ↦
      rw (e, read_digits) (omega (arith, read_digits-Shrinks ((v * 10 + (c - 48)) % 2 ^ 64) s))
  | inr e ↦ rw (e, read_digits) (omega arith)
]

pub read_uint64-Shrinks : (s : Bytes) → length (read_uint64 s).1 ≤ length s
unfolding read_uint64
read_uint64-Shrinks s =
    omega (arith, skip_whitespace-Shrinks s, read_digits-Shrinks 0 (skip_whitespace s))

pub span_digits-Shrinks : (s : Bytes) → length (span_digits s).1 ≤ length s
unfolding span_digits
span_digits-Shrinks [] = omega arith
span_digits-Shrinks (c ∷ s) = ground (arith, span_digits-Shrinks s)

pub read_double-Shrinks : (s : Bytes) → length (read_double s).2 ≤ length s
unfolding read_double
read_double-Shrinks s =
    let spaces = skip_whitespace-Shrinks s in
    let whole = span_digits-Shrinks (skip_whitespace s) in
    let point = length-drop1 (span_digits (skip_whitespace s)).1 in
    let part = span_digits-Shrinks (drop 1 (span_digits (skip_whitespace s)).1) in ground arith

pub skip_scalar-Shrinks : (s : Bytes) → length (skip_scalar s) ≤ length s
unfolding skip_scalar
skip_scalar-Shrinks [] = omega arith
skip_scalar-Shrinks (c ∷ s) = ground (arith, skip_scalar-Shrinks s)

pub skip_plain-Shrinks : (s : Bytes) → length (skip_plain s) ≤ length s
unfolding skip_plain
skip_plain-Shrinks [] = omega arith
skip_plain-Shrinks (c ∷ s) = ground (arith, skip_plain-Shrinks s)

pub skip_nested-Shrinks :
    (opening closing depth : ℕ) (s : Bytes)
    → length (skip_nested opening closing depth s) ≤ length s
unfolding skip_nested
skip_nested-Shrinks opening closing zero s = omega arith
skip_nested-Shrinks opening closing (suc depth) [] = omega arith
skip_nested-Shrinks opening closing (suc depth) (c ∷ s) =
    let rest =
      skip_nested-Shrinks opening closing
        (if c == opening then suc (suc depth) else if c == closing then depth else suc depth) s in
    omega arith

pub skip_rest-Shrinks : (s : Bytes) → length (skip_rest s) ≤ length s
unfolding skip_rest
skip_rest-Shrinks s = ground (
  arith,
  skip_nested-Shrinks b'{' b'}' 1 s,
  skip_nested-Shrinks b'[' b']' 1 s,
  skip_scalar-Shrinks s,
)

-- A key and its colon take at least one byte of the text.
abbrev pub KeyShrinks : Key → ℕ → Type 0
KeyShrinks (stop rest) n = length rest ≤ n
KeyShrinks (key k rest) n = length rest < n

pub next_key-KeyShrinks : (s : Bytes) → KeyShrinks (next_key s) (length s)
unfolding next_key
next_key-KeyShrinks s =
    let rest = skip_whitespace s in
    let k = read_string rest in
    let spaces = skip_whitespace-Shrinks s in
    let text = read_string-Shrinks rest in
    let some_text = read_string-some rest in let colon = match_char-Shrinks b':' k.1 in ground arith
