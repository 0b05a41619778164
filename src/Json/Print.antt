-- ===== src/Json/Print.antt =====
-- Texts as they stand in the JSON files, and what the reader of src/bot_info.cpp makes of each piece.
-- `gap` is the white space before each piece, and each piece is printed before a `rest`.
use cs2_bot_identity.Base.{
  ℕ, zero, suc, ◌+◌, ◌-◌, ◌*◌, ◌/◌, ◌%◌, ◌^◌, ◌<◌, ◌==◌, ◌≡◌, refl, ap, ◌∙◌, inl, inr, Bool, true,
  false, not, ◌&&◌, [], ◌∷◌, ◌++◌, Bool-cases, if◌then◌else◌, ltb, is_empty, Bytes, arith, &&_true,
}
use cs2_bot_identity.BotInfo.Text.{is_blank}
use cs2_bot_identity.Json.{
  first, skip_whitespace, match_char, quoted, read_string, is_digit, read_digits, read_uint64, stop,
  key, next_key,
}

-- The decimal digits of `n` before `rest`; the fuel is above `n`.
unfoldable pub digits : ℕ → ℕ → Bytes → Bytes
digits zero n rest = rest
digits (suc fuel) n rest =
    let more = digits fuel (n / 10) ((n % 10 + 48) ∷ rest) in
    if ltb n 10 then (n + 48) ∷ rest else more

abbrev pub decimal : ℕ → Bytes → Bytes
decimal n rest = digits (suc n) n rest

unfoldable pub no_quote : Bytes → Bool
no_quote [] = true
no_quote (c ∷ s) = not (c == b'"') && no_quote s

module _ (gap : Bytes) where
  -- A character, a string, a numeral, and a key with its colon.
  abbrev pub sign : ℕ → Bytes → Bytes
  sign c rest = gap ++ (c ∷ rest)

  abbrev pub text : Bytes → Bytes → Bytes
  text s rest = sign b'"' (s ++ (b'"' ∷ rest))

  abbrev pub numeral : ℕ → Bytes → Bytes
  numeral n rest = gap ++ decimal n rest

  abbrev pub member : Bytes → Bytes → Bytes
  member k rest = text k (sign b':' rest)

pub digits_lead :
    (fuel n : ℕ) (rest : Bytes) → n < fuel → is_digit (first (digits fuel n rest)) ≡ true
unfolding digits
digits_lead zero n rest h = absurd (omega arith)
digits_lead (suc fuel) n rest h = elim (Bool-cases (ltb n 10)) [
  | inl e ↦ rw e (ground arith)
  | inr e ↦
      let smaller : n / 10 < fuel = ground arith in
      rw e (digits_lead fuel (n / 10) ((n % 10 + 48) ∷ rest) smaller)
]

read_digit :
    (v c : ℕ) (rest : Bytes)
    → is_digit c ≡ true
    → read_digits v (c ∷ rest) ≡ read_digits ((v * 10 + (c - 48)) % 2 ^ 64) rest
unfolding read_digits
read_digit v c rest e = rw (e, read_digits) refl

-- A numeral is read as its value, modulo 2^64.
read_digits-digits :
    (fuel n : ℕ) (rest : Bytes)
    → n < fuel
    → read_digits 0 (digits fuel n rest) ≡ read_digits (n % 2 ^ 64) rest
unfolding digits
read_digits-digits zero n rest h = absurd (omega arith)
read_digits-digits (suc fuel) n rest h = elim (Bool-cases (ltb n 10)) [
  | inl e ↦
      let value : (0 * 10 + (n + 48 - 48)) % 2 ^ 64 ≡ n % 2 ^ 64 = omega arith in
      rw e (read_digit 0 (n + 48) rest (ground arith) ∙ ap (λ v. read_digits v rest) value)
  | inr e ↦
      let smaller : n / 10 < fuel = ground arith in
      let value : ((n / 10) % 2 ^ 64 * 10 + (n % 10 + 48 - 48)) % 2 ^ 64 ≡ n % 2 ^ 64 =
        omega arith in
      rw e (
        read_digits-digits fuel (n / 10) ((n % 10 + 48) ∷ rest) smaller
        ∙ read_digit ((n / 10) % 2 ^ 64) (n % 10 + 48) rest (ground arith)
        ∙ ap (λ v. read_digits v rest) value)
]

read_digits_end :
    (v : ℕ) (rest : Bytes) → is_digit (first rest) ≡ false → read_digits v rest ≡ (v, rest)
unfolding read_digits
read_digits_end v [] e = refl
read_digits_end v (c ∷ s) e = rw (e, read_digits) refl

skip_whitespace-solid : (s : Bytes) → is_blank (first s) ≡ false → skip_whitespace s ≡ s
unfolding skip_whitespace
skip_whitespace-solid [] e = refl
skip_whitespace-solid (c ∷ s) e = rw (e, skip_whitespace) refl

skip_whitespace-append :
    (gap s : Bytes) → skip_whitespace gap ≡ [] → skip_whitespace (gap ++ s) ≡ skip_whitespace s
unfolding skip_whitespace
skip_whitespace-append [] s e = refl
skip_whitespace-append (c ∷ gap) s e = elim (Bool-cases (is_blank c)) [
  | inl b ↦
      let e' : skip_whitespace gap ≡ [] = rw (b, skip_whitespace) at e in
      rw (b, skip_whitespace) (skip_whitespace-append gap s e')
  | inr b ↦ let e' : c ∷ gap ≡ [] = rw (b, skip_whitespace) at e in cc
]

digit_solid : (c : ℕ) → is_digit c ≡ true → is_blank c ≡ false
digit_solid c h = ground arith

quoted-text : (s rest : Bytes) → no_quote s ≡ true → quoted (s ++ (b'"' ∷ rest)) ≡ (s, rest)
unfolding quoted no_quote
quoted-text [] rest e = refl
quoted-text (c ∷ s) rest e =
    let (this, others) = &&_true (not (c == b'"')) (no_quote s) e in
    let other : (c == b'"') ≡ false = ground arith in rw (other, quoted-text s rest others) refl

pub read_string-text :
    (s rest : Bytes) → no_quote s ≡ true → read_string (b'"' ∷ (s ++ (b'"' ∷ rest))) ≡ (s, rest)
unfolding read_string match_char skip_whitespace
read_string-text s rest e = quoted-text s rest e

module _ (gap : Bytes) (blank : skip_whitespace gap ≡ []) where
  -- Behind the gap stands what is not a blank.
  pub past_gap : (s : Bytes) → is_blank (first s) ≡ false → skip_whitespace (gap ++ s) ≡ s
  past_gap s e = skip_whitespace-append gap s blank ∙ skip_whitespace-solid s e

  pub match_char-sign :
      (c : ℕ) (rest : Bytes) → is_blank c ≡ false → match_char c (sign gap c rest) ≡ (true, rest)
  unfolding match_char
  match_char-sign c rest e =
      let same : (c == c) ≡ true = ground arith in rw (past_gap (c ∷ rest) e, same) refl

  pub match_char-other :
      (c d : ℕ) (rest : Bytes)
      → is_blank d ≡ false
      → (d == c) ≡ false
      → match_char c (sign gap d rest) ≡ (false, d ∷ rest)
  unfolding match_char
  match_char-other c d rest e other = rw (past_gap (d ∷ rest) e, other) refl

  -- `ReadUInt64` reads a decimal numeral of any length modulo 2^64 and stops behind it.
  pub read_uint64-numeral :
      (n : ℕ) (rest : Bytes)
      → is_digit (first rest) ≡ false
      → read_uint64 (numeral gap n rest) ≡ (n % 2 ^ 64, rest)
  unfolding read_uint64
  read_uint64-numeral n rest e =
      let lead = digits_lead (suc n) n rest (omega arith) in
      let solid = digit_solid (first (decimal n rest)) lead in
      rw (past_gap (decimal n rest) solid)
        (read_digits-digits (suc n) n rest (omega arith) ∙ read_digits_end (n % 2 ^ 64) rest e)

  -- `ReadString` reads what stands between two quotes.
  pub read_string-gap-text :
      (s rest : Bytes) → no_quote s ≡ true → read_string (text gap s rest) ≡ (s, rest)
  unfolding read_string
  read_string-gap-text s rest e =
      rw (match_char-sign b'"' (s ++ (b'"' ∷ rest)) refl) (quoted-text s rest e)

  pub next_key-member :
      (k rest : Bytes)
      → no_quote k ≡ true
      → is_empty k ≡ false
      → next_key (member gap k rest) ≡ key k rest
  unfolding next_key
  next_key-member k rest plain some_key =
      let behind = sign gap b':' rest in
      rw (past_gap (b'"' ∷ (k ++ (b'"' ∷ behind))) refl, read_string-text k behind plain, some_key)
        (rw (match_char-sign b':' rest refl) refl)

  pub next_key-end : (rest : Bytes) → next_key (sign gap b'}' rest) ≡ stop (b'}' ∷ rest)
  unfolding next_key
  next_key-end rest = rw (past_gap (b'}' ∷ rest) refl) refl
