-- ===== src/SigScan/RoundTrip.antt =====
-- src/entity_access.cpp, `ParseSigString`: it reads back a signature that was written in hexadecimal.
use cs2_bot_identity.Base.{
  ℕ, zero, suc, ◌+◌, ◌*◌, ◌/◌, ◌%◌, ◌<◌, ◌==◌, ◌≡◌, refl, ap, ◌∙◌, inl, inr, Bool, true, false,
  Option, none, some, List, [], ◌∷◌, map, Bool-cases, if◌then◌else◌, ltb, length, Bytes, arith,
}
use cs2_bot_identity.SigScan.{
  hex_value, hex_digits, is_space, skip_space, skip_prefix, strtoul16, parsed, push, is_byte,
  parse_loop, some_bytes, parse_sig_string,
}

-- A byte or a wildcard of a signature.
abbrev pub byte_of : Option ℕ → ℕ
byte_of none = 0
byte_of (some v) = v

abbrev pub is_wild : Option ℕ → Bool
is_wild none = true
is_wild (some v) = false

abbrev pub hex_digit : ℕ → ℕ
hex_digit d = if ltb d 10 then d + 48 else d + 55

-- The text of a signature: two digits for a byte, a question mark for a wildcard, and a space.
pub print_sig : List (Option ℕ) → Bytes
print_sig [] = []
print_sig (none ∷ es) = b'?' ∷ 32 ∷ print_sig es
print_sig (some v ∷ es) = hex_digit (v / 16) ∷ hex_digit (v % 16) ∷ 32 ∷ print_sig es

pub data AreSigns : List (Option ℕ) → Type 0 where
  no_signs : AreSigns []
  wild_sign : {es : List (Option ℕ)} → AreSigns es → AreSigns (none ∷ es)
  byte_sign : {v : ℕ} {es : List (Option ℕ)} → v < 256 → AreSigns es → AreSigns (some v ∷ es)

hex_value-hex_digit : (d : ℕ) → d < 16 → hex_value (hex_digit d) ≡ some d
hex_value-hex_digit d h = ground arith

-- A digit is no white space, sign or mark of a prefix.
digit_solid :
    (c d : ℕ)
    → hex_value c ≡ some d
    → (is_space c ≡ false)
      × ((c == b'-') ≡ false)
      × ((c == b'+') ≡ false)
      × ((c == b'x') ≡ false)
      × ((c == b'X') ≡ false)
      × ((c == 0) ≡ false)
      × ((c == 32) ≡ false)
      × ((c == b'?') ≡ false)
digit_solid c d e = ground arith

module _ (a b x y : ℕ) (ax : hex_value a ≡ some x) (bly : hex_value b ≡ some y) (rest : Bytes) where
  hex_digits-pair : hex_digits none (a ∷ b ∷ 32 ∷ rest) ≡ some (x * 16 + y, 32 ∷ rest)
  unfolding hex_digits
  hex_digits-pair = rw (ax, hex_digits) (rw (bly, hex_digits) refl)

  skip_prefix-pair : skip_prefix (a ∷ b ∷ 32 ∷ rest) ≡ a ∷ b ∷ 32 ∷ rest
  skip_prefix-pair =
      let low = digit_solid b y bly in
      let lower = low.3 in
      let upper = low.4 in
      elim (Bool-cases (a == b'0')) [ inl e ↦ rw (e, lower, upper) refl | inr e ↦ rw e refl ]

  strtoul16-digits : strtoul16 (a ∷ b ∷ 32 ∷ rest) ≡ some (x * 16 + y, 32 ∷ rest)
  unfolding strtoul16 skip_space
  strtoul16-digits =
      let high = digit_solid a x ax in
      let space = high.0 in
      let minus = high.1 in
      let plus = high.2 in rw space (rw (minus, plus) (rw skip_prefix-pair hex_digits-pair))

parse_loop-blank : (fuel : ℕ) (p : Bytes) → parse_loop (suc fuel) (32 ∷ p) ≡ parse_loop fuel p
unfolding parse_loop
parse_loop-blank fuel p = refl

-- A wildcard and the space behind it.
parse_loop-wild :
    (fuel : ℕ) (p : Bytes)
    → parse_loop (suc (suc fuel)) (b'?' ∷ 32 ∷ p) ≡ push 0 true (parse_loop fuel p)
unfolding parse_loop
parse_loop-wild fuel p = refl

-- A byte and the space behind it.
parse_loop-byte :
    (fuel v : ℕ) (p : Bytes)
    → v < 256
    → parse_loop (suc (suc fuel)) (hex_digit (v / 16) ∷ hex_digit (v % 16) ∷ 32 ∷ p)
      ≡ push v false (parse_loop fuel p)
unfolding parse_loop
parse_loop-byte fuel v p h =
    let a = hex_digit (v / 16) in
    let b = hex_digit (v % 16) in
    let ax = hex_value-hex_digit (v / 16) (omega arith) in
    let bly = hex_value-hex_digit (v % 16) (omega arith) in
    let high = digit_solid a (v / 16) ax in
    let nul = high.5 in
    let space = high.6 in
    let mark = high.7 in
    let value : v / 16 * 16 + v % 16 ≡ v = omega arith in
    let number = strtoul16-digits a b (v / 16) (v % 16) ax bly p in
    let fits : is_byte (a ∷ b ∷ 32 ∷ p) v (32 ∷ p) ≡ true = ground arith in
    step a b nul space mark (number ∙ ap (λ w. some (w, 32 ∷ p)) value) fits
  where
    step :
        (a b : ℕ)
        → (a == 0) ≡ false
        → (a == 32) ≡ false
        → (a == b'?') ≡ false
        → strtoul16 (a ∷ b ∷ 32 ∷ p) ≡ some (v, 32 ∷ p)
        → is_byte (a ∷ b ∷ 32 ∷ p) v (32 ∷ p) ≡ true
        → parse_loop (suc (suc fuel)) (a ∷ b ∷ 32 ∷ p) ≡ push v false (parse_loop fuel p)
    step a b nul space mark number fits =
        rw (nul, space, mark) (rw number (rw fits (rw (parse_loop-blank fuel p) refl)))

parse_loop-print_sig :
    (fuel : ℕ) (es : List (Option ℕ))
    → AreSigns es
    → length (print_sig es) < fuel
    → parse_loop fuel (print_sig es) ≡ parsed (map byte_of es) (map is_wild es)
unfolding print_sig
parse_loop-print_sig zero es s f = absurd (omega arith)
parse_loop-print_sig (suc fuel) [] s f = unfold parse_loop in refl
parse_loop-print_sig (suc zero) (none ∷ es) s f = absurd (omega arith)
parse_loop-print_sig (suc zero) (some v ∷ es) s f = absurd (omega arith)
parse_loop-print_sig (suc (suc fuel)) (none ∷ es) (wild_sign s) f =
    parse_loop-wild fuel (print_sig es)
    ∙ ap (push 0 true) (parse_loop-print_sig fuel es s (omega arith))
parse_loop-print_sig (suc (suc fuel)) (some v ∷ es) (byte_sign h s) f =
    parse_loop-byte fuel v (print_sig es) h
    ∙ ap (push v false) (parse_loop-print_sig fuel es s (omega arith))

-- A signature that was written in hexadecimal, with question marks for the bytes that are left open,
-- is parsed into exactly its bytes and wildcards.
pub parse_sig_string-print_sig :
    (e : Option ℕ) (es : List (Option ℕ))
    → AreSigns (e ∷ es)
    → parse_sig_string (print_sig (e ∷ es)) ≡ parsed (map byte_of (e ∷ es)) (map is_wild (e ∷ es))
unfolding parse_sig_string
parse_sig_string-print_sig e es s =
    ap some_bytes
      (parse_loop-print_sig (suc (length (print_sig (e ∷ es)))) (e ∷ es) s (omega arith))
