-- ===== src/Json/Values/Skip.antt =====
-- How `SkipJsonValue` of src/bot_info.cpp passes over a value.
use cs2_bot_identity.Base.{
  ℕ, suc, ◌+◌, ◌-◌, ◌≤◌, ◌≡◌, ◌∙◌, refl, ◌==◌, inl, inr, Bool, true, false, not, ◌&&◌, ◌||◌,
  &&_true, Bool-cases, [], ◌∷◌, ◌++◌, Bytes, arith, length, length-append, ltb, is_empty,
}
use cs2_bot_identity.BotInfo.Text.{is_blank}
use cs2_bot_identity.Json.{
  skip_whitespace, match_char, done, skip_plain, opens, deeper, skip_deep, skip_json_value,
}
use cs2_bot_identity.Json.Print.{no_quote, sign, past_gap, match_char-sign, read_string-text}
use cs2_bot_identity.Json.Values.{
  Inside, nothing, char_then, text_then, brackets_then, opening, closing, print_inside, IsInside,
  inside_nothing, inside_char, inside_text, inside_brackets, Value, is_text, is_word, is_brackets,
  no_end, IsValue, value_text, value_word, value_brackets, print_value, rounds,
}

skip_plain-comma : (rest : Bytes) → skip_plain (b',' ∷ rest) ≡ b',' ∷ rest
unfolding skip_plain
skip_plain-comma rest = refl

opens_open : (braces : Bool) → opens (opening braces) ≡ true
opens_open true = refl
opens_open false = refl

opens_solid : (braces : Bool) → is_blank (opening braces) ≡ false
opens_solid true = refl
opens_solid false = refl

opens_plain : (braces : Bool) → (opening braces == b'"') ≡ false
opens_plain true = refl
opens_plain false = refl

closes_plain : (braces : Bool) → (closing braces == b'"') ≡ false
closes_plain true = refl
closes_plain false = refl

opens_one : (braces : Bool) (d : ℕ) → deeper (opening braces) d ≡ suc d
opens_one true d = omega arith
opens_one false d = omega arith

closes_one : (braces : Bool) (d : ℕ) → deeper (closing braces) (suc d) ≡ d
closes_one true d = omega arith
closes_one false d = omega arith

inside-some : (i : Inside) (c : ℕ) (rest : Bytes) → is_empty (print_inside i (c ∷ rest)) ≡ false
unfolding print_inside
inside-some nothing c rest = refl
inside-some (char_then x i) c rest = refl
inside-some (text_then s i) c rest = refl
inside-some (brackets_then braces inner i) c rest = refl

module _ {ℓ} {S : Type ℓ} (st : S) where
  -- One round over a character that is no quote, and that leaves a bracket open.
  skip_deep-char :
      (fuel depth d x : ℕ) (s : Bytes)
      → (x == b'"') ≡ false
      → deeper x depth ≡ suc d
      → is_empty s ≡ false
      → skip_deep (suc fuel) st depth (x ∷ s) ≡ skip_deep fuel st (suc d) s
  unfolding skip_deep
  skip_deep-char fuel depth d x s plain depth_is some_rest =
      let open_yet : ltb 0 (suc d) ≡ true = ground arith in
      rw (skip_deep, plain) (rw (depth_is, some_rest) (rw open_yet refl))

  skip_deep-text :
      (fuel d : ℕ) (s rest : Bytes)
      → no_quote s ≡ true
      → is_empty rest ≡ false
      → skip_deep (suc fuel) st (suc d) (b'"' ∷ (s ++ (b'"' ∷ rest)))
        ≡ skip_deep fuel st (suc d) rest
  unfolding skip_deep
  skip_deep-text fuel d s rest plain some_rest =
      let open_yet : ltb 0 (suc d) ≡ true = ground arith in
      rw (skip_deep, read_string-text s rest plain) (rw (some_rest, open_yet) refl)

  -- At depth `d + 1` the loop comes to what stands behind.
  skip_deep-inside :
      (i : Inside) (fuel d c : ℕ) (rest : Bytes)
      → IsInside i
      → skip_deep (rounds i + fuel) st (suc d) (print_inside i (c ∷ rest))
        ≡ skip_deep fuel st (suc d) (c ∷ rest)
  unfolding print_inside rounds
  skip_deep-inside nothing fuel d c rest inside_nothing =
      let none_used : 0 + fuel ≡ fuel = omega arith in rw none_used refl
  skip_deep-inside (char_then x i) fuel d c rest (inside_char e h) =
      let used : suc (rounds i) + fuel ≡ suc (rounds i + fuel) = omega arith in
      rw used (
        skip_deep-char (rounds i + fuel) (suc d) d x (print_inside i (c ∷ rest)) (ground arith)
          (ground arith) (inside-some i c rest)
        ∙ skip_deep-inside i fuel d c rest h)
  skip_deep-inside (text_then s i) fuel d c rest (inside_text e h) =
      let used : suc (rounds i) + fuel ≡ suc (rounds i + fuel) = omega arith in
      rw used (
        skip_deep-text (rounds i + fuel) d s (print_inside i (c ∷ rest)) e (inside-some i c rest)
        ∙ skip_deep-inside i fuel d c rest h)
  skip_deep-inside (brackets_then braces inner i) fuel d c rest (inside_brackets h h') =
      let more = print_inside i (c ∷ rest) in
      let used : suc (rounds inner + suc (rounds i)) + fuel
          ≡ suc (rounds inner + suc (rounds i + fuel)) =
        omega arith in
      rw used (
        skip_deep-char (rounds inner + suc (rounds i + fuel)) (suc d) (suc d) (opening braces)
          (print_inside inner (closing braces ∷ more)) (opens_plain braces)
          (opens_one braces (suc d)) (inside-some inner (closing braces) more)
        ∙ skip_deep-inside inner (suc (rounds i + fuel)) (suc d) (closing braces) more h
        ∙ skip_deep-char (rounds i + fuel) (suc (suc d)) d (closing braces) more
            (closes_plain braces) (closes_one braces (suc d)) (inside-some i c rest)
        ∙ skip_deep-inside i fuel d c rest h')

  -- The whole value, from its bracket on.
  skip_deep-brackets :
      (braces : Bool) (i : Inside) (f : ℕ) (rest : Bytes)
      → IsInside i
      → rounds i + 2 ≤ f
      → skip_deep f st 0 (opening braces ∷ print_inside i (closing braces ∷ rest)) ≡ done st rest
  unfolding skip_deep
  skip_deep-brackets braces i f rest h enough =
      let fuel = f - 2 - rounds i in
      let used : f ≡ suc (rounds i + suc fuel) = omega arith in
      let last_depth = closes_one braces 0 in
      let ends : (not (is_empty rest) && false) ≡ false = ground arith in
      let plain = closes_plain braces in
      rw used (
        skip_deep-char (rounds i + suc fuel) 0 0 (opening braces)
          (print_inside i (closing braces ∷ rest)) (opens_plain braces) (opens_one braces 0)
          (inside-some i (closing braces) rest)
        ∙ skip_deep-inside i (suc fuel) 0 (closing braces) rest h
        ∙ rw (skip_deep, plain) (rw last_depth (rw ends refl)))

skip_plain-no_end : (s t : Bytes) → no_end s ≡ true → skip_plain (s ++ t) ≡ skip_plain t
unfolding skip_plain no_end
skip_plain-no_end [] t e = refl
skip_plain-no_end (c ∷ s) t e =
    let (this, others) = &&_true (not ((c == b',') || (c == b'}') || (c == b']'))) (no_end s) e in
    let goes : ((c == b',') || (c == b'}') || (c == b']')) ≡ false = ground arith in
    rw (skip_plain, goes) (skip_plain-no_end s t others)

blank-no_end : (gap : Bytes) → skip_whitespace gap ≡ [] → no_end gap ≡ true
unfolding skip_whitespace no_end
blank-no_end [] e = refl
blank-no_end (c ∷ gap) e = elim (Bool-cases (is_blank c)) [
  | inl b ↦
      let e' : skip_whitespace gap ≡ [] = rw (b, skip_whitespace) at e in
      let goes : ((c == b',') || (c == b'}') || (c == b']')) ≡ false = ground arith in
      rw goes (blank-no_end gap e')
  | inr b ↦ let e' : c ∷ gap ≡ [] = rw (b, skip_whitespace) at e in cc
]

rounds-print_inside :
    (i : Inside) (rest : Bytes) → rounds i + length rest ≤ length (print_inside i rest)
unfolding rounds print_inside
rounds-print_inside nothing rest = omega arith
rounds-print_inside (char_then c i) rest = omega (arith, rounds-print_inside i rest)
rounds-print_inside (text_then s i) rest =
    omega (arith, rounds-print_inside i rest, length-append s (b'"' ∷ print_inside i rest))
rounds-print_inside (brackets_then braces inner i) rest = omega (
  arith,
  rounds-print_inside i rest,
  rounds-print_inside inner (closing braces ∷ print_inside i rest),
)

pub print_value-length :
    (gap : Bytes) (v : Value) (rest : Bytes) → length rest ≤ length (print_value gap v rest)
unfolding print_value
print_value-length gap (is_text s) rest =
    omega (arith, length-append gap (b'"' ∷ (s ++ (b'"' ∷ rest))), length-append s (b'"' ∷ rest))
print_value-length gap (is_word s) rest =
    omega (arith, length-append gap (s ++ rest), length-append s rest)
print_value-length gap (is_brackets braces i) rest = omega (
  arith,
  length-append gap (opening braces ∷ print_inside i (closing braces ∷ rest)),
  rounds-print_inside i (closing braces ∷ rest),
)

module _ (gap : Bytes) (blank : skip_whitespace gap ≡ []) where
  -- Behind a value that a comma follows, the reader stands before the comma.
  pub skip_json_value-comma :
      {S : Type 0} (st : S) (v : Value) (fuel : ℕ) (rest : Bytes)
      → IsValue v
      → length (print_value gap v (sign gap b',' rest)) ≤ fuel
      → (r : Bytes) × (skip_json_value fuel st (print_value gap v (sign gap b',' rest)) ≡ done st r)
        × (match_char b',' r ≡ (true, rest))
  unfolding skip_json_value print_value skip_whitespace
  skip_json_value-comma st (is_text s) fuel rest (value_text e) enough =
      let behind = sign gap b',' rest in
      (
        behind,
        rw (past_gap gap blank (b'"' ∷ (s ++ (b'"' ∷ behind))) refl)
            (rw (read_string-text s behind e) refl),
        match_char-sign gap blank b',' rest refl,
      )
  skip_json_value-comma st (is_word []) fuel rest (value_word some_text solid no_text closed e)
        enough =
      cc
  skip_json_value-comma st (is_word (c ∷ s)) fuel rest (value_word some_text solid no_text closed e)
        enough =
      let behind = sign gap b',' rest in
      let stops : skip_plain (c ∷ (s ++ behind)) ≡ b',' ∷ rest =
        skip_plain-no_end (c ∷ s) behind e
        ∙ skip_plain-no_end gap (b',' ∷ rest) (blank-no_end gap blank)
        ∙ skip_plain-comma rest in
      (
        b',' ∷ rest,
        rw (past_gap gap blank (c ∷ (s ++ behind)) solid) (rw (no_text, closed) (rw stops refl)),
        match_char-sign [] refl b',' rest refl,
      )
  skip_json_value-comma st (is_brackets braces i) fuel rest (value_brackets h) enough =
      let behind = sign gap b',' rest in
      let body = opening braces ∷ print_inside i (closing braces ∷ behind) in
      let size = length-append gap body in
      let inner = rounds-print_inside i (closing braces ∷ behind) in
      let is_open = opens_open braces in
      let plain = opens_plain braces in
      (
        behind,
        rw (past_gap gap blank body (opens_solid braces))
            (rw (plain, is_open) (skip_deep-brackets st braces i fuel behind h (omega arith))),
        match_char-sign gap blank b',' rest refl,
      )
