-- ===== src/Gamedata/Values.antt =====
-- src/entity_access.cpp, `ReadOffset` and `LoadGamedata`: which number an entry gives, and a file
-- that gives none.
use cs2_bot_identity.Base.{
  ℕ, zero, suc, ◌+◌, ◌-◌, ◌*◌, ◌/◌, ◌%◌, ◌^◌, ◌<◌, ◌==◌, ◌≡◌, refl, ap, ◌∙◌, inl, inr, pos,
  minus_one, Bool, true, false, ◌||◌, none, some, [], ◌∷◌, ◌++◌, Bool-cases, Option-cases, ltb,
  drop, length, is_empty, Bytes, arith, codes,
}
use cs2_bot_identity.Json.{first, is_digit}
use cs2_bot_identity.Json.Print.{digits, decimal, digits_lead}
use cs2_bot_identity.Memory.{to_int32}
use cs2_bot_identity.SscOps.{Offsets}
use cs2_bot_identity.Gamedata.{
  starts_with, find, skip_spaces, quote_key, linux_value, read_number, read_signed, read_offset,
  read_linux_string, Gamedata, try_apply, apply_offsets, load_gamedata,
}

-- The first place where `k` stands in the text is `i`.
pub record FirstAt (k : Bytes) (i : ℕ) (s : Bytes) : Type 0 where
  pub stands : starts_with k (drop i s) ≡ true
  pub nowhere_before : (j : ℕ) → j < i → starts_with k (drop j s) ≡ false
  pub inside : i < length s

find-FirstAt :
    (k : Bytes) (i : ℕ) (s : Bytes)
    → starts_with k (drop i s) ≡ true
    → ((j : ℕ) → j < i → starts_with k (drop j s) ≡ false)
    → i < length s
    → find k s ≡ some (drop i s)
unfolding find
find-FirstAt k i [] stands before inside = absurd (omega arith)
find-FirstAt k zero (c ∷ s) stands before inside = rw stands refl
find-FirstAt k (suc i) (c ∷ s) stands before inside =
    rw (before 0 (omega arith))
      (find-FirstAt k i s stands (λ j l. before (suc j) (omega arith)) (omega arith))

read_number-step :
    (n c : ℕ) (any : Bool) (s : Bytes)
    → is_digit c ≡ true
    → read_number n any (c ∷ s) ≡ read_number ((n * 10 + (c - 48)) % 2 ^ 32) true s
unfolding read_number
read_number-step n c any s e = rw e refl

read_number_end :
    (n : ℕ) (any : Bool) (s : Bytes) → is_digit (first s) ≡ false → read_number n any s ≡ (n, any)
unfolding read_number
read_number_end n any [] e = refl
read_number_end n any (c ∷ s) e = rw e refl

read_number-digits :
    (fuel n : ℕ) (any : Bool) (rest : Bytes)
    → n < fuel
    → read_number 0 any (digits fuel n rest) ≡ read_number (n % 2 ^ 32) true rest
unfolding digits
read_number-digits zero n any rest h = absurd (omega arith)
read_number-digits (suc fuel) n any rest h = elim (Bool-cases (ltb n 10)) [
  | inl e ↦
      let value : (0 * 10 + (n + 48 - 48)) % 2 ^ 32 ≡ n % 2 ^ 32 = omega arith in
      rw e (
        read_number-step 0 (n + 48) any rest (ground arith)
        ∙ ap (λ v. read_number v true rest) value)
  | inr e ↦
      let smaller : n / 10 < fuel = ground arith in
      let value : ((n / 10) % 2 ^ 32 * 10 + (n % 10 + 48 - 48)) % 2 ^ 32 ≡ n % 2 ^ 32 =
        omega arith in
      rw e (
        read_number-digits fuel (n / 10) any ((n % 10 + 48) ∷ rest) smaller
        ∙ read_number-step ((n / 10) % 2 ^ 32) (n % 10 + 48) true rest (ground arith)
        ∙ ap (λ v. read_number v true rest) value)
]

read_signed-digits :
    (n : ℕ) (rest : Bytes)
    → n < 2 ^ 31
    → is_digit (first rest) ≡ false
    → read_signed (decimal n rest) ≡ pos n
unfolding read_signed
read_signed-digits n rest h e =
    let lead = digits_lead (suc n) n rest (omega arith) in
    let unsigned : (first (decimal n rest) == b'-') ≡ false = ground arith in
    let number =
      read_number-digits (suc n) n false rest (omega arith)
      ∙ read_number_end (n % 2 ^ 32) true rest e in
    let value : to_int32 (n % 2 ^ 32) ≡ pos n = ground arith in rw unsigned (rw number value)

skip_spaces-solid : (s : Bytes) → ((first s == 32) || (first s == 9)) ≡ false → skip_spaces s ≡ s
unfolding skip_spaces
skip_spaces-solid [] e = refl
skip_spaces-solid (c ∷ s) e = rw e refl

skip_spaces-append :
    (spaces s : Bytes) → skip_spaces spaces ≡ [] → skip_spaces s ≡ s → skip_spaces (spaces ++ s) ≡ s
unfolding skip_spaces
skip_spaces-append [] s blank solid = solid
skip_spaces-append (c ∷ spaces) s blank solid = elim (Bool-cases ((c == 32) || (c == 9))) [
  | inl e ↦
      let blank' : skip_spaces spaces ≡ [] = rw e at blank in
      rw e (skip_spaces-append spaces s blank' solid)
  | inr e ↦ let never : c ∷ spaces ≡ [] = rw e at blank in cc
]

numeral-solid : (n : ℕ) (rest : Bytes) → skip_spaces (decimal n rest) ≡ decimal n rest
numeral-solid n rest =
    let lead = digits_lead (suc n) n rest (omega arith) in
    skip_spaces-solid (decimal n rest) (solid (first (decimal n rest)) lead)
  where
    solid : (c : ℕ) → is_digit c ≡ true → ((c == 32) || (c == 9)) ≡ false
    solid c e = ground arith

-- `ReadOffset` gives the number behind the first colon behind the first `"linux"` behind the first
-- place of the key, if it is a numeral below 2^31; spaces and tabs may stand before it.
pub read_offset-number :
    (json k spaces rest : Bytes) (at_key at_linux at_colon n : ℕ)
    → FirstAt (quote_key k) at_key json
    → FirstAt (codes "\"linux\"") at_linux (drop at_key json)
    → FirstAt (codes ":") at_colon (drop at_linux (drop at_key json))
    → drop 1 (drop at_colon (drop at_linux (drop at_key json))) ≡ spaces ++ decimal n rest
    → skip_spaces spaces ≡ []
    → n < 2 ^ 31
    → is_digit (first rest) ≡ false
    → read_offset json k ≡ pos n
unfolding read_offset linux_value
read_offset-number json k spaces rest at_key at_linux at_colon n key_at linux_at colon_at value
      blank small stop =
    let found_key =
      find-FirstAt (quote_key k) at_key json key_at.stands key_at.nowhere_before key_at.inside in
    let found_linux =
      find-FirstAt _ at_linux (drop at_key json) linux_at.stands linux_at.nowhere_before
        linux_at.inside in
    let found_colon =
      find-FirstAt _ at_colon (drop at_linux (drop at_key json)) colon_at.stands
        colon_at.nowhere_before colon_at.inside in
    let spaced = skip_spaces-append spaces (decimal n rest) blank (numeral-solid n rest) in
    rw (found_key, read_offset)
      (rw found_linux (rw found_colon (rw (value, spaced) (read_signed-digits n rest small stop))))

-- A text has no more of what it has nowhere once a key was found in it.
find-none : (k l s found : Bytes) → find k s ≡ some found → find l s ≡ none → find l found ≡ none
unfolding find
find-none k l [] found hit miss = elim (Bool-cases (is_empty k)) [
  | inl e ↦
      let hit' : some [] ≡ some found = rw e at hit in
      let same : [] ≡ found = cc in rw (← same) miss
  | inr e ↦ let hit' : none ≡ some found = rw e at hit in cc
]
find-none k l (c ∷ s) found hit miss = elim (Bool-cases (starts_with k (c ∷ s))) [
  | inl e ↦
      let hit' : some (c ∷ s) ≡ some found = rw e at hit in
      let same : c ∷ s ≡ found = cc in rw (← same) miss
  | inr e ↦
      let hit' : find k s ≡ some found = rw e at hit in
      find-none k l s found hit' (tail_miss l c s miss)
]
  where
    tail_miss : (l : Bytes) (c : ℕ) (s : Bytes) → find l (c ∷ s) ≡ none → find l s ≡ none
    tail_miss l c s miss = elim (Bool-cases (starts_with l (c ∷ s))) [
      | inl e ↦ let miss' : some (c ∷ s) ≡ none = rw e at miss in cc
      | inr e ↦ rw e at miss
    ]

module _ (json : Bytes) (no_linux : find (codes "\"linux\"") json ≡ none) where
  linux_value-none : (k : Bytes) → linux_value json k ≡ none
  unfolding linux_value
  linux_value-none k = elim (Option-cases (find (quote_key k) json)) [
    | inl e ↦ rw e refl
    | inr (s, e) ↦ rw e (rw (find-none (quote_key k) _ json s e no_linux) refl)
  ]

  read_offset-none : (k : Bytes) → read_offset json k ≡ minus_one
  unfolding read_offset
  read_offset-none k = rw (linux_value-none k, read_offset) refl

  try_apply-none : (k : Bytes) (target : ℕ) → try_apply json k target ≡ target
  unfolding try_apply
  try_apply-none k target = rw (read_offset-none k, try_apply) refl

  read_linux_string-none : (k : Bytes) → read_linux_string json k ≡ []
  unfolding read_linux_string
  read_linux_string-none k = rw (linux_value-none k, read_linux_string) refl

  apply_offsets-none : (o : Offsets) → apply_offsets json o ≡ o
  unfolding apply_offsets
  apply_offsets-none o = simp (try_apply-none)

  -- A gamedata file in which no `"linux"` stands changes neither an offset nor the signature.
  pub load_gamedata-unchanged : (g : Gamedata) → load_gamedata (some json) g ≡ g
  unfolding load_gamedata
  load_gamedata-unchanged g = simp (try_apply-none, read_linux_string-none, apply_offsets-none)
