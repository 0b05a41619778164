-- ===== src/Json/Kept.antt =====
-- The loops of the reader of src/bot_info.cpp with enough fuel: they end, further on in the text, in
-- a state that has every property that the handlers keep.
use cs2_bot_identity.Base.{
  ℕ, zero, suc, ◌≤◌, ◌<◌, ◌==◌, ◌≡◌, ◌&&◌, not, inl, inr, [], ◌∷◌, Bool-cases, ltb, if◌then◌else◌,
  refl, subst, length, is_empty, Bytes, arith,
}
use cs2_bot_identity.Json.Shrinks.{
  match_char-Shrinks, match_char-passes, read_string-Shrinks, read_string-passes,
  skip_plain-Shrinks, skip_whitespace-Shrinks, next_key-KeyShrinks, KeyShrinks, skip_rest-Shrinks,
}
use cs2_bot_identity.Json.{
  first, skip_whitespace, match_char, read_string, opens, deeper, Run, out_of_fuel, done, bind,
  skip_deep, skip_json_value, Key, stop, key, next_key, Handler, comma, members, object, skip_rest,
  read_block,
}

-- It ended in a state with `P`, with at most `n` bytes left.
abbrev pub Ends {ℓ} : {S : Type ℓ} → (S → Type 0) → ℕ → Run S → Type 0
Ends P n out_of_fuel = ⊥
Ends P n (done st s) = P st × (length s ≤ n)

-- A string's opening quote is passed.
quote_passes : (s : Bytes) → length (read_string (b'"' ∷ s)).1 < length (b'"' ∷ s)
unfolding match_char skip_whitespace
quote_passes s = read_string-passes (b'"' ∷ s) refl

moved :
    (c : ℕ) (s : Bytes) → length (if c == b'"' then (read_string (c ∷ s)).1 else s) < length (c ∷ s)
moved c s = elim (Bool-cases (c == b'"')) [
  | inl e ↦
      let same : b'"' ≡ c = ground arith in
      rw e (subst (λ q. length (read_string (q ∷ s)).1 < length (q ∷ s)) same (quote_passes s))
  | inr e ↦ rw e (omega arith)
]

module _ {ℓ} {S : Type ℓ} (P : S → Type 0) where
  pub Ends-le : {n k : ℕ} (r : Run S) → Ends P n r → n ≤ k → Ends P k r
  Ends-le out_of_fuel e h = absurd e
  Ends-le (done st s) (p, l) h = (p, omega arith)

  pub Ends-bind {κ} :
      {T : Type κ} (Q : T → Type 0) (n k : ℕ) (r : Run S) (f : S → Bytes → Run T)
      → Ends P n r
      → ((st : S) (s : Bytes) → P st → length s ≤ n → Ends Q k (f st s))
      → Ends Q k (bind r f)
  Ends-bind Q n k out_of_fuel f e h = absurd e
  Ends-bind Q n k (done st s) f (p, l) h = h st s p l

  pub skip_deep-Ends :
      (fuel : ℕ) (st : S) (depth : ℕ) (s : Bytes)
      → length s < fuel
      → P st
      → Ends P (length s) (skip_deep fuel st depth s)
  unfolding skip_deep
  skip_deep-Ends zero st depth s h p = absurd (omega arith)
  skip_deep-Ends (suc fuel) st depth [] h p = (p, omega arith)
  skip_deep-Ends (suc fuel) st depth (c ∷ s) h p =
      let depth' = if c == b'"' then depth else deeper c depth in
      let rest = if c == b'"' then (read_string (c ∷ s)).1 else s in
      let shorter = moved c s in
      let more = skip_deep-Ends fuel st depth' rest (omega arith) p in
      elim (Bool-cases (not (is_empty rest) && ltb 0 depth')) [
        | inl e ↦ rw e (Ends-le (skip_deep fuel st depth' rest) more (omega arith))
        | inr e ↦ rw e (p, omega arith)
      ]

  pub skip_json_value-Ends :
      (fuel : ℕ) (st : S) (s : Bytes)
      → length s < fuel
      → P st
      → Ends P (length s) (skip_json_value fuel st s)
  unfolding skip_json_value
  skip_json_value-Ends fuel st s h p =
      let rest = skip_whitespace s in
      let spaces = skip_whitespace-Shrinks s in
      elim (Bool-cases (first rest == b'"')) [
        | inl e ↦ rw e (p, omega (arith, read_string-Shrinks rest))
        | inr e ↦ rw e (elim (Bool-cases (opens (first rest))) [
          | inl o ↦ rw o (
              Ends-le (skip_deep fuel st 0 rest) (skip_deep-Ends fuel st 0 rest (omega arith) p)
                spaces)
          | inr o ↦ rw o (p, omega (arith, skip_plain-Shrinks rest))
        ])
      ]

  pub comma-Ends :
      (loop : S → Bytes → Run S) (n : ℕ) (st : S) (s : Bytes)
      → ((st' : S) (r : Bytes) → length r < n → P st' → Ends P (length r) (loop st' r))
      → length s ≤ n
      → P st
      → Ends P n (comma loop st s)
  unfolding comma
  comma-Ends loop n st s h l p =
      let m = match_char b',' s in
      elim (Bool-cases m.0) [
        | inl e ↦ rw e (
            let passed = match_char-passes b',' s (omega arith) e in
            Ends-le (loop st m.1) (h st m.1 (omega arith) p) (omega arith))
        | inr e ↦ rw e (p, omega (arith, match_char-Shrinks b',' s))
      ]

  -- The handler keeps `P` on every text that is shorter than `bound`, and does not move back.
  abbrev pub Keeps : ℕ → Handler S → Type ℓ
  Keeps bound h =
      (k : Bytes) (st : S) (r : Bytes) → length r < bound → P st → Ends P (length r) (h k st r)

  pub members-Ends :
      (fuel bound : ℕ) (h : Handler S) (st : S) (s : Bytes)
      → Keeps bound h
      → length s < fuel
      → length s ≤ bound
      → P st
      → Ends P (length s) (members fuel h st s)
  unfolding members
  members-Ends zero bound h st s keep f b p = absurd (omega arith)
  members-Ends (suc fuel) bound h st s keep f b p =
      from (next_key s) (next_key-KeyShrinks s)
        λ st' r l. members-Ends fuel bound h st' r keep (omega arith) (omega arith)
    where
      from :
          (k : Key)
          → KeyShrinks k (length s)
          → ((st' : S) (r : Bytes)
              → length r < length s
              → P st'
              → Ends P (length r) (members fuel h st' r))
          → Ends P (length s) (elim k [
            | stop rest ↦ done st rest
            | key k r ↦ bind (h k st r) (comma (members fuel h))
          ])
      from (stop rest) l more = (p, l)
      from (key k r) l more =
          Ends-bind P (length r) (length s) (h k st r) (comma (members fuel h))
            (keep k st r (omega arith) p)
            λ st' r' p' l'. comma-Ends (members fuel h) (length s) st' r' more (omega arith) p'

  pub object-Ends :
      (fuel : ℕ) (h : Handler S) (st : S) (s : Bytes)
      → Keeps fuel h
      → length s < fuel
      → P st
      → Ends P (length s) (object fuel h st s)
  unfolding object
  object-Ends fuel h st s keep f p =
      let m = match_char b'{' s in
      let opened = match_char-Shrinks b'{' s in
      elim (Bool-cases m.0) [
        | inl e ↦ rw e (
            Ends-bind P (length m.1) (length s) (members fuel h st m.1)
              (λ st' r. done st' (match_char b'}' r).1)
              (members-Ends fuel fuel h st m.1 keep (omega arith) (omega arith) p)
              (λ st' r p' l. (p', omega (arith, match_char-Shrinks b'}' r))))
        | inr e ↦ rw e (p, opened)
      ]

  pub read_block-Ends :
      (fuel : ℕ) (on_key : Handler S) (st : S) (s : Bytes)
      → Keeps fuel on_key
      → length s < fuel
      → P st
      → Ends P (length s) (read_block fuel on_key st s)
  unfolding read_block
  read_block-Ends fuel on_key st s keep = object-Ends fuel _ st s λ k st' r l p.
      Ends-bind P (length r) (length r) (on_key k st' r) (λ st'' r'. done st'' (skip_rest r'))
        (keep k st' r l p) λ st'' r' p' l'. (p', omega (arith, skip_rest-Shrinks r'))
