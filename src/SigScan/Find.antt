-- ===== src/SigScan/Find.antt =====
-- src/entity_access.cpp, `FindPattern`: it returns the first place of the pattern, if there is one.
use cs2_bot_identity.Base.{
  ℕ, zero, suc, ◌+◌, ◌-◌, ◌≤◌, ◌<◌, ◌==◌, ◌≡◌, ◌≢◌, refl, inl, inr, Bool, true, false, not, ◌||◌,
  Option, none, some, List, [], ◌∷◌, Bool-cases, &&_true, ||_false, subst, ap, ltb, length,
  is_empty, get_elem?, Bytes, arith,
}
use cs2_bot_identity.Memory.{Memory}
use cs2_bot_identity.SigScan.{ModuleSegment, matches_at, scan_segment, scan_segments, find_pattern}

module _ (bytes : Memory) (pattern : Bytes) (wilds : List Bool) where
  -- Every byte of the pattern that is not wild stands at its place from the address on.
  abbrev pub StandsAt : ℕ → Type 0
  StandsAt a =
      (j v : ℕ) → get_elem? pattern j ≡ some v → get_elem? wilds j ≡ some false → bytes (a + j) ≡ v

  -- The pattern fits into the segment at the address.
  abbrev pub Within : ModuleSegment → ℕ → Type 0
  Within seg a = (seg.base ≢ 0) × (seg.base ≤ a) × (a + length pattern ≤ seg.base + seg.size)

  -- What is found in the segments: the first place in the first segment that has one.
  pub data Finds : List ModuleSegment → Option ℕ → Type 0 where
    nowhere : Finds [] none
    here :
        {seg : ModuleSegment} {segs : List ModuleSegment} {a : ℕ}
        → Within seg a
        → StandsAt a
        → ((b : ℕ) → seg.base ≤ b → b < a → ¬ (StandsAt b))
        → Finds (seg ∷ segs) (some a)
    later :
        {seg : ModuleSegment} {segs : List ModuleSegment} {r : Option ℕ}
        → ((b : ℕ) → Within seg b → ¬ (StandsAt b))
        → Finds segs r
        → Finds (seg ∷ segs) r

module _ (bytes : Memory) where
  matches_at-StandsAt :
      (a : ℕ) (pattern : Bytes) (wilds : List Bool)
      → matches_at bytes a pattern wilds ≡ true
      → StandsAt bytes pattern wilds a
  unfolding matches_at
  matches_at-StandsAt a [] wilds e j v at plain = cc
  matches_at-StandsAt a (x ∷ pattern) [] e j v at plain = cc
  matches_at-StandsAt a (x ∷ pattern) (w ∷ wilds) e zero v at plain =
      let place : a + 0 ≡ a = omega arith in rw place (ground arith)
  matches_at-StandsAt a (x ∷ pattern) (w ∷ wilds) e (suc j) v at plain =
      let rest = &&_true (w || (bytes a == x)) (matches_at bytes (a + 1) pattern wilds) e in
      let place : a + suc j ≡ a + 1 + j = omega arith in
      rw place (matches_at-StandsAt (a + 1) pattern wilds rest.1 j v at plain)

  StandsAt-matches_at :
      (a : ℕ) (pattern : Bytes) (wilds : List Bool)
      → StandsAt bytes pattern wilds a
      → matches_at bytes a pattern wilds ≡ true
  unfolding matches_at
  StandsAt-matches_at a [] wilds h = refl
  StandsAt-matches_at a (x ∷ pattern) [] h = refl
  StandsAt-matches_at a (x ∷ pattern) (w ∷ wilds) h =
      let rest = StandsAt-matches_at (a + 1) pattern wilds λ j v at plain.
        let place : a + suc j ≡ a + 1 + j = omega arith in rw place at (h (suc j) v at plain) in
      let place : a + 0 ≡ a = omega arith in
      let first_byte : w ≡ false → bytes a ≡ x =
        λ e. let at : some w ≡ some false = ap some e in rw place at (h 0 x refl at) in
      elim (Bool-cases w) [
        | inl e ↦ rw (e, rest) refl
        | inr e ↦ let same = first_byte e in rw (e, rest) (ground arith)
      ]

module _ (bytes : Memory) (pattern : Bytes) (wilds : List Bool) where
  -- What a scan of some addresses gives.
  abbrev Scanned : ℕ → ℕ → Option ℕ → Type 0
  Scanned rounds a none = (b : ℕ) → a ≤ b → b < a + rounds → ¬ (StandsAt bytes pattern wilds b)
  Scanned rounds a (some hit) =
      (a ≤ hit)
      × (hit < a + rounds)
      × StandsAt bytes pattern wilds hit
      × ((b : ℕ) → a ≤ b → b < hit → ¬ (StandsAt bytes pattern wilds b))

  -- An address at which the pattern does not stand may be left out in front.
  Scanned-later :
      (rounds a : ℕ) (r : Option ℕ)
      → ¬ (StandsAt bytes pattern wilds a)
      → Scanned rounds (a + 1) r
      → Scanned (suc rounds) a r
  Scanned-later rounds a none miss h = λ b low high stands. elim (Bool-cases (b == a)) [
    | inl e ↦
        let same : b ≡ a = ground arith in miss (subst (StandsAt bytes pattern wilds) same stands)
    | inr e ↦ let above : a + 1 ≤ b = ground arith in h b above (omega arith) stands
  ]
  Scanned-later rounds a (some hit) miss (low, high, stands, first_one) = (
    omega arith,
    omega arith,
    stands,
    λ b from_a below stands_b. elim (Bool-cases (b == a)) [
      | inl e ↦
          let same : b ≡ a = ground arith in
          miss (subst (StandsAt bytes pattern wilds) same stands_b)
      | inr e ↦ let above : a + 1 ≤ b = ground arith in first_one b above below stands_b
    ],
  )

  scan_segment-Scanned :
      (rounds a : ℕ) → Scanned rounds a (scan_segment bytes rounds a pattern wilds)
  unfolding scan_segment
  scan_segment-Scanned zero a = λ b low high stands. omega arith
  scan_segment-Scanned (suc rounds) a = elim (Bool-cases (matches_at bytes a pattern wilds)) [
    | inl e ↦ rw e (
      omega arith,
      omega arith,
      matches_at-StandsAt bytes a pattern wilds e,
      λ b low high stands. omega arith,
    )
    | inr e ↦ rw e (
        Scanned-later rounds a _
          (λ stands. let yes_it = StandsAt-matches_at bytes a pattern wilds stands in cc)
          (scan_segment-Scanned rounds (a + 1)))
  ]

  Scanned-Finds :
      (seg : ModuleSegment) (segs : List ModuleSegment) (r other : Option ℕ)
      → seg.base ≢ 0
      → length pattern ≤ seg.size
      → Scanned (seg.size + 1 - length pattern) seg.base r
      → Finds bytes pattern wilds segs other
      → Finds bytes pattern wilds (seg ∷ segs) (elim r [ some a ↦ some a | none ↦ other ])
  Scanned-Finds seg segs none other live fits h rest =
      later (λ b inside stands. h b inside.1 (omega arith) stands) rest
  Scanned-Finds seg segs (some a) other live fits (low, high, stands, first_one) rest =
      here (live, low, omega arith) stands first_one

  scan_segments-Finds :
      (segs : List ModuleSegment)
      → 0 < length pattern
      → Finds bytes pattern wilds segs (scan_segments bytes segs pattern wilds)
  unfolding scan_segments
  scan_segments-Finds [] some_pattern = nowhere
  scan_segments-Finds (seg ∷ segs) some_pattern =
      let rest = scan_segments-Finds segs some_pattern in
      elim (Bool-cases ((seg.base == 0) || ltb seg.size (length pattern))) [
        | inl e ↦ rw e (later (λ b inside stands. unusable seg b e inside) rest)
        | inr e ↦
            let (live, fits) = ||_false (seg.base == 0) (ltb seg.size (length pattern)) e in
            rw e (
              Scanned-Finds seg segs _ _ (λ z. ground arith) (ground arith)
                (scan_segment-Scanned (seg.size + 1 - length pattern) seg.base) rest)
      ]
    where
      unusable :
          (seg : ModuleSegment) (b : ℕ)
          → ((seg.base == 0) || ltb seg.size (length pattern)) ≡ true
          → Within bytes pattern wilds seg b
          → ⊥
      unusable seg b e (live, low, high) = ground arith

  -- For a pattern that is not empty and has a wildcard flag for each byte, `FindPattern` returns the
  -- first place of the pattern in the first segment that holds it, and null where none does.
  pub find_pattern-Finds :
      (segs : List ModuleSegment)
      → 0 < length pattern
      → length pattern ≡ length wilds
      → Finds bytes pattern wilds segs (find_pattern bytes segs pattern wilds)
  unfolding find_pattern
  find_pattern-Finds segs some_pattern same =
      let usable : (is_empty pattern || not (length pattern == length wilds)) ≡ false =
        usable_lem pattern wilds some_pattern same in
      rw usable (scan_segments-Finds segs some_pattern)
    where
      usable_lem :
          (p : Bytes) (w : List Bool)
          → 0 < length p
          → length p ≡ length w
          → (is_empty p || not (length p == length w)) ≡ false
      usable_lem [] w h e = absurd (omega arith)
      usable_lem (x ∷ p) w h e = ground arith
