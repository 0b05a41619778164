-- ===== src/VoteScan/Skip.antt =====
-- src/vote_transaction.cpp, `scanRegion`: the rounds of its loop that find nothing.
use cs2_bot_identity.Base.{
  ℕ, zero, suc, ◌+◌, ◌<◌, ◌≤◌, ◌≡◌, ◌∙◌, refl, sym, ap, arith, Bool, true, false, List, ◌==◌, leb,
  Bool-cases, inl, inr,
}
use cs2_bot_identity.Memory.{Memory, read_le, write_le}
use cs2_bot_identity.VoteScan.{SteamIdCopy, scan_loop, note_copy}

module _ (nbytes : ℕ) (on_controller : Bool) (target : ℕ) (m : Memory) (cs : List SteamIdCopy) where
  -- A run of `k` offsets without a hit is passed over.
  pub scan_loop-skip :
      (k f fuel off : ℕ)
      → f ≡ k + fuel
      → off + k + 7 ≤ nbytes
      → ((j : ℕ) → off ≤ j → j < off + k → read_le 8 m j ≡ target → ⊥)
      → scan_loop f nbytes on_controller target off m cs
        ≡ scan_loop fuel nbytes on_controller target (off + k) m cs
  unfolding scan_loop
  scan_loop-skip zero f fuel off f_is fits none_hit =
      let f_is' : f ≡ fuel = omega arith in
      let off_is : off + 0 ≡ off = omega arith in rw (f_is', off_is) refl
  scan_loop-skip (suc k) zero fuel off f_is fits none_hit = absurd (omega arith)
  scan_loop-skip (suc k) (suc f) fuel off f_is fits none_hit =
      let inside : leb (off + 8) nbytes ≡ true = ground arith in
      let miss : (read_le 8 m off == target) ≡ false =
        elim (Bool-cases (read_le 8 m off == target)) [
          | inl hit ↦ absurd (none_hit off (omega arith) (omega arith) (ground arith))
          | inr miss ↦ miss
        ] in
      let off_is : off + suc k ≡ off + 1 + k = omega arith in
      let step : scan_loop (suc f) nbytes on_controller target off m cs
          ≡ scan_loop f nbytes on_controller target (off + 1) m cs =
        rw (inside, miss, scan_loop) refl in
      step
      ∙ scan_loop-skip k f fuel (off + 1) (omega arith) (omega arith)
          (λ j from to. none_hit j (omega arith) (omega arith))
      ∙ ap (λ o. scan_loop fuel nbytes on_controller target o m cs) (sym off_is)

  -- With no hit from some offset on, the loop ends with what it had.
  pub scan_loop-rest :
      (f off : ℕ)
      → ((j : ℕ) → off ≤ j → read_le 8 m j ≡ target → ⊥)
      → scan_loop f nbytes on_controller target off m cs ≡ (m, cs)
  unfolding scan_loop
  scan_loop-rest zero off none_hit = refl
  scan_loop-rest (suc f) off none_hit = elim (Bool-cases (leb (off + 8) nbytes)) [
    | inr out ↦ rw (out, scan_loop) refl
    | inl inside ↦ elim (Bool-cases (read_le 8 m off == target)) [
      | inl hit ↦ absurd (none_hit off (omega arith) (ground arith))
      | inr miss ↦
          rw (inside, miss, scan_loop)
            (scan_loop-rest f (off + 1) (λ j from. none_hit j (omega arith)))
    ]
  ]

  -- A hit is zeroed and noted, and the loop goes on behind it.
  pub scan_loop-hit :
      (f off : ℕ)
      → off + 8 ≤ nbytes
      → read_le 8 m off ≡ target
      → scan_loop (suc f) nbytes on_controller target off m cs
        ≡ scan_loop f nbytes on_controller target
            (off + 8)
            (write_le 8 m off 0)
            (note_copy cs off target on_controller)
  unfolding scan_loop
  scan_loop-hit f off fits hit =
      let inside : leb (off + 8) nbytes ≡ true = ground arith in
      let hit_e : (read_le 8 m off == target) ≡ true = ground arith in
      rw (inside, hit_e, scan_loop) refl
