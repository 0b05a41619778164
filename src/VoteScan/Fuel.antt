-- ===== src/VoteScan/Fuel.antt =====
-- src/vote_transaction.cpp, `scanRegion`: its loop ends by itself, so more fuel changes nothing.
use cs2_bot_identity.Base.{
  ℕ, zero, suc, ◌+◌, ◌<◌, ◌≤◌, ◌≡◌, refl, sym, arith, Bool, false, List, ◌==◌, leb, Bool-cases, inl,
  inr,
}
use cs2_bot_identity.Memory.{Memory, read_le, write_le}
use cs2_bot_identity.VoteScan.{SteamIdCopy, scan_loop, scan_region, note_copy}

module _ (nbytes : ℕ) (on_controller : Bool) (target : ℕ) where
  past_end :
      (f off : ℕ) (m : Memory) (cs : List SteamIdCopy)
      → nbytes < off + 8
      → scan_loop f nbytes on_controller target off m cs ≡ (m, cs)
  unfolding scan_loop
  past_end zero off m cs out = refl
  past_end (suc f) off m cs out =
      let out_e : leb (off + 8) nbytes ≡ false = ground arith in rw (out_e, scan_loop) refl

  scan_loop-fuel :
      (f g off : ℕ) (m : Memory) (cs : List SteamIdCopy)
      → nbytes < off + 8 + f
      → nbytes < off + 8 + g
      → scan_loop f nbytes on_controller target off m cs
        ≡ scan_loop g nbytes on_controller target off m cs
  unfolding scan_loop
  scan_loop-fuel zero g off m cs p q = sym (past_end g off m cs (omega arith))
  scan_loop-fuel (suc f) zero off m cs p q = past_end (suc f) off m cs (omega arith)
  scan_loop-fuel (suc f) (suc g) off m cs p q = elim (Bool-cases (leb (off + 8) nbytes)) [
    | inr out ↦ rw (out, scan_loop) refl
    | inl inside ↦ elim (Bool-cases (read_le 8 m off == target)) [
      | inl hit ↦
          rw (inside, hit, scan_loop)
            (scan_loop-fuel f g (off + 8) (write_le 8 m off 0)
              (note_copy cs off target on_controller) (omega arith) (omega arith))
      | inr miss ↦
          rw (inside, miss, scan_loop)
            (scan_loop-fuel f g (off + 1) m cs (omega arith) (omega arith))
    ]
  ]

-- The scan of a region is what its loop gives with any fuel from the number of bytes on, so it never
-- stops for want of fuel.
pub scan_region-fuel :
    (nbytes : ℕ) (on_controller : Bool) (target : ℕ) (m : Memory) (cs : List SteamIdCopy) (fuel : ℕ)
    → nbytes ≤ fuel
    → scan_loop fuel nbytes on_controller target 0 m cs
      ≡ scan_region nbytes on_controller target m cs
unfolding scan_region
scan_region-fuel nbytes on_controller target m cs fuel enough =
    scan_loop-fuel nbytes on_controller target fuel nbytes 0 m cs (omega arith) (omega arith)
