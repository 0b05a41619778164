-- ===== src/VoteMarkers/Controller.antt =====
-- The controller's bytes through a vote window of src/vote_transaction.cpp.
use cs2_bot_identity.Base.{
  ℕ, ◌+◌, ◌<◌, ◌≤◌, ◌≡◌, ◌∙◌, ◌⊎◌, refl, arith, false, has_bit, set_bit, clear_bit, ◌^◌,
}
use cs2_bot_identity.Memory.{Memory, IsBytes}
use cs2_bot_identity.Memory.Laws.{
  write_back, write_le-outside, write_le-IsBytes, read_le-ext, read_le-lt, read_le-write_le,
}
use cs2_bot_identity.SscOps.{
  Offsets, set_controller_fake_client_flag, clear_controller_fake_client_flag,
  read_controller_flags, fake_client_bit,
}

-- What `ApplyDisguise` makes of a controller.
pub record IsPlayerController (o : Offsets) (m : Memory) : Type 0 where
  pub bytes : IsBytes m
  pub no_fake_bit : has_bit (read_controller_flags o m) fake_client_bit ≡ false

-- The `FL_FAKECLIENT` bit of a 32-bit word, set and cleared.
set_bit-lt : (v : ℕ) → v < 256 ^ 4 → has_bit v 8 ≡ false → set_bit v 8 < 256 ^ 4
set_bit-lt v h off = ground arith

clear_bit-set_bit : (v : ℕ) → has_bit v 8 ≡ false → clear_bit (set_bit v 8) 8 ≡ v
clear_bit-set_bit v off = ground arith

module _ (o : Offsets) (m : Memory) (d : IsPlayerController o m) where
  pub set_controller_fake_client_flag-IsBytes : IsBytes (set_controller_fake_client_flag o m)
  unfolding set_controller_fake_client_flag
  set_controller_fake_client_flag-IsBytes =
      write_le-IsBytes 4 m o.controller_fake_client_flags _ d.bytes

  pub set_controller_fake_client_flag-else :
      (i : ℕ)
      → (i < o.controller_fake_client_flags) ⊎ (o.controller_fake_client_flags + 4 ≤ i)
      → set_controller_fake_client_flag o m i ≡ m i
  unfolding set_controller_fake_client_flag
  set_controller_fake_client_flag-else i out =
      write_le-outside 4 m o.controller_fake_client_flags _ i out

  flag_set :
      (zeroed : Memory)
      → ((i : ℕ)
          → o.controller_fake_client_flags ≤ i
          → i < o.controller_fake_client_flags + 4
          → zeroed i ≡ set_controller_fake_client_flag o m i)
      → read_controller_flags o zeroed ≡ set_bit (read_controller_flags o m) fake_client_bit
  unfolding set_controller_fake_client_flag
  flag_set zeroed agree =
      read_le-ext 4 zeroed _ o.controller_fake_client_flags agree
      ∙ read_le-write_le 4 m o.controller_fake_client_flags
          (set_bit (read_controller_flags o m) fake_client_bit)
          (set_bit-lt (read_controller_flags o m)
            (read_le-lt 4 m o.controller_fake_client_flags d.bytes) d.no_fake_bit)

  -- The whole window, at a byte that is in no copy. `zeroed` is the controller behind the scan.
  pub controller_back :
      (zeroed : Memory) (i : ℕ)
      → zeroed i ≡ set_controller_fake_client_flag o m i
      → ((j : ℕ)
          → o.controller_fake_client_flags ≤ j
          → j < o.controller_fake_client_flags + 4
          → zeroed j ≡ set_controller_fake_client_flag o m j)
      → clear_controller_fake_client_flag o zeroed i ≡ m i
  unfolding clear_controller_fake_client_flag
  controller_back zeroed i agree flags =
      rw (flag_set zeroed flags, clear_bit-set_bit (read_controller_flags o m) d.no_fake_bit)
        (write_back 4 m zeroed o.controller_fake_client_flags (read_controller_flags o m) i d.bytes
          refl (λ out. agree ∙ set_controller_fake_client_flag-else i out))
