-- ===== src/Memory.antt =====
-- The bytes of an engine object, by their offset from the object's address, as src/ssc_ops.h reads
-- and writes them through `unsigned char*` and `std::memcpy` (little-endian x86-64).
pub mod Laws
use cs2_bot_identity.Base.{
  ℕ, zero, suc, ◌+◌, ◌-◌, ◌*◌, ◌/◌, ◌%◌, ◌^◌, ◌<◌, ◌==◌, ltb, if◌then◌else◌, ℤ, pos, negsuc,
}

abbrev pub Memory : Type 0
Memory = ℕ → ℕ

-- What an `unsigned char` array holds.
abbrev pub IsBytes : Memory → Type 0
IsBytes m = (i : ℕ) → m i < 256

unfoldable pub store : Memory → ℕ → ℕ → Memory
store m a v i = if i == a then v else m i

-- An unsigned integer of `n` bytes at offset `a`.
unfoldable pub read_le : ℕ → Memory → ℕ → ℕ
read_le zero m a = 0
read_le (suc n) m a = m a + 256 * read_le n m (a + 1)

-- Writes the low `n` bytes of `v`.
unfoldable pub write_le : ℕ → Memory → ℕ → ℕ → Memory
write_le zero m a v = m
write_le (suc n) m a v = write_le n (store m a (v % 256)) (a + 1) (v / 256)

-- A 32-bit pattern read as `int`.
abbrev pub to_int32 : ℕ → ℤ
to_int32 v = if ltb v (2 ^ 31) then pos v else negsuc (2 ^ 32 - 1 - v)
