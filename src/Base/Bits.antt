-- ===== src/Base/Bits.antt =====
-- Single bits of a machine word: `x | (1 << k)`, `x & ~(1 << k)` and the test of bit `k`.
use Prim.Native.Nat.{ℕ, zero, suc, ◌+◌, ◌-◌, ◌/◌, ◌%◌, ◌^◌, ◌<◌, ◌≤◌, bit_or, bit_and}
use mathlib.Core.Path.{◌≡◌, refl}
use mathlib.Core.Bool.{Bool, true, false, not, ◌&&◌, ◌||◌}
use native.Mathlib.Omega.{arith}
use cs2_bot_identity.Base.Tests.{◌==◌, ==_iff, ltb, ltb→lt, if◌then◌else◌, Bool-cases}
use mathlib.Core.Logic.{inl, inr}

abbrev pub has_bit : ℕ → ℕ → Bool
has_bit x k = (x / 2 ^ k) % 2 == 1

abbrev pub set_bit : ℕ → ℕ → ℕ
set_bit x k = if has_bit x k then x else x + 2 ^ k

abbrev pub clear_bit : ℕ → ℕ → ℕ
clear_bit x k = if has_bit x k then x - 2 ^ k else x

-- Does the test pass for the `rounds` numbers from `first` on?
passes : (ℕ → Bool) → ℕ → ℕ → Bool
passes test first zero = true
passes test first (suc rounds) = if test first then passes test (suc first) rounds else false

passes-each :
    (test : ℕ → Bool) (first rounds x : ℕ)
    → passes test first rounds ≡ true
    → first ≤ x
    → x < first + rounds
    → test x ≡ true
unfolding passes
passes-each test first zero x h from to = absurd (omega arith)
passes-each test first (suc rounds) x h from to = elim (Bool-cases (test first)) [
  | inr fails ↦ let h' : false ≡ true = rw (fails, passes) at h in absurd (ground arith)
  | inl here ↦ elim (Bool-cases (first == x)) [
    | inl same ↦ let x_is : x ≡ first = ground (arith, ==_iff first x) in rw x_is here
    | inr apart ↦
        passes-each test (suc first) rounds x (rw (here, passes) at h)
          (ground (arith, ==_iff first x)) (omega arith)
  ]
]

every_byte : (test : ℕ → Bool) (x : ℕ) → passes test 0 256 ≡ true → x < 256 → test x ≡ true
every_byte test x h lt = passes-each test 0 256 x h (omega arith) (omega arith)

-- `(x & ~0x08u) | 0x01u` and `(x & ~0x01u) | 0x08u`.
abbrev pub player_bits : ℕ → ℕ
player_bits x = set_bit (clear_bit x 3) 0

abbrev pub bot_bits : ℕ → ℕ
bot_bits x = set_bit (clear_bit x 0) 3

both : (a b : Bool) → (a && not b) ≡ true → (a ≡ true) × (b ≡ false)
both a b h = ground arith

third : (a b c : Bool) → a ≡ true → b ≡ false → (not (a && not b) || c) ≡ true → c ≡ true
third a b c p q h = ground arith

-- Laws of one byte, checked on every byte.
module _ (x : ℕ) (h : x < 256) where
  pub player_bits-mask : player_bits x ≡ bit_or (bit_and x 0xF7) 0x01
  unfolding passes
  player_bits-mask =
      (==_iff _ _).0 (every_byte (λ b. player_bits b == bit_or (bit_and b 0xF7) 0x01) x refl h)

  pub bot_bits-mask : bot_bits x ≡ bit_or (bit_and x 0xFE) 0x08
  unfolding passes
  bot_bits-mask =
      (==_iff _ _).0 (every_byte (λ b. bot_bits b == bit_or (bit_and b 0xFE) 0x08) x refl h)

  pub player_bits-lt : player_bits x < 256
  unfolding passes
  player_bits-lt = ltb→lt _ _ (every_byte (λ b. ltb (player_bits b) 256) x refl h)

  pub bot_bits-lt : bot_bits x < 256
  unfolding passes
  bot_bits-lt = ltb→lt _ _ (every_byte (λ b. ltb (bot_bits b) 256) x refl h)

  pub bot_bits-has_bit : (has_bit (bot_bits x) 3 ≡ true) × (has_bit (bot_bits x) 0 ≡ false)
  unfolding passes
  bot_bits-has_bit =
      both _ _ (every_byte (λ b. has_bit (bot_bits b) 3 && not (has_bit (bot_bits b) 0)) x refl h)

  pub player_bits-has_bit : (has_bit (player_bits x) 0 ≡ true) × (has_bit (player_bits x) 3 ≡ false)
  unfolding passes
  player_bits-has_bit =
      both _ _
        (every_byte (λ b. has_bit (player_bits b) 0 && not (has_bit (player_bits b) 3)) x refl h)

  -- A byte with the player's bits comes back.
  pub player_bits-bot_bits : has_bit x 0 ≡ true → has_bit x 3 ≡ false → player_bits (bot_bits x) ≡ x
  unfolding passes
  player_bits-bot_bits on off = (==_iff _ _).0 (
      third _ _ _ on off (
        every_byte (λ b. not (has_bit b 0 && not (has_bit b 3)) || player_bits (bot_bits b) == b) x
          refl h))
