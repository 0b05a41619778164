-- ===== src/Plugin/Jitter.antt =====
-- src/plugin.cpp, the ping jitter of `Hook_GameFrame_Post`: the pings that it publishes.
use native.Mathlib.Nat.{mod-lt}
use cs2_bot_identity.Base.{
  ℕ, ◌+◌, ◌-◌, ◌*◌, ◌/◌, ◌%◌, ◌^◌, ◌≤◌, ◌<◌, ◌≡◌, refl, sym, ap, ◌∙◌, arith, ℤ, pos, negsuc,
  pos_part, ltb_ℤ, if◌then◌else◌, ltb, Bool-cases, inl, inr, true, false,
}
use cs2_bot_identity.Memory.{to_int32}
use cs2_bot_identity.Plugin.{jittered_ping}

-- The span on either side of the ping of an entry: its percentage, and 2 at least.
abbrev pub span : ℕ → ℕ → ℕ
span base percent = if ltb (base * percent / 100) 2 then 2 else base * percent / 100

-- A ping taken into 5 to 250.
abbrev pub clamp : ℕ → ℕ
clamp y = if ltb y 5 then 5 else if ltb 250 y then 250 else y

abbrev clamp_ℤ : ℤ → ℕ
clamp_ℤ j = if ltb_ℤ j (pos 5) then 5 else if ltb_ℤ (pos 250) j then 250 else pos_part j

to_int32-small : (v : ℕ) → v < 2 ^ 31 → to_int32 (v % 2 ^ 32) ≡ pos v
to_int32-small v h =
    let same : v % 2 ^ 32 ≡ v = omega arith in
    let small : ltb v (2 ^ 31) ≡ true = ground (arith) in rw (same, small) refl

negative-clamp : (k : ℕ) → clamp_ℤ (negsuc k) ≡ 5
negative-clamp k = let below : ltb_ℤ (negsuc k) (pos 5) ≡ true = ground (arith) in rw below refl

positive-clamp : (y : ℕ) → clamp_ℤ (pos y) ≡ clamp y
positive-clamp y = let e : y + 0 ≡ y = omega arith in rw e refl

-- The sum does not wrap: it is clamped as it is, or to 5 if it is below 0.
sum-clamp :
    (base s x : ℕ)
    → base < 2 ^ 30
    → s < 2 ^ 25
    → x < 2 * s + 1
    → clamp_ℤ (to_int32 ((base + x + 2 ^ 32 - s) % 2 ^ 32)) ≡ clamp (base + x - s)
sum-clamp base s x few narrow r = elim (Bool-cases (ltb (base + x) s)) [
  | inr above ↦
      let same : (base + x + 2 ^ 32 - s) % 2 ^ 32 ≡ (base + x - s) % 2 ^ 32 = ground (arith) in
      rw (same, to_int32-small (base + x - s) (omega arith)) (positive-clamp (base + x - s))
  | inl below ↦
      let v = (base + x + 2 ^ 32 - s) % 2 ^ 32 in
      let big : ltb v (2 ^ 31) ≡ false = ground (arith) in
      let zero : base + x - s ≡ 0 = ground (arith) in
      rw big (negative-clamp (2 ^ 32 - 1 - v) ∙ sym (ap clamp zero))
]

-- Moving by at most `s` moves the clamped number by at most `s`.
clamp-near :
    (base s x : ℕ)
    → 2 ≤ s
    → x < 2 * s + 1
    → let j = clamp (base + x - s) in
      (5 ≤ j) × (j ≤ 250) × (clamp base ≤ j + s) × (j ≤ clamp base + s)
clamp-near base s x wide r = (ground (arith), ground (arith), ground (arith), ground (arith))

-- A jittered ping lies between 5 and 250, and no further from the entry's ping, taken into 5 to 250,
-- than the span, if the product of ping and percentage is an `int` and the ping is below 2^30.
pub jittered_ping-bounds :
    (base percent rand : ℕ)
    → base < 2 ^ 30
    → base * percent < 2 ^ 31
    → let j = jittered_ping base percent rand in
      (5 ≤ j)
      × (j ≤ 250)
      × (clamp base ≤ j + span base percent)
      × (j ≤ clamp base + span base percent)
unfolding jittered_ping
jittered_ping-bounds base percent rand few fits =
    let s = span base percent in
    let x = rand % (2 * s + 1) in
    let r : x < 2 * s + 1 = mod-lt rand (omega arith) in
    let narrow : s < 2 ^ 25 = ground (arith) in
    rw (to_int32-small (base * percent) fits, sum-clamp base s x few narrow r)
      (clamp-near base s x (ground (arith)) r)
