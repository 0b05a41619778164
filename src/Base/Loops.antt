-- ===== src/Base/Loops.antt =====
-- The source's loops over slots: `for (int slot = first; slot < first + rounds; ++slot)`.
use Prim.Native.Nat.{ℕ, zero, suc, ◌+◌}
use mathlib.Core.Path.{subst}
use native.Mathlib.Omega.{arith}

pub for_slots {ℓ} : {S : Type ℓ} → ℕ → ℕ → (ℕ → S → S) → S → S
for_slots zero slot body s = s
for_slots (suc rounds) slot body s = for_slots rounds (suc slot) body (body slot s)

-- What every round keeps, the loop keeps.
pub for_slots_keeps {ℓ κ} :
    {S : Type ℓ} (P : S → Type κ) (body : ℕ → S → S)
    → ((slot : ℕ) (s : S) → P s → P (body slot s))
    → (rounds slot : ℕ) (s : S) → P s
    → P (for_slots rounds slot body s)
unfolding for_slots
for_slots_keeps P body keep zero slot s h = h
for_slots_keeps P body keep (suc rounds) slot s h =
    for_slots_keeps P body keep rounds (suc slot) (body slot s) (keep slot s h)

-- What the rounds so far have done, with the count of them.
pub for_slots_counts {ℓ κ} :
    {S : Type ℓ} (P : ℕ → S → Type κ) (body : ℕ → S → S)
    → ((slot : ℕ) (s : S) → P slot s → P (suc slot) (body slot s))
    → (rounds slot : ℕ) (s : S) → P slot s
    → P (slot + rounds) (for_slots rounds slot body s)
unfolding for_slots
for_slots_counts P body keep zero slot s h = subst (λ n. P n s) (omega arith) h
for_slots_counts P body keep (suc rounds) slot s h =
    subst (λ n. P n (for_slots rounds (suc slot) body (body slot s))) (omega arith)
      (for_slots_counts P body keep rounds (suc slot) (body slot s) (keep slot s h))
