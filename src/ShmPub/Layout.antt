-- ===== src/ShmPub/Layout.antt =====
-- The fields of the region of src/shm_pub.h lie apart, inside the mapping.
use cs2_bot_identity.Base.{
  ℕ, ◌+◌, ◌<◌, ◌≤◌, ◌≡◌, ◌≢◌, ◌⊎◌, ◌==◌, inl, inr, refl, ap, arith, false, Bool-cases,
  if◌then◌else◌, Bytes, ◌&&◌, ==_iff,
}
use cs2_bot_identity.Memory.{Memory}
use cs2_bot_identity.ShmPub.{shm_max_slots, shm_total_size}
use cs2_bot_identity.ShmPub.View.{
  Field, state, steam_id, name, ping, crosshair, flair, incarnation, width, address, Region, region,
  ChangesOnly, bytes_at-apart,
}

-- The place of a field in the layout.
abbrev pub rank : Field → ℕ
rank state = 0
rank steam_id = 1
rank name = 2
rank ping = 3
rank crosshair = 4
rank flair = 5
rank incarnation = 6

rank_injective : (f g : Field) → rank f ≡ rank g → f ≡ g
rank_injective state state h = refl
rank_injective _ _ h = ground arith

in_order :
    (f g : Field) (k n : ℕ)
    → k < shm_max_slots
    → rank f < rank g
    → address f k + width f ≤ address g n
in_order state state k n k_lt h = omega arith
in_order _ _ k n k_lt h = grind arith

same_field : (f : Field) (k n : ℕ) → k < n → address f k + width f ≤ address f n
same_field state k n h = omega arith
same_field _ k n h = omega arith

ne_cases : (k n : ℕ) → k ≢ n → (k < n) ⊎ (n < k)
ne_cases k n h = ground arith

-- Two fields of two slots share no byte, unless they are one field of one slot.
pub address_apart :
    (f : Field) (k : ℕ) (g : Field) (n : ℕ)
    → k < shm_max_slots
    → n < shm_max_slots
    → (f ≢ g) ⊎ (k ≢ n)
    → (address f k + width f ≤ address g n) ⊎ (address g n + width g ≤ address f k)
address_apart f k g n k_lt n_lt h = elim (Bool-cases (rank f == rank g)) [
  | inr other ↦ elim (ne_cases (rank f) (rank g) (λ e. ground arith)) [
    | inl lt ↦ inl (in_order f g k n k_lt lt)
    | inr lt ↦ inr (in_order g f n k n_lt lt)
  ]
  | inl same ↦
      let fields : f ≡ g = rank_injective f g ((==_iff _ _).0 same) in
      elim (ne_cases k n (slots_differ fields h)) [
        | inl lt ↦ inl (rw (← fields) (same_field f k n lt))
        | inr lt ↦ inr (rw (← fields) (same_field f n k lt))
      ]
]
  where
    slots_differ : f ≡ g → (f ≢ g) ⊎ (k ≢ n) → k ≢ n
    slots_differ e (inl ne) q = ne e
    slots_differ e (inr ne) q = ne q

pub address_inside :
    (f : Field) (k : ℕ)
    → k < shm_max_slots
    → (16 ≤ address f k) × (address f k + width f ≤ shm_total_size)
address_inside state k h = omega arith
address_inside _ k h = omega arith

-- An abstract write.
unfoldable pub put_field : Region → Field → ℕ → Bytes → Region
put_field r g n v f k = if rank f == rank g && k == n then v else r f k

differ : (f g : Field) (k n : ℕ) → (rank f == rank g && k == n) ≡ false → (f ≢ g) ⊎ (k ≢ n)
differ f g k n h = elim (Bool-cases (rank f == rank g)) [
  | inl same ↦ inr (λ e. ground arith)
  | inr other ↦ inl (λ e. absurd (ranks_differ (ap rank e) other))
]
  where
    ranks_differ : rank f ≡ rank g → (rank f == rank g) ≡ false → ⊥
    ranks_differ e h = ground arith

-- A write into one field is an abstract write.
pub region_written :
    (m m' : Memory) (g : Field) (n : ℕ) (f : Field) (k : ℕ)
    → n < shm_max_slots
    → k < shm_max_slots
    → ChangesOnly m m' (address g n) (width g)
    → region m' f k ≡ put_field (region m) g n (region m' g n) f k
unfolding region put_field
region_written m m' g n f k n_lt k_lt only = elim (Bool-cases (rank f == rank g && k == n)) [
  | inl e ↦
      let fields : f ≡ g = rank_injective f g (ground arith) in
      let slots : k ≡ n = ground arith in rw e (cc (fields, slots))
  | inr e ↦ rw e (
      bytes_at-apart m m' (address g n) (width g) only (width f) (address f k)
        (address_apart f k g n k_lt n_lt (differ f g k n e)))
]
