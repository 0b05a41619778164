-- ===== src/Memory/Laws.antt =====
-- Laws of the little-endian reads and writes that src/ssc_ops.h makes.
use cs2_bot_identity.Base.{
  ℕ, zero, suc, ◌+◌, ◌-◌, ◌*◌, ◌/◌, ◌%◌, ◌^◌, ◌<◌, ◌≤◌, ◌≡◌, ◌≢◌, ◌⊎◌, inl, inr, refl, ap, ◌∙◌,
  arith, sym, Bool-cases, leb, ltb, ◌&&◌,
}
use cs2_bot_identity.Memory.{Memory, IsBytes, store, read_le, write_le}
use native.Mathlib.Nat.{pow-suc}

-- The byte `k` of a number.
unfoldable pub nth_byte : ℕ → ℕ → ℕ
nth_byte zero v = v % 256
nth_byte (suc k) v = nth_byte k (v / 256)

pub store_ne : (m : Memory) (a v i : ℕ) → i ≢ a → store m a v i ≡ m i
unfolding store
store_ne m a v i h = ground arith

pub store_self : (m : Memory) (a v i : ℕ) → i ≡ a → store m a v i ≡ v
unfolding store
store_self m a v i h = ground arith

pub store-IsBytes : (m : Memory) (a v : ℕ) → IsBytes m → v < 256 → IsBytes (store m a v)
unfolding store
store-IsBytes m a v b h i = ground (arith, b i)

pub write_le-before : (n : ℕ) (m : Memory) (a v i : ℕ) → i < a → write_le n m a v i ≡ m i
unfolding write_le
write_le-before zero m a v i h = refl
write_le-before (suc n) m a v i h =
    write_le-before n (store m a (v % 256)) (a + 1) (v / 256) i (omega arith)
    ∙ store_ne m a (v % 256) i (omega arith)

pub write_le-after : (n : ℕ) (m : Memory) (a v i : ℕ) → a + n ≤ i → write_le n m a v i ≡ m i
unfolding write_le
write_le-after zero m a v i h = refl
write_le-after (suc n) m a v i h =
    write_le-after n (store m a (v % 256)) (a + 1) (v / 256) i (omega arith)
    ∙ store_ne m a (v % 256) i (omega arith)

-- A write leaves what stands outside it.
pub write_le-outside :
    (n : ℕ) (m : Memory) (a v i : ℕ) → (i < a) ⊎ (a + n ≤ i) → write_le n m a v i ≡ m i
write_le-outside n m a v i (inl h) = write_le-before n m a v i h
write_le-outside n m a v i (inr h) = write_le-after n m a v i h

pub write_le-inside :
    (n : ℕ) (m : Memory) (a v k i : ℕ) → k < n → i ≡ a + k → write_le n m a v i ≡ nth_byte k v
unfolding write_le nth_byte
write_le-inside zero m a v k i h e = elim h [ ]
write_le-inside (suc n) m a v zero i h e =
    write_le-before n (store m a (v % 256)) (a + 1) (v / 256) i (omega arith)
    ∙ store_self m a (v % 256) i (omega arith)
write_le-inside (suc n) m a v (suc k) i h e =
    write_le-inside n (store m a (v % 256)) (a + 1) (v / 256) k i (omega arith) (omega arith)

pub write_le-IsBytes : (n : ℕ) (m : Memory) (a v : ℕ) → IsBytes m → IsBytes (write_le n m a v)
unfolding write_le
write_le-IsBytes zero m a v b = b
write_le-IsBytes (suc n) m a v b =
    write_le-IsBytes n (store m a (v % 256)) (a + 1) (v / 256)
      (store-IsBytes m a (v % 256) b (omega arith))

-- The bytes of a number that was read are the bytes that were there.
pub nth_byte-read_le :
    (n : ℕ) (m : Memory) (a k i : ℕ)
    → IsBytes m
    → k < n
    → i ≡ a + k
    → nth_byte k (read_le n m a) ≡ m i
unfolding read_le nth_byte
nth_byte-read_le zero m a k i b h e = elim h [ ]
nth_byte-read_le (suc n) m a zero i b h e = let q : i ≡ a = omega arith in rw q (omega (arith, b a))
nth_byte-read_le (suc n) m a (suc k) i b h e =
    let q : (m a + 256 * read_le n m (a + 1)) / 256 ≡ read_le n m (a + 1) = omega (arith, b a) in
    rw q (nth_byte-read_le n m (a + 1) k i b (omega arith) (omega arith))

-- Two memories that agree on the bytes read give one number.
pub read_le-ext :
    (n : ℕ) (m m' : Memory) (a : ℕ)
    → ((i : ℕ) → a ≤ i → i < a + n → m i ≡ m' i)
    → read_le n m a ≡ read_le n m' a
unfolding read_le
read_le-ext zero m m' a h = refl
read_le-ext (suc n) m m' a h = omega (
  arith,
  h a (omega arith) (omega arith),
  read_le-ext n m m' (a + 1) (λ i p q. h i (omega arith) (omega arith)),
)

-- A read that a write does not meet.
pub read_le-write_le_apart :
    (n k : ℕ) (m : Memory) (a b v : ℕ)
    → (a + n ≤ b) ⊎ (b + k ≤ a)
    → read_le n (write_le k m b v) a ≡ read_le n m a
read_le-write_le_apart n k m a b v (inl h) =
    read_le-ext n _ m a (λ i p q. write_le-before k m b v i (omega arith))
read_le-write_le_apart n k m a b v (inr h) =
    read_le-ext n _ m a (λ i p q. write_le-after k m b v i (omega arith))

-- What was written is read back.
pub read_le-write_le :
    (n : ℕ) (m : Memory) (a v : ℕ) → v < 256 ^ n → read_le n (write_le n m a v) a ≡ v
unfolding read_le write_le
read_le-write_le zero m a v h = omega arith
read_le-write_le (suc n) m a v h =
    let inner = store m a (v % 256) in
    let low : write_le n inner (a + 1) (v / 256) a ≡ v % 256 =
      write_le-before n inner (a + 1) (v / 256) a (omega arith) ∙ store_self m a (v % 256) a refl in
    let high = read_le-write_le n inner (a + 1) (v / 256) (omega (arith, pow-suc 256 n)) in
    omega (arith, low, high)

pub read_le-lt : (n : ℕ) (m : Memory) (a : ℕ) → IsBytes m → read_le n m a < 256 ^ n
unfolding read_le
read_le-lt zero m a b = omega arith
read_le-lt (suc n) m a b = omega (arith, pow-suc 256 n, b a, read_le-lt n m (a + 1) b)

-- Writing back the number that was read restores each byte that it covers.
pub write_back :
    (n : ℕ) (m base : Memory) (a v i : ℕ)
    → IsBytes m
    → read_le n m a ≡ v
    → ((i < a) ⊎ (a + n ≤ i) → base i ≡ m i)
    → write_le n base a v i ≡ m i
write_back n m base a v i bytes was keep = elim (Bool-cases (leb a i && ltb i (a + n))) [
  | inl inside ↦
      write_le-inside n base a v (i - a) i (ground arith) (ground arith)
      ∙ ap (nth_byte (i - a)) (sym was)
      ∙ nth_byte-read_le n m a (i - a) i bytes (ground arith) (ground arith)
  | inr outside ↦
      let out : (i < a) ⊎ (a + n ≤ i) = ground arith in write_le-outside n base a v i out ∙ keep out
]
