-- ===== src/ShmPub/View.antt =====
-- What a reader of the region of src/shm_pub.cpp sees of one slot, and how each write moves it.
use cs2_bot_identity.Base.{
  ℕ, zero, suc, ◌+◌, ◌*◌, ◌%◌, ◌/◌, ◌==◌, ◌<◌, ◌≤◌, ◌≡◌, ◌∙◌, ◌⊎◌, inl, inr, refl, arith, [], ◌∷◌,
  Bytes, length, Bool-cases, ==_iff,
}
use cs2_bot_identity.Memory.{Memory, store, read_le, write_le}
use cs2_bot_identity.Memory.Laws.{write_le-before, store_ne, store_self}
use cs2_bot_identity.ShmPub.{
  fill_zero, copy_text, shm_name_len, crosshair_len, slot_state_ptr, sid_ptr, name_ptr, ping_ptr,
  crosshair_ptr, flair_ptr, incarnation_ptr,
}

unfoldable pub bytes_at : ℕ → Memory → ℕ → Bytes
bytes_at zero m a = []
bytes_at (suc n) m a = m a ∷ bytes_at n m (a + 1)

-- A text at the start of a field of `n` bytes, and zeros behind it.
pub pad : ℕ → Bytes → Bytes
pad zero cs = []
pad (suc n) [] = 0 ∷ pad n []
pad (suc n) (c ∷ cs) = c ∷ pad n cs

-- The fields that the region keeps for each slot.
pub data Field : Type 0 where
  state steam_id name ping crosshair flair incarnation : Field

abbrev pub width : Field → ℕ
width state = 1
width steam_id = 8
width name = shm_name_len
width ping = 4
width crosshair = crosshair_len
width flair = 4
width incarnation = 8

abbrev pub address : Field → ℕ → ℕ
address state n = slot_state_ptr n
address steam_id n = sid_ptr n
address name n = name_ptr n
address ping n = ping_ptr n
address crosshair n = crosshair_ptr n
address flair n = flair_ptr n
address incarnation n = incarnation_ptr n

-- What a reader sees: the bytes of each field of each slot.
abbrev pub Region : Type 0
Region = Field → ℕ → Bytes

unfoldable pub region : Memory → Region
region m f n = bytes_at (width f) m (address f n)

-- The low `n` bytes of a number, and the number of some bytes.
pub le_bytes : ℕ → ℕ → Bytes
le_bytes zero v = []
le_bytes (suc n) v = (v % 256) ∷ le_bytes n (v / 256)

pub of_bytes : Bytes → ℕ
of_bytes [] = 0
of_bytes (b ∷ bs) = b + 256 * of_bytes bs

-- A write that touches only `n` bytes from `a` on.
abbrev pub ChangesOnly : Memory → Memory → ℕ → ℕ → Type 0
ChangesOnly m m' a n = (i : ℕ) → (i < a) ⊎ (a + n ≤ i) → m' i ≡ m i

bytes_at-ext :
    (n : ℕ) (m m' : Memory) (a : ℕ)
    → ((i : ℕ) → a ≤ i → i < a + n → m i ≡ m' i)
    → bytes_at n m a ≡ bytes_at n m' a
unfolding bytes_at
bytes_at-ext zero m m' a h = refl
bytes_at-ext (suc n) m m' a h = cc (
  h a (omega arith) (omega arith),
  bytes_at-ext n m m' (a + 1) (λ i p q. h i (omega arith) (omega arith)),
)

module _ (m m' : Memory) (a n : ℕ) (only : ChangesOnly m m' a n) where
  pub bytes_at-apart : (k b : ℕ) → (b + k ≤ a) ⊎ (a + n ≤ b) → bytes_at k m' b ≡ bytes_at k m b
  bytes_at-apart k b (inl h) = bytes_at-ext k m' m b (λ i p q. only i (inl (omega arith)))
  bytes_at-apart k b (inr h) = bytes_at-ext k m' m b (λ i p q. only i (inr (omega arith)))

pub fill_zero-outside : (n : ℕ) (m : Memory) (a : ℕ) → ChangesOnly m (fill_zero n m a) a n
unfolding fill_zero
fill_zero-outside zero m a i h = refl
fill_zero-outside (suc n) m a i (inl h) =
    fill_zero-outside n (store m a 0) (a + 1) i (inl (omega arith)) ∙ store_ne m a 0 i (omega arith)
fill_zero-outside (suc n) m a i (inr h) =
    fill_zero-outside n (store m a 0) (a + 1) i (inr (omega arith)) ∙ store_ne m a 0 i (omega arith)

pub fill_zero-inside : (n : ℕ) (m : Memory) (a i : ℕ) → a ≤ i → i < a + n → fill_zero n m a i ≡ 0
unfolding fill_zero
fill_zero-inside zero m a i p q = absurd (omega arith)
fill_zero-inside (suc n) m a i p q = elim (Bool-cases (i == a)) [
  | inl e ↦
      let i_is : i ≡ a = (==_iff i a).0 e in
      fill_zero-outside n (store m a 0) (a + 1) i (inl (omega arith)) ∙ store_self m a 0 i i_is
  | inr e ↦ fill_zero-inside n (store m a 0) (a + 1) i (ground arith) (omega arith)
]

pub copy_text-outside :
    (cs : Bytes) (m : Memory) (a : ℕ) → ChangesOnly m (copy_text cs m a) a (length cs)
unfolding copy_text
copy_text-outside [] m a i h = refl
copy_text-outside (c ∷ cs) m a i (inl h) =
    copy_text-outside cs (store m a c) (a + 1) i (inl (omega arith))
    ∙ store_ne m a c i (omega arith)
copy_text-outside (c ∷ cs) m a i (inr h) =
    copy_text-outside cs (store m a c) (a + 1) i (inr (omega arith))
    ∙ store_ne m a c i (omega arith)

-- The text that is copied over zeros, read back with its padding.
bytes_at-copy_text :
    (n : ℕ) (cs : Bytes) (m : Memory) (a : ℕ)
    → ((i : ℕ) → a ≤ i → i < a + n → m i ≡ 0)
    → length cs ≤ n
    → bytes_at n (copy_text cs m a) a ≡ pad n cs
unfolding bytes_at copy_text pad
bytes_at-copy_text zero cs m a z h = refl
bytes_at-copy_text (suc n) [] m a z h = cc (
  z a (omega arith) (omega arith),
  bytes_at-copy_text n [] m (a + 1) (λ i p q. z i (omega arith) (omega arith)) (omega arith),
)
bytes_at-copy_text (suc n) (c ∷ cs) m a z h = cc (
  copy_text-outside cs (store m a c) (a + 1) a (inl (omega arith)) ∙ store_self m a c a refl,
  bytes_at-copy_text n cs (store m a c) (a + 1)
      (λ i p q. store_ne m a c i (omega arith) ∙ z i (omega arith) (omega arith)) (omega arith),
)

module _ (n : ℕ) (cs : Bytes) (m : Memory) (a : ℕ) (fits : length cs ≤ n) where
  pub text_field-outside : ChangesOnly m (copy_text cs (fill_zero n m a) a) a n
  text_field-outside i (inl h) =
      copy_text-outside cs (fill_zero n m a) a i (inl h) ∙ fill_zero-outside n m a i (inl h)
  text_field-outside i (inr h) =
      copy_text-outside cs (fill_zero n m a) a i (inr (omega arith))
      ∙ fill_zero-outside n m a i (inr h)

  pub text_field-inside : bytes_at n (copy_text cs (fill_zero n m a) a) a ≡ pad n cs
  text_field-inside =
      bytes_at-copy_text n cs (fill_zero n m a) a (λ i p q. fill_zero-inside n m a i p q) fits

pub bytes_at-write_le :
    (n : ℕ) (m : Memory) (a v : ℕ) → bytes_at n (write_le n m a v) a ≡ le_bytes n v
unfolding bytes_at write_le le_bytes
bytes_at-write_le zero m a v = refl
bytes_at-write_le (suc n) m a v = cc (
  write_le-before n (store m a (v % 256)) (a + 1) (v / 256) a (omega arith)
      ∙ store_self m a (v % 256) a refl,
  bytes_at-write_le n (store m a (v % 256)) (a + 1) (v / 256),
)

pub of_bytes-bytes_at : (n : ℕ) (m : Memory) (a : ℕ) → of_bytes (bytes_at n m a) ≡ read_le n m a
unfolding of_bytes bytes_at read_le
of_bytes-bytes_at zero m a = refl
of_bytes-bytes_at (suc n) m a = rw (of_bytes-bytes_at n m (a + 1))
