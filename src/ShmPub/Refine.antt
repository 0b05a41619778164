-- ===== src/ShmPub/Refine.antt =====
-- Each operation of src/shm_pub.cpp refines an update of the abstract region.
use cs2_bot_identity.Base.{
  ℕ, ◌+◌, ◌-◌, ◌%◌, ◌^◌, ◌<◌, ◌≤◌, ◌≡◌, ◌∙◌, inl, inr, refl, ap, arith, [], ◌∷◌, Bytes, length,
  length-take, take, false, Option, some, none, ℤ, pos, leb,
}
use mathlib.Core.Option
use cs2_bot_identity.Memory.{Memory, store, write_le}
use cs2_bot_identity.Memory.Laws.{write_le-outside, store_ne, store_self}
use cs2_bot_identity.ShmPub.{
  fill_zero, copy_text, shm_max_slots, shm_name_len, crosshair_len, of_int32, publish_adopt,
  publish_release, publish_ping, publish_crosshair, publish_scoreboard_flair, bump_incarnation,
}
use cs2_bot_identity.ShmPub.View.{
  Field, state, steam_id, name, ping, crosshair, flair, incarnation, width, address, Region, region,
  pad, le_bytes, of_bytes, bytes_at, ChangesOnly, text_field-outside, text_field-inside,
  bytes_at-write_le, of_bytes-bytes_at,
}
use cs2_bot_identity.ShmPub.Layout.{put_field, region_written}

-- The slots of region `r` are those that `spec` makes of the slots of `m`.
abbrev pub Refines : Memory → Option Memory → (Region → Region) → Type 0
Refines m none spec = ⊥
Refines m (some m') spec =
    (f : Field) (k : ℕ) → k < shm_max_slots → region m' f k ≡ spec (region m) f k

put_field_cong :
    (r r' : Region) (g : Field) (n : ℕ) (v : Bytes) (f : Field) (k : ℕ)
    → r f k ≡ r' f k
    → put_field r g n v f k ≡ put_field r' g n v f k
unfolding put_field
put_field_cong r r' g n v f k e = rw e

-- One more write behind others.
then_written :
    (m' m'' : Memory) (r : Region) (g : Field) (n : ℕ) (v : Bytes) (f : Field) (k : ℕ)
    → n < shm_max_slots
    → k < shm_max_slots
    → ChangesOnly m' m'' (address g n) (width g)
    → region m'' g n ≡ v
    → region m' f k ≡ r f k
    → region m'' f k ≡ put_field r g n v f k
then_written m' m'' r g n v f k n_lt k_lt only now before =
    region_written m' m'' g n f k n_lt k_lt only
    ∙ rw now (put_field_cong (region m') r g n v f k before)

module _ (m : Memory) (n : ℕ) (n_lt : n < shm_max_slots) where
  number_written :
      (g : Field) (v : ℕ) (r : Region) (f : Field) (k : ℕ)
      → k < shm_max_slots
      → region m f k ≡ r f k
      → region (write_le (width g) m (address g n) v) f k
        ≡ put_field r g n (le_bytes (width g) v) f k
  unfolding region
  number_written g v r f k k_lt before =
      then_written m (write_le (width g) m (address g n) v) r g n _ f k n_lt k_lt
        (λ i h. write_le-outside (width g) m (address g n) v i h)
        (bytes_at-write_le (width g) m (address g n) v) before

  text_written :
      (g : Field) (cs : Bytes) (r : Region) (f : Field) (k : ℕ)
      → k < shm_max_slots
      → length cs ≤ width g
      → region m f k ≡ r f k
      → region (copy_text cs (fill_zero (width g) m (address g n)) (address g n)) f k
        ≡ put_field r g n (pad (width g) cs) f k
  unfolding region
  text_written g cs r f k k_lt fits before =
      then_written m _ r g n _ f k n_lt k_lt (text_field-outside (width g) cs m (address g n) fits)
        (text_field-inside (width g) cs m (address g n) fits) before

  byte_written :
      (v : ℕ) (r : Region) (f : Field) (k : ℕ)
      → k < shm_max_slots
      → region m f k ≡ r f k
      → region (store m (address state n) v) f k ≡ put_field r state n (v ∷ []) f k
  unfolding region bytes_at
  byte_written v r f k k_lt before =
      then_written m (store m (address state n) v) r state n _ f k n_lt k_lt outside
        (ap (λ b. b ∷ []) (store_self m (address state n) v (address state n) refl)) before
    where
      outside : ChangesOnly m (store m (address state n) v) (address state n) 1
      outside i (inl h) = store_ne m (address state n) v i (omega arith)
      outside i (inr h) = store_ne m (address state n) v i (omega arith)

-- The text of a field that keeps `n` bytes, its NUL among them.
abbrev pub field_text : ℕ → Bytes → Bytes
field_text n text = pad n (take (n - 1) text)

take-fits : (n : ℕ) (text : Bytes) → length (take (n - 1) text) ≤ n
take-fits n text = omega (arith, length-take (n - 1) text)

module _ (m : Memory) (n : ℕ) (n_lt : n < shm_max_slots) where
  slot_in : leb shm_max_slots n ≡ false
  slot_in = ground arith

  -- For a slot of the region, `PublishPing`, `PublishScoreboardFlair` and `PublishCrosshair` each put
  -- one field of it, and leave every other field and every other slot.
  pub publish_field-Refines :
      (v : ℤ) (item : ℕ) (code : Option Bytes)
      → Refines m
          (publish_ping (some m) (pos n) v)
          (λ r. put_field r ping n (le_bytes 4 (of_int32 v)))
        × Refines m
            (publish_scoreboard_flair (some m) (pos n) item)
            (λ r. put_field r flair n (le_bytes 4 item))
        × Refines m
            (publish_crosshair (some m) (pos n) code)
            (λ r. put_field r crosshair n (field_text crosshair_len (Option.get_or code [])))
  unfolding publish_ping publish_scoreboard_flair publish_crosshair
  publish_field-Refines v item code = (
    rw slot_in (λ f k k_lt. number_written m n n_lt ping (of_int32 v) (region m) f k k_lt refl),
    rw slot_in (λ f k k_lt. number_written m n n_lt flair item (region m) f k k_lt refl),
    rw slot_in (λ f k k_lt.
        text_written m n n_lt crosshair _ (region m) f k k_lt (take-fits crosshair_len _) refl),
  )

  -- For a slot of the region, `PublishAdopt` puts the state 1, the SteamID64 and the name, cut at 31
  -- bytes and padded, and leaves every other field and every other slot.
  pub publish_adopt-Refines :
      (sid : ℕ) (text : Bytes)
      → Refines m (publish_adopt (some m) (pos n) sid (some text)) (λ r.
        put_field
          (put_field (put_field r state n (1 ∷ [])) steam_id n (le_bytes 8 sid))
          name
          n
          (field_text shm_name_len text))
  unfolding publish_adopt
  publish_adopt-Refines sid text = rw slot_in λ f k k_lt.
      text_written (write_le 8 (store m (address state n) 1) (address steam_id n) sid) n n_lt name _
        _ f k k_lt (take-fits shm_name_len text)
        (number_written (store m (address state n) 1) n n_lt steam_id sid _ f k k_lt
          (byte_written m n n_lt 1 (region m) f k k_lt refl))

  -- For a slot of the region, `PublishRelease` zeroes those three fields; its ping, crosshair, flair
  -- and incarnation stay, and so does every other slot.
  pub publish_release-Refines : Refines m (publish_release (some m) (pos n)) (λ r.
      put_field
        (put_field (put_field r state n (0 ∷ [])) steam_id n (le_bytes 8 0))
        name
        n
        (pad shm_name_len []))
  unfolding publish_release copy_text
  publish_release-Refines = rw slot_in λ f k k_lt.
      text_written (write_le 8 (store m (address state n) 0) (address steam_id n) 0) n n_lt name []
        _ f k k_lt (omega arith)
        (number_written (store m (address state n) 0) n n_lt steam_id 0 _ f k k_lt
          (byte_written m n n_lt 0 (region m) f k k_lt refl))

  -- For a slot of the region, `BumpIncarnation` adds one to its counter, modulo 2^64, and leaves every
  -- other field and every other slot.
  pub bump_incarnation-Refines :
      Refines m
        (bump_incarnation (some m) (pos n))
        (λ r. put_field r incarnation n (le_bytes 8 ((of_bytes (r incarnation n) + 1) % 2 ^ 64)))
  unfolding bump_incarnation region
  bump_incarnation-Refines =
      rw (slot_in, of_bytes-bytes_at 8 m (address incarnation n))
        λ f k k_lt. number_written m n n_lt incarnation _ (region m) f k k_lt refl
