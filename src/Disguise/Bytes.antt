-- ===== src/Disguise/Bytes.antt =====
-- src/ssc_ops.h, the writes to a client of `ApplyDisguise` and `RestoreIdentity`: what they show.
use cs2_bot_identity.Base.{
  ℕ, ◌+◌, ◌^◌, ◌<◌, ◌≤◌, ◌≡◌, ◌⊎◌, refl, sym, ap, ◌∙◌, arith, true, false, has_bit, player_bits,
  bot_bits, player_bits-lt, player_bits-has_bit, bot_bits-has_bit,
}
use cs2_bot_identity.Memory.{Memory, IsBytes, store, read_le, write_le}
use cs2_bot_identity.Memory.Laws.{
  store_ne, store_self, store-IsBytes, write_le-outside, write_le-IsBytes, read_le-write_le,
  read_le-write_le_apart,
}
use cs2_bot_identity.SscOps.{
  Offsets, clear_fake_player, set_fake_player, write_steam_id, read_steam_id,
}
use cs2_bot_identity.VoteMarkers.Client.{IsLaidOut, IsDisguised}

-- The marker bytes and the two SteamID64 fields of a client lie apart.
pub record IsSpaced (o : Offsets) : Type 0 where
  pub laid : IsLaidOut o
  pub fake_steam_id : (o.fake_player < o.steam_id) ⊎ (o.steam_id + 8 ≤ o.fake_player)
  pub fake_mirror : (o.fake_player < o.steam_id_mirror) ⊎ (o.steam_id_mirror + 8 ≤ o.fake_player)
  pub ids : (o.steam_id + 8 ≤ o.steam_id_mirror) ⊎ (o.steam_id_mirror + 8 ≤ o.steam_id)

-- A client that shows as a bot without a SteamID64.
pub record IsBot (o : Offsets) (m : Memory) : Type 0 where
  pub fake : m o.fake_player ≡ 1
  pub player_bit : has_bit (m o.connection_type_flags) 0 ≡ false
  pub bot_bit : has_bit (m o.connection_type_flags) 3 ≡ true
  pub no_steam_id : read_steam_id o m ≡ 0

module _ (o : Offsets) (s : IsSpaced o) (m : Memory) (bytes : IsBytes m) where
  -- Both marker bytes, `v` at the flags and `w` at the other one, and then the SteamID64.
  marked : ℕ → ℕ → Memory
  marked v w = store (store m o.connection_type_flags v) o.fake_player w

  module _ (v w steam_id : ℕ) where
    beside :
        (i : ℕ)
        → (i < o.steam_id) ⊎ (o.steam_id + 8 ≤ i)
        → (i < o.steam_id_mirror) ⊎ (o.steam_id_mirror + 8 ≤ i)
        → write_steam_id o (marked v w) steam_id i ≡ marked v w i
    unfolding write_steam_id
    beside i out out_mirror =
        write_le-outside 8 (write_le 8 (marked v w) o.steam_id steam_id) o.steam_id_mirror steam_id
          i out_mirror
        ∙ write_le-outside 8 (marked v w) o.steam_id steam_id i out

    at_fake : write_steam_id o (marked v w) steam_id o.fake_player ≡ w
    unfolding marked
    at_fake =
        beside o.fake_player s.fake_steam_id s.fake_mirror
        ∙ store_self (store m o.connection_type_flags v) o.fake_player w o.fake_player refl

    at_flags : write_steam_id o (marked v w) steam_id o.connection_type_flags ≡ v
    unfolding marked
    at_flags =
        beside o.connection_type_flags s.laid.flags_steam_id s.laid.flags_mirror
        ∙ store_ne (store m o.connection_type_flags v) o.fake_player w o.connection_type_flags
            s.laid.flags_ne_fake
        ∙ store_self m o.connection_type_flags v o.connection_type_flags refl

    module _ (fits : steam_id < 256 ^ 8) where
      at_steam_id : read_steam_id o (write_steam_id o (marked v w) steam_id) ≡ steam_id
      unfolding write_steam_id read_steam_id
      at_steam_id =
          read_le-write_le_apart 8 8 (write_le 8 (marked v w) o.steam_id steam_id) o.steam_id
            o.steam_id_mirror steam_id s.ids
          ∙ read_le-write_le 8 (marked v w) o.steam_id steam_id fits

      at_mirror : read_le 8 (write_steam_id o (marked v w) steam_id) o.steam_id_mirror ≡ steam_id
      unfolding write_steam_id
      at_mirror =
          read_le-write_le 8 (write_le 8 (marked v w) o.steam_id steam_id) o.steam_id_mirror
            steam_id fits

    written-IsBytes : v < 256 → w < 256 → IsBytes (write_steam_id o (marked v w) steam_id)
    unfolding write_steam_id marked
    written-IsBytes v_lt w_lt =
        write_le-IsBytes 8 (write_le 8 (marked v w) o.steam_id steam_id) o.steam_id_mirror steam_id
          (write_le-IsBytes 8 (marked v w) o.steam_id steam_id (
            store-IsBytes (store m o.connection_type_flags v) o.fake_player w
              (store-IsBytes m o.connection_type_flags v bytes v_lt) w_lt))

  abbrev shown_flags : ℕ
  shown_flags = player_bits (m o.connection_type_flags)

  pub shown-IsDisguised :
      (steam_id : ℕ)
      → steam_id < 256 ^ 8
      → IsDisguised o (write_steam_id o (clear_fake_player o m) steam_id)
        × (read_steam_id o (write_steam_id o (clear_fake_player o m) steam_id) ≡ steam_id)
  unfolding clear_fake_player marked read_steam_id
  shown-IsDisguised steam_id fits =
      let bits = player_bits-has_bit (m o.connection_type_flags) (bytes o.connection_type_flags) in
      (
        record {
          bytes =
              written-IsBytes shown_flags 0 steam_id
                (player_bits-lt (m o.connection_type_flags) (bytes o.connection_type_flags))
                (omega arith);
          not_fake = at_fake shown_flags 0 steam_id;
          player_bit = ap (λ x. has_bit x 0) (at_flags shown_flags 0 steam_id) ∙ bits.0;
          bot_bit = ap (λ x. has_bit x 3) (at_flags shown_flags 0 steam_id) ∙ bits.1;
          mirrored =
              at_mirror shown_flags 0 steam_id fits ∙ sym (at_steam_id shown_flags 0 steam_id fits);
        },
        at_steam_id shown_flags 0 steam_id fits,
      )

  abbrev hidden_flags : ℕ
  hidden_flags = bot_bits (m o.connection_type_flags)

  pub hidden-IsBot : IsBot o (write_steam_id o (set_fake_player o m) 0)
  unfolding set_fake_player marked read_steam_id
  hidden-IsBot =
      let bits = bot_bits-has_bit (m o.connection_type_flags) (bytes o.connection_type_flags) in
      record {
        fake = at_fake hidden_flags 1 0;
        player_bit = ap (λ x. has_bit x 0) (at_flags hidden_flags 1 0) ∙ bits.1;
        bot_bit = ap (λ x. has_bit x 3) (at_flags hidden_flags 1 0) ∙ bits.0;
        no_steam_id = at_steam_id hidden_flags 1 0 (omega arith);
      }
