-- ===== src/VoteMarkers/Client.antt =====
-- The client's bytes through a vote window of src/vote_transaction.cpp.
use cs2_bot_identity.Base.{
  ℕ, ◌+◌, ◌<◌, ◌≤◌, ◌≡◌, ◌≢◌, ◌∙◌, ◌⊎◌, inl, inr, refl, sym, ap, arith, true, false, Bool-cases,
  has_bit, ◌==◌, ==_iff, player_bits, bot_bits, bot_bits-lt, player_bits-bot_bits,
}
use cs2_bot_identity.Memory.{Memory, IsBytes, store, read_le, write_le}
use cs2_bot_identity.Memory.Laws.{write_back, write_le-outside, store-IsBytes, store_ne, store_self}
use cs2_bot_identity.SscOps.{
  Offsets, set_fake_player, clear_fake_player, write_steam_id, read_steam_id,
}

-- The marker bytes of a client lie apart from each other and from its two SteamID64 fields.
pub record IsLaidOut (o : Offsets) : Type 0 where
  pub flags_ne_fake : o.connection_type_flags ≢ o.fake_player
  pub flags_steam_id :
      (o.connection_type_flags < o.steam_id) ⊎ (o.steam_id + 8 ≤ o.connection_type_flags)
  pub flags_mirror :
      (o.connection_type_flags < o.steam_id_mirror)
      ⊎ (o.steam_id_mirror + 8 ≤ o.connection_type_flags)

-- What `ApplyDisguise` makes of a client.
pub record IsDisguised (o : Offsets) (m : Memory) : Type 0 where
  pub bytes : IsBytes m
  pub not_fake : m o.fake_player ≡ 0
  pub player_bit : has_bit (m o.connection_type_flags) 0 ≡ true
  pub bot_bit : has_bit (m o.connection_type_flags) 3 ≡ false
  pub mirrored : read_le 8 m o.steam_id_mirror ≡ read_le 8 m o.steam_id

module _ (o : Offsets) (m : Memory) (laid : IsLaidOut o) (d : IsDisguised o m) where
  pub set_fake_player-IsBytes : IsBytes (set_fake_player o m)
  unfolding set_fake_player
  set_fake_player-IsBytes =
      store-IsBytes _ o.fake_player 1
        (store-IsBytes m o.connection_type_flags _ d.bytes
          (bot_bits-lt _ (d.bytes o.connection_type_flags)))
        (omega arith)

  -- Opening the window touches the two marker bytes.
  pub set_fake_player-else :
      (i : ℕ) → i ≢ o.connection_type_flags → i ≢ o.fake_player → set_fake_player o m i ≡ m i
  unfolding set_fake_player
  set_fake_player-else i ne_flags ne_fake =
      store_ne (store m o.connection_type_flags (bot_bits (m o.connection_type_flags)))
        o.fake_player 1 i ne_fake
      ∙ store_ne m o.connection_type_flags (bot_bits (m o.connection_type_flags)) i ne_flags

  set_fake_player-flags :
      set_fake_player o m o.connection_type_flags ≡ bot_bits (m o.connection_type_flags)
  unfolding set_fake_player
  set_fake_player-flags =
      store_ne (store m o.connection_type_flags (bot_bits (m o.connection_type_flags)))
        o.fake_player 1 o.connection_type_flags laid.flags_ne_fake
      ∙ store_self m o.connection_type_flags (bot_bits (m o.connection_type_flags))
          o.connection_type_flags refl

  -- Closing it, over any memory that agrees with the opened one at byte `i` and at the flags.
  clear_fake_player-back :
      (m' : Memory) (i : ℕ)
      → m' i ≡ set_fake_player o m i
      → m' o.connection_type_flags ≡ set_fake_player o m o.connection_type_flags
      → clear_fake_player o m' i ≡ m i
  unfolding clear_fake_player
  clear_fake_player-back m' i agree flags = elim (Bool-cases (i == o.fake_player)) [
    | inl fake ↦
        let e : i ≡ o.fake_player = (==_iff _ _).0 fake in
        store_self (store m' o.connection_type_flags (player_bits (m' o.connection_type_flags)))
          o.fake_player 0 i e
        ∙ sym (rw e d.not_fake)
    | inr not_fake ↦
        let ne_fake : i ≢ o.fake_player = λ e. ground arith in
        store_ne (store m' o.connection_type_flags (player_bits (m' o.connection_type_flags)))
          o.fake_player 0 i ne_fake
        ∙ elim (Bool-cases (i == o.connection_type_flags)) [
          | inl at_flags ↦
              let e : i ≡ o.connection_type_flags = (==_iff _ _).0 at_flags in
              store_self m' o.connection_type_flags (player_bits (m' o.connection_type_flags)) i e
              ∙ ap player_bits (flags ∙ set_fake_player-flags)
              ∙ player_bits-bot_bits _ (d.bytes o.connection_type_flags) d.player_bit d.bot_bit
              ∙ ap m (sym e)
          | inr elsewhere ↦
              let ne : i ≢ o.connection_type_flags = λ e. ground arith in
              store_ne m' o.connection_type_flags (player_bits (m' o.connection_type_flags)) i ne
              ∙ agree
              ∙ set_fake_player-else i ne ne_fake
        ]
  ]

  -- The whole window, at a byte that is in no copy. `zeroed` is the client behind the scan.
  pub client_back :
      (zeroed : Memory) (i : ℕ)
      → zeroed i ≡ set_fake_player o m i
      → zeroed o.connection_type_flags ≡ set_fake_player o m o.connection_type_flags
      → write_steam_id o (clear_fake_player o (write_steam_id o zeroed 0)) (read_steam_id o m) i
        ≡ m i
  unfolding write_steam_id read_steam_id
  client_back zeroed i agree flags =
      write_back 8 m _ o.steam_id_mirror _ i d.bytes d.mirrored λ out_mirror.
        write_back 8 m _ o.steam_id _ i d.bytes refl λ out_steam_id.
          clear_fake_player-back _ i (cleared i out_steam_id out_mirror ∙ agree)
            (cleared o.connection_type_flags laid.flags_steam_id laid.flags_mirror ∙ flags)
    where
      cleared :
          (j : ℕ)
          → (j < o.steam_id) ⊎ (o.steam_id + 8 ≤ j)
          → (j < o.steam_id_mirror) ⊎ (o.steam_id_mirror + 8 ≤ j)
          → write_le 8 (write_le 8 zeroed o.steam_id 0) o.steam_id_mirror 0 j ≡ zeroed j
      cleared j out out_mirror =
          write_le-outside 8 (write_le 8 zeroed o.steam_id 0) o.steam_id_mirror 0 j out_mirror
          ∙ write_le-outside 8 zeroed o.steam_id 0 j out
