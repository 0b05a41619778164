-- ===== src/Disguise/Published.antt =====
-- src/plugin.cpp, the end of `ApplyDisguise`: what a reader of the shared region sees of the slot.
use cs2_bot_identity.Base.{
  get_elem?, ◌||◌, Bool-cases, inl, inr, ap, sym, subst, ℤ, Bool, true, false, ℕ, ◌+◌, ◌%◌, ◌^◌,
  ◌<◌, ◌≤◌, ◌≡◌, ◌≢◌, ◌∙◌, ◌==◌, ◌&&◌, refl, arith, pos, ltb, ltb_ℤ, not, true, false, Option, none,
  some, [], ◌∷◌, Bytes, is_empty, if_keeps, if◌then◌else◌,
}
use cs2_bot_identity.Memory.{Memory}
use cs2_bot_identity.BotInfo.{BotIdentity, PluginFeatures}
use cs2_bot_identity.World.{World, Draws, vote_transaction_active}
use cs2_bot_identity.EntityAccess.{resolve_client_by_slot}
use cs2_bot_identity.Disguise.Shown.{apply_disguise-client}
use cs2_bot_identity.ShmPub.{
  shm_max_slots, shm_name_len, crosshair_len, of_int32, publish_adopt, bump_incarnation,
  publish_ping, publish_crosshair, publish_scoreboard_flair,
}
use cs2_bot_identity.ShmPub.View.{
  Field, state, steam_id, name, ping, crosshair, flair, incarnation, Region, region, le_bytes,
  of_bytes,
}
use cs2_bot_identity.ShmPub.Layout.{rank, put_field}
use cs2_bot_identity.ShmPub.Refine.{
  Refines, field_text, publish_adopt-Refines, bump_incarnation-Refines, publish_field-Refines,
}
use cs2_bot_identity.Disguise.{
  apply_disguise, disguise_entry, disguise_client, publish_identity, pick_fake_ping,
  pick_scoreboard_flair,
}

-- A write elsewhere is not seen.
put_field-else :
    (r : Region) (g : Field) (n : ℕ) (v : Bytes) (f : Field) (k : ℕ)
    → (rank f == rank g && k == n) ≡ false
    → put_field r g n v f k ≡ r f k
unfolding put_field
put_field-else r g n v f k e = rw e refl

module _ (m : Memory) (n : ℕ) (n_lt : n < shm_max_slots) (b : BotIdentity) where
  -- The slot shows the identity `b`, and the other slots show what they showed in `m`.
  pub record Presents (m' : Memory) : Type 0 where
    pub taken : region m' state n ≡ 1 ∷ []
    pub steam : region m' steam_id n ≡ le_bytes 8 b.steam_id
    pub named : region m' name n ≡ field_text shm_name_len b.name
    pub others : (f : Field) (k : ℕ) → k < shm_max_slots → k ≢ n → region m' f k ≡ region m f k

  abbrev pub PresentsAll : Option Memory → Type 0
  PresentsAll none = ⊥
  PresentsAll (some m') = Presents m'

  -- A write of one of the later fields of the slot keeps that.
  further :
      (op : Option Memory → Option Memory) (g : Field) (v : Region → Bytes)
      → 3 ≤ rank g
      → ((u : Memory) → Refines u (op (some u)) (λ r. put_field r g n (v r)))
      → (view : Option Memory) → PresentsAll view
      → PresentsAll (op view)
  further op g v late does none h = absurd h
  further op g v late does (some u) h = go (op (some u)) (does u)
    where
      go : (o : Option Memory) → Refines u o (λ r. put_field r g n (v r)) → PresentsAll o
      go none e = e
      go (some u') e = record {
        taken =
            e state n n_lt
            ∙ put_field-else (region u) g n (v (region u)) state n (ground (arith))
            ∙ h.taken;
        steam =
            e steam_id n n_lt
            ∙ put_field-else (region u) g n (v (region u)) steam_id n (ground (arith))
            ∙ h.steam;
        named =
            e name n n_lt
            ∙ put_field-else (region u) g n (v (region u)) name n (ground (arith))
            ∙ h.named;
        others = λ f k k_lt ne.
            e f k k_lt
            ∙ put_field-else (region u) g n (v (region u)) f k (ground (arith))
            ∙ h.others f k k_lt ne;
      }

  adopted-Presents : PresentsAll (publish_adopt (some m) (pos n) b.steam_id (some b.name))
  unfolding put_field
  adopted-Presents =
      go (publish_adopt (some m) (pos n) b.steam_id (some b.name))
        (publish_adopt-Refines m n n_lt b.steam_id b.name)
    where
      go :
          (o : Option Memory)
          → Refines m o (λ r.
            put_field
              (put_field (put_field r state n (1 ∷ [])) steam_id n (le_bytes 8 b.steam_id))
              name
              n
              (field_text shm_name_len b.name))
          → PresentsAll o
      go none e = e
      go (some u) e =
          let put_state = put_field (region m) state n (1 ∷ []) in
          let numbered = put_field put_state steam_id n (le_bytes 8 b.steam_id) in
          let self : (n == n) ≡ true = ground (arith) in
          record {
            taken = e state n n_lt ∙ rw self refl;
            steam = e steam_id n n_lt ∙ rw self refl;
            named = e name n n_lt ∙ rw self refl;
            others = λ f k k_lt ne.
                let far : (k == n) ≡ false = ground (arith) in
                e f k k_lt
                ∙ put_field-else numbered name n (field_text shm_name_len b.name) f k
                    (ground (arith))
                ∙ put_field-else put_state steam_id n (le_bytes 8 b.steam_id) f k (ground (arith))
                ∙ put_field-else (region m) state n (1 ∷ []) f k (ground (arith));
          }

  -- What `ApplyDisguise` publishes, whatever the features and the draws.
  publish_identity-Presents :
      (f : PluginFeatures) (draws : Draws)
      → PresentsAll (publish_identity f (pos n) b draws (some m))
  unfolding publish_identity
  publish_identity-Presents f draws =
      let slot = pos n in
      let adopted = bump_incarnation (publish_adopt (some m) slot b.steam_id (some b.name)) slot in
      let adopted_shows =
        further (λ o. bump_incarnation o slot) incarnation
          (λ r. le_bytes 8 ((of_bytes (r incarnation n) + 1) % 2 ^ 64)) (omega arith)
          (λ u. bump_incarnation-Refines u n n_lt)
          (publish_adopt (some m) slot b.steam_id (some b.name)) adopted-Presents in
      let number = pick_fake_ping f b draws.ping in
      let item = pick_scoreboard_flair f b draws.flair in
      let code = some b.crosshair in
      let has_ping = f.enable_fake_ping && ltb_ℤ (pos 0) number in
      let pinged = if has_ping then publish_ping adopted slot number else adopted in
      let pinged_shows =
        if_keeps PresentsAll has_ping (publish_ping adopted slot number) adopted
          (further (λ o. publish_ping o slot number) ping (λ r. le_bytes 4 (of_int32 number))
            (omega arith) (λ u. (publish_field-Refines u n n_lt number item code).0) adopted
            adopted_shows)
          adopted_shows in
      let has_code = f.enable_crosshair && not (is_empty b.crosshair) in
      let aimed = if has_code then publish_crosshair pinged slot code else pinged in
      let aimed_shows =
        if_keeps PresentsAll has_code (publish_crosshair pinged slot code) pinged
          (further (λ o. publish_crosshair o slot code) crosshair
            (λ r. field_text crosshair_len b.crosshair) (omega arith)
            (λ u. (publish_field-Refines u n n_lt number item code).2) pinged pinged_shows)
          pinged_shows in
      if_keeps PresentsAll (ltb 0 item) (publish_scoreboard_flair aimed slot item) aimed
        (further (λ o. publish_scoreboard_flair o slot item) flair (λ r. le_bytes 4 item)
          (omega arith) (λ u. (publish_field-Refines u n n_lt number item code).1) aimed
          aimed_shows)
        aimed_shows

-- `ApplyDisguise` stops at one of its guards: the map is suspended, the identity is disguised
-- already, a vote window is open, or the client is not there.
abbrev pub refuses : World → ℤ → BotIdentity → Bool
refuses w slot b =
    w.map_suspended
    || b.applied
    || not (w.vote.depth == 0)
    || (resolve_client_by_slot w.engine slot == 0)

-- What the region shows behind a call that stops at a guard, and behind one that does not.
abbrev pub Publishes :
    (m : Memory) (n : ℕ) → n < shm_max_slots → BotIdentity → World → Bool → Type 0
Publishes m n n_lt b u true = u.shm_view ≡ some m
Publishes m n n_lt b u false = PresentsAll m n n_lt b u.shm_view

refused-same :
    (w : World) (slot : ℤ) (i : ℕ) (draws : Draws) (b : BotIdentity)
    → get_elem? w.roster.bots i ≡ some b
    → refuses w slot b ≡ true
    → (apply_disguise w slot i draws).shm_view ≡ w.shm_view
unfolding apply_disguise disguise_entry
refused-same w slot i draws b at e =
    let entered =
      if_keeps (λ u. u.shm_view ≡ w.shm_view) w.map_suspended w (disguise_entry w slot i draws)
        refl in
    elim (Bool-cases w.map_suspended) [
      | inl shut ↦ ap (λ s. (if s then w else disguise_entry w slot i draws).shm_view) shut
      | inr open_map ↦ entered (elim (Bool-cases b.applied) [
        | inl on ↦ rw (disguise_entry, at, on) refl
        | inr plain ↦
            let stops : (vote_transaction_active w || (resolve_client_by_slot w.engine slot == 0))
                ≡ true =
              ground (arith) in
            rw (disguise_entry, at, plain, stops) refl
      ])
    ]

-- For a mapped region and one of its slots: behind `ApplyDisguise` the slot's state is 1 and its
-- SteamID64 and its name, cut at 31 bytes and padded, are those of the identity, whatever the
-- features and the draws, and all fields of the other slots are as they were. If the map is
-- suspended, the identity disguised already, a vote window open or the client not there, the region
-- is as it was.
pub apply_disguise-Publishes :
    (w : World) (m : Memory) (n : ℕ) (n_lt : n < shm_max_slots) (i : ℕ) (draws : Draws)
    (b : BotIdentity)
    → w.shm_view ≡ some m
    → get_elem? w.roster.bots i ≡ some b
    → Publishes m n n_lt b (apply_disguise w (pos n) i draws) (refuses w (pos n) b)
unfolding disguise_client
apply_disguise-Publishes w m n n_lt i draws b mapped at = elim (Bool-cases (refuses w (pos n) b)) [
  | inl refused ↦
      subst (Publishes m n n_lt b (apply_disguise w (pos n) i draws)) (sym refused)
        (refused-same w (pos n) i draws b at refused ∙ mapped)
  | inr goes ↦
      let open_map : w.map_suspended ≡ false = ground (arith) in
      let plain : b.applied ≡ false = ground (arith) in
      let free : (vote_transaction_active w || (resolve_client_by_slot w.engine (pos n) == 0))
          ≡ false =
        ground (arith) in
      let shows =
        subst (λ v. PresentsAll m n n_lt b (publish_identity w.features (pos n) b draws v))
          (sym mapped) (publish_identity-Presents m n n_lt b w.features draws) in
      subst (Publishes m n n_lt b (apply_disguise w (pos n) i draws)) (sym goes) (
        subst (λ u. PresentsAll m n n_lt b u.shm_view)
          (sym (apply_disguise-client w (pos n) i draws b open_map at plain free)) shows)
]
