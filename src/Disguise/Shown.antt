-- ===== src/Disguise/Shown.antt =====
-- src/plugin.cpp, `ApplyDisguise` and `RestoreIdentity`: what the client's bytes show behind them.
use cs2_bot_identity.Base.{
  ℕ, ◌^◌, ◌<◌, ◌≡◌, ◌≢◌, ◌==◌, inl, inr, refl, sym, ap, ◌∙◌, subst, arith, ℤ, true, false, Option,
  none, some, Bool-cases, ◌||◌, if◌then◌else◌, get_elem?, modify, get_elem?-modify_self,
}
use cs2_bot_identity.Memory.{Memory, IsBytes}
use cs2_bot_identity.SscOps.{
  clear_controller_fake_client_flag, set_controller_fake_client_flag, clear_fake_player,
  set_fake_player, write_steam_id, read_steam_id, get_entity_index,
}
use cs2_bot_identity.VoteMarkers.Client.{IsDisguised}
use cs2_bot_identity.EntityAccess.{
  Engine, resolve_player_controller, resolve_entity_instance, mark_entity_state_changed,
  resolve_client_by_slot,
}
use cs2_bot_identity.BotInfo.{BotIdentity, take_slot}
use cs2_bot_identity.World.{World, Draws, vote_transaction_active, write_identity}
use cs2_bot_identity.Disguise.Bytes.{IsSpaced, IsBot, shown-IsDisguised, hidden-IsBot}
use cs2_bot_identity.Disguise.{
  on_object, on_controller, disguise_engine, restore_engine, apply_disguise, disguise_entry,
  disguise_client, set_applied, restore_identity,
}

-- The controller that a client's entity index leads to, if there is one, is another object.
abbrev pub IsApart : Engine → ℕ → Type 0
IsApart e client =
    (c : ℕ)
    → resolve_player_controller e (get_entity_index e.offsets (e.heap client)) ≡ some c
    → c ≢ client

-- A write to a controller leaves every other object.
on_controller-elsewhere :
    (f : Memory → Memory) (index : ℤ) (e : Engine) (p : ℕ)
    → ((c : ℕ) → resolve_player_controller e index ≡ some c → c ≢ p)
    → (on_controller f index e).heap p ≡ e.heap p
unfolding on_controller
on_controller-elsewhere f index e p apart = go (resolve_player_controller e index) apart
  where
    go :
        (o : Option ℕ)
        → ((c : ℕ) → o ≡ some c → c ≢ p)
        → (elim o as (λ x. Engine) [
          | none ↦ e
          | some controller ↦ mark_entity_state_changed controller (on_object f controller e)
        ]).heap
            p
          ≡ e.heap p
    go none h = refl
    go (some c) h =
        let ne : (p == c) ≡ false = ground (arith, h c refl) in
        elim (Bool-cases (c == 0)) [
          | inl null ↦ rw (null, ne) refl
          | inr there ↦ rw (there, ne) refl
        ]

module _ (e : Engine) (client : ℕ) (apart : IsApart e client) where
  self : (client == client) ≡ true
  self = ground (arith)

  disguise_engine-client :
      (steam_id : ℕ)
      → (disguise_engine e client steam_id).heap client
        ≡ write_steam_id e.offsets (clear_fake_player e.offsets (e.heap client)) steam_id
  unfolding disguise_engine resolve_player_controller resolve_entity_instance
  disguise_engine-client steam_id =
      let written =
        on_object (λ m. write_steam_id e.offsets (clear_fake_player e.offsets m) steam_id) client
          e in
      on_controller-elsewhere (clear_controller_fake_client_flag e.offsets)
        (get_entity_index e.offsets (e.heap client)) written client apart
      ∙ rw self refl

  restore_engine-client :
      (restore_engine e client).heap client
      ≡ write_steam_id e.offsets (set_fake_player e.offsets (e.heap client)) 0
  unfolding restore_engine
  restore_engine-client = rw self (
      ap (λ m. write_steam_id e.offsets (set_fake_player e.offsets m) 0)
        (on_controller-elsewhere (set_controller_fake_client_flag e.offsets)
          (get_entity_index e.offsets (e.heap client)) e client apart))

-- Where no guard of `ApplyDisguise` refuses, all of it is done.
pub apply_disguise-client :
    (w : World) (slot : ℤ) (i : ℕ) (draws : Draws) (b : BotIdentity)
    → w.map_suspended ≡ false
    → get_elem? w.roster.bots i ≡ some b
    → b.applied ≡ false
    → (vote_transaction_active w || (resolve_client_by_slot w.engine slot == 0)) ≡ false
    → apply_disguise w slot i draws
      ≡ disguise_client
          (write_identity (take_slot slot) i w)
          slot
          i
          b
          (resolve_client_by_slot w.engine slot)
          draws
unfolding apply_disguise disguise_entry
apply_disguise-client w slot i draws b open_map at plain goes =
    ap (λ s. if s then w else disguise_entry w slot i draws) open_map
    ∙ rw (at, plain, goes, disguise_entry) refl

-- The bytes of a disguised client are those of a player with the identity's SteamID64, and the entry
-- is noted as worn and disguised. This is so outside suspended maps and vote windows, for a client
-- that is there, an entry that is not disguised yet, fields that lie apart, and a controller that is
-- another object than the client.
pub apply_disguise-IsDisguised :
    (w : World) (slot : ℤ) (i : ℕ) (draws : Draws) (b : BotIdentity)
    → w.map_suspended ≡ false
    → w.vote.depth ≡ 0
    → get_elem? w.roster.bots i ≡ some b
    → b.applied ≡ false
    → b.steam_id < 256 ^ 8
    → let client = resolve_client_by_slot w.engine slot in
      let u = apply_disguise w slot i draws in
      client ≢ 0
      → IsSpaced w.engine.offsets
      → IsBytes (w.engine.heap client)
      → IsApart w.engine client
      → IsDisguised w.engine.offsets (u.engine.heap client)
        × (read_steam_id w.engine.offsets (u.engine.heap client) ≡ b.steam_id)
        × (get_elem? u.roster.bots i ≡ some (record b { slot = slot; applied = true }))
unfolding disguise_client
apply_disguise-IsDisguised w slot i draws b open_map closed at plain fits there spaced bytes apart =
    let client = resolve_client_by_slot w.engine slot in
    let o = w.engine.offsets in
    let goes : (vote_transaction_active w || (client == 0)) ≡ false = ground (arith) in
    let (shown, id) = shown-IsDisguised o spaced (w.engine.heap client) bytes b.steam_id fits in
    let noted : get_elem? (modify set_applied (modify (take_slot slot) w.roster.bots i) i) i
        ≡ some (record b { slot = slot; applied = true }) =
      get_elem?-modify_self set_applied (modify (take_slot slot) w.roster.bots i) i
        (get_elem?-modify_self (take_slot slot) w.roster.bots i at) in
    let held = write_identity (take_slot slot) i w in
    let bytes_are = disguise_engine-client w.engine client apart b.steam_id in
    subst
      (λ u.
        IsDisguised o (u.engine.heap client)
        × (read_steam_id o (u.engine.heap client) ≡ b.steam_id)
        × (get_elem? u.roster.bots i ≡ some (record b { slot = slot; applied = true })))
      (sym (apply_disguise-client w slot i draws b open_map at plain goes))
      (
        subst (IsDisguised o) (sym bytes_are) shown,
        subst (λ m. read_steam_id o m ≡ b.steam_id) (sym bytes_are) id,
        noted,
      )

-- A client that `RestoreIdentity` was called for shows as a bot again, without a SteamID64, if it is
-- there, its fields lie apart, and its controller is another object.
pub restore_identity-IsBot :
    (w : World) (slot : ℤ)
    → let client = resolve_client_by_slot w.engine slot in
      client ≢ 0
      → IsSpaced w.engine.offsets
      → IsBytes (w.engine.heap client)
      → IsApart w.engine client
      → IsBot w.engine.offsets ((restore_identity w slot).engine.heap client)
unfolding restore_identity
restore_identity-IsBot w slot there spaced bytes apart =
    let client = resolve_client_by_slot w.engine slot in
    let found : (client == 0) ≡ false = ground (arith) in
    rw (found, restore_engine-client w.engine client apart)
      (hidden-IsBot w.engine.offsets spaced (w.engine.heap client) bytes)
