-- ===== src/Plugin/Disguised.antt =====
-- src/plugin.cpp, `Hook_OnClientConnected_Post`: a bot that connects is disguised.
use cs2_bot_identity.Base.{
  ℕ, ◌^◌, ◌<◌, ◌≡◌, ◌≢◌, ◌==◌, refl, sym, ap, subst, arith, ℤ, pos, Bool, true, false, not, ◌||◌,
  some, List, Bytes, bytes_eq, take, get_elem?, get_elem?-modify_self,
}
use cs2_bot_identity.BotInfo.{BotIdentity, max_slots}
use cs2_bot_identity.BotInfo.Pool.{get_free, reset_for_reuse}
use cs2_bot_identity.BotInfo.Pool.Choice.{Serves, fresh, recycled, get_free-Serves}
use cs2_bot_identity.IdentityManager.{is_managed, mark}
use cs2_bot_identity.Memory.{IsBytes}
use cs2_bot_identity.SscOps.{read_steam_id}
use cs2_bot_identity.EntityAccess.{is_slot_active, resolve_client_by_slot}
use cs2_bot_identity.VoteMarkers.Client.{IsDisguised}
use cs2_bot_identity.World.{World, Draws}
use cs2_bot_identity.Disguise.Bytes.{IsSpaced}
use cs2_bot_identity.Disguise.Shown.{IsApart, apply_disguise-IsDisguised}
use cs2_bot_identity.Plugin.{on_client_connected, release_slot, serve_free, adopt, in_range, hltv}
use cs2_bot_identity.Plugin.Connect.{IsSound, IsHandedOut, served-IsHandedOut}

-- Every identity has a SteamID64 of eight bytes.
abbrev pub AreWide : List BotIdentity → Type 0
AreWide bots = (i : ℕ) (b : BotIdentity) → get_elem? bots i ≡ some b → b.steam_id < 256 ^ 8

served-AreWide :
    (active : ℤ → Bool) (bots : List BotIdentity) (i : ℕ) (after : List BotIdentity)
    → AreWide bots
    → Serves active bots i after
    → (b : BotIdentity) → get_elem? after i ≡ some b
    → b.steam_id < 256 ^ 8
served-AreWide active bots i after wide (fresh c at free alone same) b at_b =
    wide i b (subst (λ l. get_elem? l i ≡ some b) same at_b)
served-AreWide active bots i after wide (recycled c at stale none_free same) b at_b =
    let reset : get_elem? after i ≡ some (reset_for_reuse c) =
      subst (λ l. get_elem? l i ≡ some (reset_for_reuse c)) (sym same)
        (get_elem?-modify_self reset_for_reuse bots i at) in
    let b_is : reset_for_reuse c ≡ b = cc in subst (λ d. d.steam_id < 256 ^ 8) b_is (wide i c at)

-- The client of slot `n` passes for a player, with an identity that is noted as worn there.
pub record Passes (w : World) (n client : ℕ) (u : World) : Type 0 where
  pub entry : ℕ
  pub identity : BotIdentity
  pub at : get_elem? u.roster.bots entry ≡ some identity
  pub slot : identity.slot ≡ pos n
  pub applied : identity.applied ≡ true
  pub shown : IsDisguised w.engine.offsets (u.engine.heap client)
  pub steam_id : read_steam_id w.engine.offsets (u.engine.heap client) ≡ identity.steam_id

-- The world in which a bot connects to a free slot: the plugin is at work, no map is suspended and no
-- vote window open, and the client is there with its controller beside it.
pub record Admits (w : World) (n : ℕ) (name : Bytes) : Type 0 where
  pub active : w.plugin_active ≡ true
  pub open_map : w.map_suspended ≡ false
  pub closed : w.vote.depth ≡ 0
  pub inside : n < max_slots
  pub free : is_managed w.roster.manager (pos n) ≡ false
  pub plays : bytes_eq (take 4 name) hltv ≡ false
  pub there : resolve_client_by_slot w.engine (pos n) ≢ 0
  pub spaced : IsSpaced w.engine.offsets
  pub bytes : IsBytes (w.engine.heap (resolve_client_by_slot w.engine (pos n)))
  pub apart : IsApart w.engine (resolve_client_by_slot w.engine (pos n))
  pub sound : IsSound w.roster
  pub wide : AreWide w.roster.bots
  pub others : (m : ℤ) → is_managed w.roster.manager m ≡ true → is_slot_active w.engine m ≡ true

module _ (w : World) (n : ℕ) (name : Bytes) (draws : Draws) (a : Admits w n name) where
  abbrev client : ℕ
  client = resolve_client_by_slot w.engine (pos n)

  connected-serve_free :
      on_client_connected w (pos n) name 0 true draws ≡ serve_free w (pos n) draws
  unfolding on_client_connected release_slot
  connected-serve_free =
      let a_active = a.active in
      let a_open = a.open_map in
      let a_plays = a.plays in
      let a_inside = a.inside in
      let a_free = a.free in
      let ours : (not w.plugin_active || not (in_range (pos n)) || bytes_eq (take 4 name) hltv)
          ≡ false =
        ground (arith) in
      let bot : (w.map_suspended || not (0 == 0) || not true) ≡ false = ground (arith) in
      rw (ours, bot, a_free) refl

  module _ (i : ℕ)
      (found : (get_free (is_slot_active w.engine) draws.pick w.roster.bots).0 ≡ some i) where
    abbrev after : List BotIdentity
    after = (get_free (is_slot_active w.engine) draws.pick w.roster.bots).1

    serves : Serves (is_slot_active w.engine) w.roster.bots i after
    serves =
        get_free-Serves (is_slot_active w.engine) draws.pick w.roster.bots i after
          (ap (λ o. (o, after)) found)

    handed : IsHandedOut w.roster i after
    handed =
        served-IsHandedOut w.roster a.sound.linked (is_slot_active w.engine) a.others i after serves

    adopted-Passes : Passes w n client (adopt w (pos n) i after draws)
    unfolding adopt
    adopted-Passes =
        let marked = record w {
          roster = record { bots = after; manager = mark w.roster.manager (pos n) (pos i) };
        } in
        let (shown, id, noted) =
          apply_disguise-IsDisguised marked (pos n) i draws handed.entry a.open_map a.closed
            handed.at handed.plain
            (served-AreWide (is_slot_active w.engine) w.roster.bots i after a.wide serves
              handed.entry handed.at)
            a.there a.spaced a.bytes a.apart in
        record {
          entry = i;
          identity = record handed.entry { slot = pos n; applied = true };
          at = noted;
          slot = refl;
          applied = refl;
          shown = shown;
          steam_id = id;
        }

    -- A bot that connects to a free slot passes for a player at once, with an identity that is noted
    -- as worn at that slot, if `GetFree` finds one. The plugin must be at work, outside suspended maps
    -- and vote windows, with a sound roster whose managed slots are active; the client must be there,
    -- its fields apart, and its controller another object.
    pub on_client_connected-Passes :
        Passes w n client (on_client_connected w (pos n) name 0 true draws)
    unfolding serve_free
    on_client_connected-Passes =
        subst (Passes w n client) (sym connected-serve_free) (rw (found, serve_free) adopted-Passes)
