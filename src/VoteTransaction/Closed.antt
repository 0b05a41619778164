-- ===== src/VoteTransaction/Closed.antt =====
-- src/vote_transaction.cpp: the objects of one managed bot behind `CaptureOneManagedSlot` and the
-- round of `RestorePlayerIdentity` over its snapshot.
use cs2_bot_identity.Base.{
  ℕ, ◌<◌, ◌≡◌, ◌≢◌, ◌∙◌, refl, ap, sym, subst, ◌==◌, ◌||◌, true, false, not, Option, none, some, [],
  pos, Option-cases, inl, inr, arith, leb, length, get_or, set, length-set, get_or-set_self,
}
use cs2_bot_identity.BotInfo.{max_slots}
use cs2_bot_identity.IdentityManager.{is_managed}
use cs2_bot_identity.EntityAccess.{Engine, resolve_client_by_slot}
use cs2_bot_identity.Memory.{Memory}
use cs2_bot_identity.SscOps.{get_entity_index, read_steam_id}
use cs2_bot_identity.World.{World, VoteSlotSnapshot, empty_snapshot, max_vote_slots}
use cs2_bot_identity.VoteMarkers.{restore_objects, apply_native_vote_markers}
use cs2_bot_identity.VoteMarkers.Client.{IsLaidOut, IsDisguised}
use cs2_bot_identity.VoteMarkers.RoundTrip.{
  MissesMarkers, AreDisguised, SameBytes, restore_objects-apply_native_vote_markers,
}
use cs2_bot_identity.VoteTransaction.{
  resolve_controller, take_snapshot, snapshot_controller, mark_native, restore_client,
  put_controller, capture_client, capture_one_managed_slot, set_snapshot, restore_one,
}
use cs2_bot_identity.VoteTransaction.OneBot.{
  live_controller, objects_in, Apart, restore_client-restore_objects,
  mark_native-apply_native_vote_markers,
}

-- A client and its controller have the same bytes in two engines.
abbrev pub SameObjects : Engine → Engine → ℕ → Option ℕ → Type 0
SameObjects after before client k =
    ((i : ℕ) → (objects_in after client k).client i ≡ (objects_in before client k).client i)
    × SameBytes (objects_in after client k).controller (objects_in before client k).controller

put_controller-offsets :
    (k : Option ℕ) (m : Option Memory) (e : Engine) → (put_controller k m e).offsets ≡ e.offsets
put_controller-offsets none m e = refl
put_controller-offsets (some c) none e = refl
put_controller-offsets (some c) (some m) e = refl

put_controller-resolve :
    (k : Option ℕ) (m : Option Memory) (e : Engine) (n : ℕ)
    → resolve_client_by_slot (put_controller k m e) (pos n) ≡ resolve_client_by_slot e (pos n)
unfolding resolve_client_by_slot
put_controller-resolve none m e n = refl
put_controller-resolve (some c) none e n = refl
put_controller-resolve (some c) (some m) e n = refl

mark_native-resolve :
    (e : Engine) (s : VoteSlotSnapshot) (client : ℕ) (k : Option ℕ) (n : ℕ)
    → resolve_client_by_slot (mark_native e s client k).0 (pos n) ≡ resolve_client_by_slot e (pos n)
unfolding mark_native resolve_client_by_slot
mark_native-resolve e s client k n = put_controller-resolve k _ _ n

-- The round over a snapshot whose client is still there.
closes :
    (u : World) (n : ℕ) (s : VoteSlotSnapshot)
    → get_or u.vote.snapshots n empty_snapshot ≡ s
    → s.captured ≡ true
    → is_managed u.roster.manager s.slot ≡ true
    → resolve_client_by_slot u.engine s.slot ≡ s.client
    → (restore_one n u).engine ≡ restore_client u.engine s
unfolding restore_one
closes u n s kept captured managed same =
    let goes : (not (is_managed u.roster.manager s.slot)
          || not (resolve_client_by_slot u.engine s.slot == s.client))
        ≡ false =
      ground (arith) in
    rw (restore_one, kept) (rw (captured, goes) refl)

-- What is to hold of the client `client` of a snapshot and of the controller `k`.
abbrev Restores : Engine → VoteSlotSnapshot → Option ℕ → ℕ → Type 0
Restores e s k client =
    s.ssc_steam_id ≡ read_steam_id e.offsets (objects_in e client k).client
    → Apart client k
    → IsDisguised e.offsets (objects_in e client k).client
    → AreDisguised e.offsets (objects_in e client k).controller
    → MissesMarkers e.offsets (mark_native e s client k).1.copies
    → live_controller (mark_native e s client k).0 (mark_native e s client k).1 ≡ k
    → SameObjects (restore_client (mark_native e s client k).0 (mark_native e s client k).1) e
        client k

marked-Restores :
    (e : Engine) (s : VoteSlotSnapshot) (k : Option ℕ)
    → s.copies ≡ []
    → IsLaidOut e.offsets
    → Restores e s k s.client
unfolding mark_native
marked-Restores e s k fresh laid sid apart d dk misses live =
    let o = e.offsets in
    let before = objects_in e s.client k in
    let opened = (mark_native e s s.client k).0 in
    let s' = (mark_native e s s.client k).1 in
    let marks =
      subst
        (λ cs.
          (objects_in opened s.client k, s'.copies)
          ≡ apply_native_vote_markers o s.ssc_steam_id cs before)
        fresh (mark_native-apply_native_vote_markers e s s.client k apart) in
    let marks' =
      subst
        (λ v. (objects_in opened s.client k, s'.copies) ≡ apply_native_vote_markers o v [] before)
        sid marks in
    let same_o : opened.offsets ≡ o = put_controller-offsets k _ _ in
    let closes = restore_client-restore_objects opened s' k live apart in
    let back =
      restore_objects-apply_native_vote_markers o before.client before.controller laid d dk
        (subst (MissesMarkers o) (ap (λ r. r.1) marks') misses) in
    let ends : objects_in (restore_client opened s') s.client k
        ≡ restore_objects o (read_steam_id o before.client)
            (apply_native_vote_markers o (read_steam_id o before.client) [] before).1
            (apply_native_vote_markers o (read_steam_id o before.client) [] before).0 =
      closes
      ∙ ap (λ p. restore_objects p s.ssc_steam_id s'.copies (objects_in opened s.client k)) same_o
      ∙ ap (λ v. restore_objects o v s'.copies (objects_in opened s.client k)) sid
      ∙ ap (λ r. restore_objects o (read_steam_id o before.client) r.1 r.0) marks' in
    subst (λ r. ((i : ℕ) → r.client i ≡ before.client i) × SameBytes r.controller before.controller)
      (sym ends) back

-- What a snapshot notes, whether the client has a controller or not.
take_snapshot-fields :
    (e : Engine) (n client : ℕ)
    → let s = take_snapshot e (pos n) client in
      (s.captured ≡ true)
      × (s.slot ≡ pos n)
      × (s.client ≡ client)
      × (s.ssc_steam_id ≡ read_steam_id e.offsets (e.heap client))
      × (s.copies ≡ [])
unfolding take_snapshot
take_snapshot-fields e n client =
    elim (Option-cases (resolve_controller e (get_entity_index e.offsets (e.heap client)))) [
      | inl alone ↦ rw (take_snapshot, alone) (refl, refl, refl, refl, refl)
      | inr (controller, there) ↦ rw (take_snapshot, there) (refl, refl, refl, refl, refl)
    ]

module _ (w : World) (n : ℕ) where
  abbrev pub bot_client : ℕ
  bot_client = resolve_client_by_slot w.engine (pos n)

  abbrev pub bot_controller : Option ℕ
  bot_controller = snapshot_controller (take_snapshot w.engine (pos n) bot_client)

  -- The world behind `CaptureOneManagedSlot`, and its snapshot of the slot.
  abbrev pub opened_world : World
  opened_world = (capture_one_managed_slot w (pos n)).0

  abbrev pub kept_snapshot : VoteSlotSnapshot
  kept_snapshot = get_or opened_world.vote.snapshots n empty_snapshot

  module _ (few : n < max_slots) (held : n < length w.vote.snapshots)
      (managed : is_managed w.roster.manager (pos n) ≡ true) (there : bot_client ≢ 0) where
    taken : VoteSlotSnapshot
    taken = take_snapshot w.engine (pos n) bot_client

    captures :
        (capture_one_managed_slot w (pos n)).0
        ≡ capture_client (set_snapshot n empty_snapshot w) n bot_client
    unfolding capture_one_managed_slot
    captures =
        let inside : (leb max_vote_slots n || leb max_slots n) ≡ false = ground (arith) in
        let works : (not (is_managed w.roster.manager (pos n)) || (bot_client == 0)) ≡ false =
          ground (arith) in
        rw (capture_one_managed_slot, inside, works) refl

    marked : VoteSlotSnapshot
    marked = (mark_native w.engine taken bot_client bot_controller).1

    kept-marked :
        get_or
          (capture_client (set_snapshot n empty_snapshot w) n bot_client).vote.snapshots
          n
          empty_snapshot
        ≡ marked
    unfolding capture_client taken marked
    kept-marked =
        let room = length-set w.vote.snapshots n empty_snapshot in
        get_or-set_self (set w.vote.snapshots n empty_snapshot) n _ empty_snapshot (omega arith)

    fields :
        (taken.captured ≡ true)
        × (taken.slot ≡ pos n)
        × (taken.client ≡ bot_client)
        × (taken.ssc_steam_id ≡ read_steam_id w.engine.offsets (w.engine.heap bot_client))
        × (taken.copies ≡ [])
    unfolding taken
    fields = take_snapshot-fields w.engine n bot_client

    objects-client : (e : Engine) (c : ℕ) (k : Option ℕ) → (objects_in e c k).client ≡ e.heap c
    objects-client e c none = refl
    objects-client e c (some k) = refl

    -- Behind `CaptureOneManagedSlot` for a managed slot with a disguised client, and the round of
    -- `RestorePlayerIdentity` over its snapshot, every byte of the client and of its controller in
    -- the engine is as it was. The slot must be below 64 and have a place in the table of snapshots;
    -- the controller, if there is one, must be another object that does not have the fake-client bit,
    -- and must be found live when the round comes to it. The marker bytes must lie apart from the
    -- SteamID64 fields, the table of copies must not have filled up, and no copy may lie over the
    -- marker bytes.
    pub restore_one-capture_one :
        IsLaidOut w.engine.offsets
        → IsDisguised w.engine.offsets (w.engine.heap bot_client)
        → AreDisguised w.engine.offsets (objects_in w.engine bot_client bot_controller).controller
        → Apart bot_client bot_controller
        → MissesMarkers w.engine.offsets kept_snapshot.copies
        → live_controller opened_world.engine kept_snapshot ≡ bot_controller
        → SameObjects (restore_one n opened_world).engine w.engine bot_client bot_controller
    unfolding capture_client taken marked mark_native
    restore_one-capture_one laid d dk apart misses live =
        let u = capture_client (set_snapshot n empty_snapshot w) n bot_client in
        let (captured, at_slot, its_client, sid, fresh) = fields in
        let heap_is = objects-client w.engine bot_client bot_controller in
        let kept : get_or opened_world.vote.snapshots n empty_snapshot ≡ marked =
          ap (λ v. get_or v.vote.snapshots n empty_snapshot) captures ∙ kept-marked in
        let misses' = subst (λ s. MissesMarkers w.engine.offsets s.copies) kept misses in
        let live' : live_controller u.engine marked ≡ bot_controller =
          subst (λ s. live_controller u.engine s ≡ bot_controller) kept
            (subst (λ v. live_controller v.engine kept_snapshot ≡ bot_controller) captures live) in
        let resolves =
          ap (resolve_client_by_slot u.engine) at_slot
          ∙ mark_native-resolve w.engine taken bot_client bot_controller n
          ∙ sym its_client in
        let ends =
          closes u n marked kept-marked captured
            (ap (is_managed w.roster.manager) at_slot ∙ managed) resolves in
        let same =
          subst (Restores w.engine taken bot_controller) its_client
            (marked-Restores w.engine taken bot_controller fresh laid)
            (sid ∙ ap (read_steam_id w.engine.offsets) (sym heap_is)) apart
            (subst (IsDisguised w.engine.offsets) (sym heap_is) d) dk misses' live' in
        subst (λ v. SameObjects (restore_one n v).engine w.engine bot_client bot_controller)
          (sym captures)
          (subst (λ e. SameObjects e w.engine bot_client bot_controller) (sym ends) same)
