-- ===== src/VoteTransaction/OneBot.antt =====
-- src/vote_transaction.cpp: what opening and closing a window does to the objects of the engine is
-- what `VoteMarkers` does to the two objects of the bot.
use cs2_bot_identity.Base.{
  ℕ, ◌≡◌, ◌≢◌, refl, ap, sym, ◌==◌, true, false, Option, none, some, List, Bool-cases, inl, inr,
  arith,
}
use cs2_bot_identity.EntityAccess.{Engine}
use cs2_bot_identity.Memory.{Memory}
use cs2_bot_identity.SscOps.{
  Offsets, set_controller_fake_client_flag, write_steam_id, clear_fake_player,
}
use cs2_bot_identity.World.{VoteSlotSnapshot}
use cs2_bot_identity.Disguise.{on_object}
use cs2_bot_identity.VoteScan.{
  SteamIdCopy, Objects, scan_and_zero_steam_id_copies, restore_steam_id_copies,
}
use cs2_bot_identity.VoteMarkers.{restore_objects, apply_native_vote_markers}
use cs2_bot_identity.VoteTransaction.{
  mark_native, restore_client, snapshot_controller_live, put_objects,
}

-- The controller that is live once the client is written, if there is one.
abbrev pub live_controller : Engine → VoteSlotSnapshot → Option ℕ
live_controller e s =
    snapshot_controller_live
      (on_object (λ m. write_steam_id e.offsets (clear_fake_player e.offsets m) s.ssc_steam_id)
        s.client e)
      s s.client

abbrev pub objects_in : Engine → ℕ → Option ℕ → Objects
objects_in e client none = record { client = e.heap client; controller = none }
objects_in e client (some c) = record { client = e.heap client; controller = some (e.heap c) }

-- The controller is not the client.
abbrev pub Apart : ℕ → Option ℕ → Type 0
Apart client none = Unit
Apart client (some c) = c ≢ client

-- Closing the window on one bot does to its two objects in the engine what `restore_objects` does to
-- a pair of objects, where `k` is the controller that is live then and is not the client.
pub restore_client-restore_objects :
    (e : Engine) (s : VoteSlotSnapshot) (k : Option ℕ)
    → live_controller e s ≡ k
    → Apart s.client k
    → objects_in (restore_client e s) s.client k
      ≡ restore_objects e.offsets s.ssc_steam_id s.copies (objects_in e s.client k)
unfolding restore_client restore_objects restore_steam_id_copies
restore_client-restore_objects e s none live apart =
    let self : (s.client == s.client) ≡ true = ground (arith) in rw live (rw self refl)
restore_client-restore_objects e s (some c) live apart =
    let self : (s.client == s.client) ≡ true = ground (arith) in
    let self_c : (c == c) ≡ true = ground (arith) in
    let ne : (s.client == c) ≡ false = ground (arith) in
    let ne' : (c == s.client) ≡ false = ground (arith) in
    elim (Bool-cases (c == 0)) [
      | inl null ↦ rw live (rw (null, self, self_c, ne, ne') refl)
      | inr there ↦ rw live (rw (there, self, self_c, ne, ne') refl)
    ]

kept_none :
    (o : Offsets) (sid : ℕ) (cs : List SteamIdCopy) (m : Memory)
    → (apply_native_vote_markers o sid cs (record { client = m; controller = none })).0.controller
      ≡ none
unfolding apply_native_vote_markers scan_and_zero_steam_id_copies
kept_none o sid cs m = elim (Bool-cases (sid == 0)) [ inl e ↦ rw e refl | inr e ↦ rw e refl ]

kept_some :
    (o : Offsets) (sid : ℕ) (cs : List SteamIdCopy) (m k : Memory)
    → (k' : Memory) × ((apply_native_vote_markers o sid cs
          (record { client = m; controller = some k })).0.controller
        ≡ some k')
unfolding apply_native_vote_markers scan_and_zero_steam_id_copies
kept_some o sid cs m k = elim (Bool-cases (sid == 0)) [
  | inl e ↦ (set_controller_fake_client_flag o k, rw e refl)
  | inr e ↦ rw e (_, refl)
]

-- Opening the window on one bot does to its two objects in the engine what
-- `apply_native_vote_markers` does to a pair of objects, and notes the same copies, where `k` is the
-- controller and is not the client.
pub mark_native-apply_native_vote_markers :
    (e : Engine) (s : VoteSlotSnapshot) (client : ℕ) (k : Option ℕ)
    → Apart client k
    → (objects_in (mark_native e s client k).0 client k, (mark_native e s client k).1.copies)
      ≡ apply_native_vote_markers e.offsets s.ssc_steam_id s.copies (objects_in e client k)
unfolding mark_native
mark_native-apply_native_vote_markers e s client none apart =
    let done =
      apply_native_vote_markers e.offsets s.ssc_steam_id s.copies (objects_in e client none) in
    let self : (client == client) ≡ true = ground (arith) in
    rw self (
      ap (λ k. (record { client = done.0.client; controller = k }, done.1))
        (sym (kept_none e.offsets s.ssc_steam_id s.copies (e.heap client))))
mark_native-apply_native_vote_markers e s client (some c) apart =
    let (k', k_is) = kept_some e.offsets s.ssc_steam_id s.copies (e.heap client) (e.heap c) in
    let self : (client == client) ≡ true = ground (arith) in
    let self_c : (c == c) ≡ true = ground (arith) in
    let ne : (client == c) ≡ false = ground (arith) in
    rw (k_is, put_objects) (rw (self, self_c, ne) refl)
