-- ===== src/VoteMarkers/RoundTrip.antt =====
-- A vote window of src/vote_transaction.cpp gives back every byte of a disguised bot's objects.
use mathlib.Core.Option
use cs2_bot_identity.Base.{
  ℕ, ◌+◌, ◌<◌, ◌≤◌, ◌≡◌, ◌∙◌, ◌⊎◌, inl, inr, subst, arith, Bool, true, false, Bool-cases, Option,
  some, none, List, [], length,
}
use cs2_bot_identity.Memory.{Memory}
use cs2_bot_identity.SscOps.{
  Offsets, read_steam_id, set_fake_player, set_controller_fake_client_flag, write_steam_id,
  clear_fake_player, clear_controller_fake_client_flag,
}
use cs2_bot_identity.VoteScan.{
  SteamIdCopy, restore_region, restore_steam_id_copies, max_steam_id_copies,
}
use cs2_bot_identity.VoteScan.Saved.{covers}
use cs2_bot_identity.VoteScan.Undo.{Undoes, UndoesController, AreBytes, scan_and_zero-UndoesBoth}
use cs2_bot_identity.VoteMarkers.{apply_native_vote_markers, restore_objects}
use cs2_bot_identity.VoteMarkers.Client.{
  IsLaidOut, IsDisguised, set_fake_player-IsBytes, client_back, set_fake_player-else,
}
use cs2_bot_identity.VoteMarkers.Controller.{
  IsPlayerController, controller_back, set_controller_fake_client_flag-IsBytes,
  set_controller_fake_client_flag-else,
}

-- No copy in the table lies over the marker bytes, which change between the scan and the restore.
pub record MissesMarkers (o : Offsets) (copies : List SteamIdCopy) : Type 0 where
  pub room : length copies < max_steam_id_copies
  pub flags : covers false copies o.connection_type_flags ≡ false
  pub fake : covers false copies o.fake_player ≡ false
  pub controller_flags :
      (i : ℕ)
      → o.controller_fake_client_flags ≤ i
      → i < o.controller_fake_client_flags + 4
      → covers true copies i ≡ false

module _ (o : Offsets) (m : Memory) (laid : IsLaidOut o) (d : IsDisguised o m) where
  client_restored :
      (zeroed : Memory) (copies : List SteamIdCopy)
      → MissesMarkers o copies
      → Undoes (set_fake_player o m) zeroed false copies
      → (i : ℕ)
      → restore_region copies false
          (write_steam_id o (clear_fake_player o (write_steam_id o zeroed 0)) (read_steam_id o m))
          i
        ≡ m i
  client_restored zeroed copies misses u i =
      u.restored _ i ∙ elim (Bool-cases (covers false copies i)) [
        | inl covered ↦ rw covered (
            set_fake_player-else o m laid d i
              (λ e. differs (subst (λ j. covers false copies j ≡ true) e covered) misses.flags)
              (λ e. differs (subst (λ j. covers false copies j ≡ true) e covered) misses.fake))
        | inr free ↦ rw free (
            client_back o m laid d zeroed i (u.untouched i free)
              (u.untouched o.connection_type_flags misses.flags))
      ]
    where
      differs : {b : Bool} → b ≡ true → b ≡ false → ⊥
      differs p q = cc

module _ (o : Offsets) (m : Memory) (d : IsPlayerController o m) where
  controller_restored :
      (zeroed : Memory) (copies : List SteamIdCopy)
      → MissesMarkers o copies
      → Undoes (set_controller_fake_client_flag o m) zeroed true copies
      → (i : ℕ) → restore_region copies true (clear_controller_fake_client_flag o zeroed) i ≡ m i
  controller_restored zeroed copies misses u i =
      u.restored _ i ∙ elim (Bool-cases (covers true copies i)) [
        | inl covered ↦ rw covered (set_controller_fake_client_flag-else o m d i (outside covered))
        | inr free ↦ rw free (
            controller_back o m d zeroed i (u.untouched i free)
              (λ j from to. u.untouched j (misses.controller_flags j from to)))
      ]
    where
      outside :
          covers true copies i ≡ true
          → (i < o.controller_fake_client_flags) ⊎ (o.controller_fake_client_flags + 4 ≤ i)
      outside covered = ground (arith, misses.controller_flags i)

abbrev pub AreDisguised : Offsets → Option Memory → Type 0
AreDisguised o none = Unit
AreDisguised o (some m) = IsPlayerController o m

abbrev pub SameBytes : Option Memory → Option Memory → Type 0
SameBytes none none = Unit
SameBytes (some m) (some m') = (i : ℕ) → m i ≡ m' i
SameBytes _ _ = ⊥

marked_controller-AreBytes :
    (o : Offsets) (k : Option Memory)
    → AreDisguised o k
    → AreBytes (Option.map (set_controller_fake_client_flag o) k)
marked_controller-AreBytes o none d = tt
marked_controller-AreBytes o (some m) d = set_controller_fake_client_flag-IsBytes o m d

controllers_restored :
    (o : Offsets) (k zeroed : Option Memory) (copies : List SteamIdCopy)
    → AreDisguised o k
    → MissesMarkers o copies
    → UndoesController (Option.map (set_controller_fake_client_flag o) k) zeroed copies
    → SameBytes
        (restore_steam_id_copies copies (record {
          client = λ i. 0;
          controller = Option.map (clear_controller_fake_client_flag o) zeroed;
        })).controller
        k
unfolding restore_steam_id_copies
controllers_restored o none none copies d misses u = tt
controllers_restored o none (some m') copies d misses u = u
controllers_restored o (some m) none copies d misses u = u
controllers_restored o (some m) (some m') copies d misses u =
    λ i. controller_restored o m d m' copies misses u i

-- A vote window that is opened on a disguised bot and closed again gives back every byte of the
-- client and of the controller. The marker bytes must lie apart from the SteamID64 fields, the table
-- of copies must not have filled up, and no copy may lie over the marker bytes.
pub restore_objects-apply_native_vote_markers :
    (o : Offsets) (m : Memory) (k : Option Memory)
    → IsLaidOut o
    → IsDisguised o m
    → AreDisguised o k
    → MissesMarkers o
        (apply_native_vote_markers o
          (read_steam_id o m)
          []
          (record { client = m; controller = k })).1
    → let (opened, copies) =
        apply_native_vote_markers o
          (read_steam_id o m)
          []
          (record { client = m; controller = k }) in
      let back = restore_objects o (read_steam_id o m) copies opened in
      ((i : ℕ) → back.client i ≡ m i) × SameBytes back.controller k
unfolding apply_native_vote_markers restore_objects
restore_objects-apply_native_vote_markers o m k laid d dk misses =
    let undone =
      scan_and_zero-UndoesBoth (read_steam_id o m) (set_fake_player o m)
        (Option.map (set_controller_fake_client_flag o) k) (set_fake_player-IsBytes o m laid d)
        (marked_controller-AreBytes o k dk) misses.room in
    (
      unfold restore_steam_id_copies in client_restored o m laid d _ _ misses undone.0,
      unfold restore_steam_id_copies in controllers_restored o k _ _ dk misses undone.1,
    )
