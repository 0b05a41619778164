-- ===== src/VoteScan/Undo.antt =====
-- A scan of src/vote_transaction.cpp over both objects of a bot, and what its table can put back.
use cs2_bot_identity.Base.{
  ℕ, ◌<◌, ◌≡◌, refl, sym, subst, arith, Bool, true, false, ◌||◌, Bool-cases, inl, inr,
  if◌then◌else◌, Option, some, none, List, [], ◌∷◌, ◌++◌, length, length-append, ◌==◌,
}
use cs2_bot_identity.Memory.{Memory, IsBytes}
use cs2_bot_identity.VoteScan.{
  SteamIdCopy, Objects, same, scan_region, scan_and_zero_steam_id_copies, restore_region,
  ssc_scan_bytes, controller_scan_bytes, max_steam_id_copies,
}
use cs2_bot_identity.VoteScan.Saved.{covers, All, All-map, scan_loop-Scanned}
use cs2_bot_identity.VoteScan.RoundTrip.{
  restore_region-saved, restore_region-append, restore_region-other,
}

-- `copies` puts the bytes of `m` back into an object that a scan turned into `m'`.
pub record Undoes (m m' : Memory) (on_controller : Bool) (copies : List SteamIdCopy) : Type 0 where
  pub restored :
      (base : Memory) (i : ℕ)
      → restore_region copies on_controller base i
        ≡ (if covers on_controller copies i then m i else base i)
  pub untouched : (i : ℕ) → covers on_controller copies i ≡ false → m' i ≡ m i

covers-append :
    (on_controller : Bool) (xs ys : List SteamIdCopy) (i : ℕ)
    → covers on_controller (xs ++ ys) i ≡ (covers on_controller xs i || covers on_controller ys i)
covers-append on_controller [] ys i = refl
covers-append on_controller (x ∷ xs) ys i = ground (arith, covers-append on_controller xs ys i)

covers-other :
    (on_controller other : Bool) (cs : List SteamIdCopy) (i : ℕ)
    → same other on_controller ≡ false
    → All (λ c. c.on_controller ≡ other) cs
    → covers on_controller cs i ≡ false
covers-other on_controller other [] i apart h = refl
covers-other on_controller other (c ∷ cs) i apart h =
    ground (arith, h.0, covers-other on_controller other cs i apart h.1)

Undoes-before :
    (m m' : Memory) (on_controller other : Bool) (xs ys : List SteamIdCopy)
    → same other on_controller ≡ false
    → All (λ c. c.on_controller ≡ other) ys
    → Undoes m m' on_controller xs
    → Undoes m m' on_controller (xs ++ ys)
Undoes-before m m' on_controller other xs ys apart h u = record {
  restored = λ base i.
      rw
        (
          restore_region-append xs ys on_controller base,
          covers-append on_controller xs ys i,
          restore_region-other ys on_controller other (restore_region xs on_controller base) apart
              h,
        )
        (ground (arith, u.restored base i, covers-other on_controller other ys i apart h));
  untouched = λ i free. u.untouched i (ground (arith, covers-append on_controller xs ys i));
}

Undoes-after :
    (m m' : Memory) (on_controller other : Bool) (xs ys : List SteamIdCopy)
    → same other on_controller ≡ false
    → All (λ c. c.on_controller ≡ other) xs
    → Undoes m m' on_controller ys
    → Undoes m m' on_controller (xs ++ ys)
Undoes-after m m' on_controller other xs ys apart h u = record {
  restored = λ base i.
      rw
        (
          restore_region-append xs ys on_controller base,
          covers-append on_controller xs ys i,
          restore_region-other xs on_controller other base apart h,
        )
        (ground (arith, u.restored base i, covers-other on_controller other xs i apart h));
  untouched = λ i free. u.untouched i (
      ground (
        arith,
        covers-append on_controller xs ys i,
        covers-other on_controller other xs i apart h,
      ));
}

Undoes-nothing : (m : Memory) (on_controller : Bool) → Undoes m m on_controller []
unfolding restore_region
Undoes-nothing m on_controller = record { restored = λ base i. refl; untouched = λ i _. refl }

-- The scan of one object into a table that holds no copy of it.
scan_client :
    (target : ℕ) (m : Memory)
    → IsBytes m
    → (cs : List SteamIdCopy) × (cs ≡ (scan_region ssc_scan_bytes false target m []).1)
      × All (λ c. c.on_controller ≡ false) cs
      × (length cs < max_steam_id_copies
          → Undoes m (scan_region ssc_scan_bytes false target m []).0 false cs)
unfolding scan_region
scan_client target m bytes =
    let s = scan_loop-Scanned ssc_scan_bytes ssc_scan_bytes false target 0 m [] bytes tt in
    (
      s.new,
      sym s.appended,
      All-map (λ c t. t.object) s.new s.saved,
      λ short. record {
        restored = λ base i.
            restore_region-saved m base false ssc_scan_bytes s.new i (omega arith) s.saved;
        untouched =
            s.untouched (subst (λ l. length l < max_steam_id_copies) (sym s.appended) short);
      },
    )

scan_controller :
    (target : ℕ) (m : Memory) (cs : List SteamIdCopy)
    → IsBytes m
    → All (λ c. c.on_controller ≡ false) cs
    → (new : List SteamIdCopy) × ((scan_region controller_scan_bytes true target m cs).1
        ≡ cs ++ new)
      × All (λ c. c.on_controller ≡ true) new
      × (length (cs ++ new) < max_steam_id_copies
          → Undoes m (scan_region controller_scan_bytes true target m cs).0 true new)
unfolding scan_region
scan_controller target m cs bytes clients =
    let s =
      scan_loop-Scanned controller_scan_bytes controller_scan_bytes true target 0 m cs bytes
        (All-map (λ c e e'. absurd (cc)) cs clients) in
    (
      s.new,
      s.appended,
      All-map (λ c t. t.object) s.new s.saved,
      λ short. record {
        restored = λ base i.
            restore_region-saved m base true controller_scan_bytes s.new i (omega arith) s.saved;
        untouched =
            s.untouched (subst (λ l. length l < max_steam_id_copies) (sym s.appended) short);
      },
    )

-- The same for a controller, where there is one.
abbrev pub UndoesController : Option Memory → Option Memory → List SteamIdCopy → Type 0
UndoesController none none copies = Unit
UndoesController (some m) (some m') copies = Undoes m m' true copies
UndoesController _ _ copies = ⊥

abbrev pub AreBytes : Option Memory → Type 0
AreBytes none = Unit
AreBytes (some m) = IsBytes m

-- Both objects, unless the table is full.
abbrev pub UndoesBoth : Objects → Objects × List SteamIdCopy → Type 0
UndoesBoth before (after, copies) =
    length copies < max_steam_id_copies
    → Undoes before.client after.client false copies
      × UndoesController before.controller after.controller copies

pub scan_and_zero-UndoesBoth :
    (target : ℕ) (m : Memory) (controller : Option Memory)
    → IsBytes m
    → AreBytes controller
    → UndoesBoth
        (record { client = m; controller = controller })
        (scan_and_zero_steam_id_copies target (record { client = m; controller = controller }) [])
unfolding scan_and_zero_steam_id_copies
scan_and_zero-UndoesBoth target m none bytes _ = elim (Bool-cases (target == 0)) [
  | inl zero ↦ rw zero (λ _. (Undoes-nothing m false, tt))
  | inr other ↦
      let (cs, cs_is, clients, undoes) = scan_client target m bytes in
      rw (other, ← cs_is) (λ short. (undoes short, tt))
]
scan_and_zero-UndoesBoth target m (some k) bytes k_bytes = elim (Bool-cases (target == 0)) [
  | inl zero ↦ rw zero (λ _. (Undoes-nothing m false, Undoes-nothing k true))
  | inr other ↦
      let (cs, cs_is, clients, undoes) = scan_client target m bytes in
      let (new, new_is, controllers, undoes_k) = scan_controller target k cs k_bytes clients in
      rw (other, ← cs_is, new_is)
        (λ short. (
          Undoes-before m _ false true cs new refl controllers (undoes (shorter cs new short)),
          Undoes-after k _ true false cs new refl clients (undoes_k short),
        ))
]
  where
    shorter :
        (xs ys : List SteamIdCopy)
        → length (xs ++ ys) < max_steam_id_copies
        → length xs < max_steam_id_copies
    shorter xs ys h = omega (arith, length-append xs ys)

-- For a scan of two objects of bytes that starts with an empty table of copies, as the scan that opens
-- a window does: what it zeroed, the restore puts back in both objects, and it touched nothing else,
-- if the table did not fill up.
pub scan_and_zero-Undoes :
    (target : ℕ) (m : Memory) (controller : Option Memory)
    → IsBytes m
    → AreBytes controller
    → let (after, copies) =
        scan_and_zero_steam_id_copies target (record { client = m; controller = controller }) [] in
      length copies < max_steam_id_copies
      → Undoes m after.client false copies × UndoesController controller after.controller copies
scan_and_zero-Undoes target m controller bytes k_bytes short =
    scan_and_zero-UndoesBoth target m controller bytes k_bytes short
