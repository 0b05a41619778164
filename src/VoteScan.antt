-- ===== src/VoteScan.antt =====
-- src/vote_transaction.cpp, `CopyOverlaps` to `CopiesReappeared`: the extra copies of a disguise
-- SteamID64 in the two objects of a bot, zeroed for a vote window and put back behind it.
pub mod Saved
pub mod RoundTrip
pub mod Undo
pub mod Skip
pub mod Fuel
use cs2_bot_identity.Base.{
  ℕ, zero, suc, ◌+◌, ◌-◌, ◌==◌, ltb, leb, if◌then◌else◌, Bool, true, false, not, ◌&&◌, ◌||◌, Option,
  none, some, List, [], ◌∷◌, ◌++◌, length,
}
use cs2_bot_identity.Memory.{Memory, read_le, write_le}

abbrev pub max_steam_id_copies : ℕ
max_steam_id_copies = 8

abbrev pub ssc_scan_bytes : ℕ
ssc_scan_bytes = 2048

abbrev pub controller_scan_bytes : ℕ
controller_scan_bytes = 4096

-- Every offset in the table was found by a scan, so none is negative.
pub record SteamIdCopy : Type 0 where
  pub offset : ℕ
  pub value : ℕ
  pub on_controller : Bool

abbrev pub same : Bool → Bool → Bool
same true b = b
same false b = not b

-- `-8 < copy.offset - offset && copy.offset - offset < 8`, in the same object.
unfoldable pub copy_overlaps : List SteamIdCopy → ℕ → Bool → Bool
copy_overlaps [] offset on_controller = false
copy_overlaps (c ∷ cs) offset on_controller =
    (same c.on_controller on_controller && (ltb offset (c.offset + 8) && ltb c.offset (offset + 8)))
    || copy_overlaps cs offset on_controller

-- The table is an array of eight: what does not fit is not noted.
unfoldable pub note_copy : List SteamIdCopy → ℕ → ℕ → Bool → List SteamIdCopy
note_copy copies offset value on_controller =
    if not (copy_overlaps copies offset on_controller) && ltb (length copies) max_steam_id_copies
    then copies ++ record { offset = offset; value = value; on_controller = on_controller } ∷ []
    else copies

-- The loop of `scanRegion` from `off` on. Each round moves on by one byte, or by eight behind a hit.
pub scan_loop : ℕ → ℕ → Bool → ℕ → ℕ → Memory → List SteamIdCopy → Memory × List SteamIdCopy
scan_loop zero nbytes on_controller target off m copies = (m, copies)
scan_loop (suc fuel) nbytes on_controller target off m copies = elim (leb (off + 8) nbytes) [
  | false ↦ (m, copies)
  | true ↦ elim (read_le 8 m off == target) [
    | false ↦ scan_loop fuel nbytes on_controller target (off + 1) m copies
    | true ↦
        scan_loop fuel nbytes on_controller target (off + 8) (write_le 8 m off 0)
          (note_copy copies off target on_controller)
  ]
]

-- One round for each byte is enough.
unfoldable pub scan_region : ℕ → Bool → ℕ → Memory → List SteamIdCopy → Memory × List SteamIdCopy
scan_region nbytes on_controller target m copies =
    scan_loop nbytes nbytes on_controller target 0 m copies

-- The two objects of a bot: the client, and the controller if there is one.
pub record Objects : Type 0 where
  pub client : Memory
  pub controller : Option Memory

scan_controller : ℕ → Memory → Option Memory → List SteamIdCopy → Objects × List SteamIdCopy
scan_controller target client none copies = (record { client = client; controller = none }, copies)
scan_controller target client (some m) copies =
    let (m', copies') = scan_region controller_scan_bytes true target m copies in
    (record { client = client; controller = some m' }, copies')

unfoldable pub scan_and_zero_steam_id_copies :
    ℕ → Objects → List SteamIdCopy → Objects × List SteamIdCopy
unfolding scan_controller
scan_and_zero_steam_id_copies target objects copies =
    let (client', copies') = scan_region ssc_scan_bytes false target objects.client copies in
    if target == 0
    then (objects, copies)
    else scan_controller target client' objects.controller copies'

abbrev scan_limit : Bool → ℕ
scan_limit true = controller_scan_bytes
scan_limit false = ssc_scan_bytes

-- Puts one copy back into the object that it was found in, if that is at hand.
pub restore_copy : SteamIdCopy → Bool → Memory → Memory
restore_copy c on_controller m =
    if same c.on_controller on_controller && leb (c.offset + 8) (scan_limit c.on_controller)
    then write_le 8 m c.offset c.value
    else m

-- The writes to one of the objects.
pub restore_region : List SteamIdCopy → Bool → Memory → Memory
restore_region [] on_controller m = m
restore_region (c ∷ cs) on_controller m =
    restore_region cs on_controller (restore_copy c on_controller m)

unfoldable pub restore_steam_id_copies : List SteamIdCopy → Objects → Objects
restore_steam_id_copies copies objects = record {
  client = restore_region copies false objects.client;
  controller = elim objects.controller [
    | none ↦ none
    | some m ↦ some (restore_region copies true m)
  ];
}

copy_at : SteamIdCopy → Objects → Option Memory
copy_at c objects = if c.on_controller then objects.controller else some objects.client

copy_is_back : ℕ → SteamIdCopy → Option Memory → Bool
copy_is_back target c none = false
copy_is_back target c (some m) =
    leb (c.offset + 8) (scan_limit c.on_controller) && (read_le 8 m c.offset == target)

pub any_back : ℕ → List SteamIdCopy → Objects → Bool
any_back target [] objects = false
any_back target (c ∷ cs) objects =
    copy_is_back target c (copy_at c objects) || any_back target cs objects

pub copies_reappeared : ℕ → List SteamIdCopy → Objects → Bool
copies_reappeared target copies objects =
    if target == 0 then false else any_back target copies objects
