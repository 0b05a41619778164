-- ===== src/BotInfo/Pool.antt =====
-- src/bot_info.cpp, `ResetForReuse` to `BotInfo::At`: which identity a connecting bot gets.
-- `active` is `IsSlotActive`, and `rand` the number that `rand()` returns.
pub mod Scan
pub mod Choice
pub mod Unique
use cs2_bot_identity.Base.{
  ℕ, zero, suc, ◌+◌, ◌%◌, ◌^◌, ℤ, pos, negsuc, minus_one, is_nonneg, ltb, leb, ◌==◌, ◌≡◌,
  if◌then◌else◌, Bool, true, false, not, ◌&&◌, ◌||◌, Option, none, some, List, [], ◌∷◌, Bytes,
  bytes_eq, modify, get_elem?,
}
use cs2_bot_identity.BotInfo.{BotIdentity, max_slots}

-- `b.slot >= 0 && b.name == name`.
abbrev pub holds_name : Bytes → BotIdentity → Bool
holds_name name b = is_nonneg b.slot && bytes_eq b.name name

-- `b.slot >= 0 && b.steamId == steamId`.
abbrev pub holds_steam_id : ℕ → BotIdentity → Bool
holds_steam_id steam_id b = is_nonneg b.slot && (b.steam_id == steam_id)

-- The loop of the two tests below, at index `i`; it passes over the entry `self`.
unfoldable pub any_other : (BotIdentity → Bool) → ℕ → ℕ → List BotIdentity → Bool
any_other p self i [] = false
any_other p self i (b ∷ bs) = (not (i == self) && p b) || any_other p self (suc i) bs

unfoldable pub is_name_in_use : List BotIdentity → Bytes → ℕ → Bool
is_name_in_use bots name self = any_other (holds_name name) self 0 bots

unfoldable pub is_steam_id_in_use : List BotIdentity → ℕ → ℕ → Bool
is_steam_id_in_use bots steam_id self =
    if steam_id == 0 then false else any_other (holds_steam_id steam_id) self 0 bots

-- The candidate is the entry `self`.
unfoldable pub is_assignable : List BotIdentity → ℕ → BotIdentity → Bool
is_assignable bots self candidate =
    not (is_name_in_use bots candidate.name self)
    && not (is_steam_id_in_use bots candidate.steam_id self)

abbrev pub reset_for_reuse : BotIdentity → BotIdentity
reset_for_reuse b = record b { slot = minus_one; applied = false; reused = (b.reused + 1) % 2 ^ 16 }

-- The test of the first two loops of `GetFree`: a free entry that may be handed out.
unfoldable pub is_free : List BotIdentity → ℕ → BotIdentity → Bool
is_free bots i b = not (is_nonneg b.slot) && is_assignable bots i b

-- The two tests of its last loop.
abbrev pub slot_is_stale : (ℤ → Bool) → ℤ → Bool
slot_is_stale active (negsuc n) = true
slot_is_stale active (pos s) = if leb max_slots s then true else not (active (pos s))

pub is_stale : (ℤ → Bool) → List BotIdentity → ℕ → BotIdentity → Bool
is_stale active bots i b = slot_is_stale active b.slot && is_assignable bots i b

-- The loops walk `m_Bots` from index `i`, with a test on an index and its entry.
unfoldable pub count_from : (ℕ → BotIdentity → Bool) → ℕ → List BotIdentity → ℕ
count_from test i [] = 0
count_from test i (b ∷ bs) = (if test i b then 1 else 0) + count_from test (suc i) bs

-- The entry that passes the test after `pick` others.
unfoldable pub pick_from : (ℕ → BotIdentity → Bool) → ℕ → ℕ → List BotIdentity → Option ℕ
pick_from test pick i [] = none
pick_from test pick i (b ∷ bs) = elim (test i b) [
  | false ↦ pick_from test pick (suc i) bs
  | true ↦ elim pick [ zero ↦ some i | suc left ↦ pick_from test left (suc i) bs ]
]

unfoldable pub count_free : List BotIdentity → ℕ
count_free bots = count_from (is_free bots) 0 bots

-- The last loop of `GetFree`.
pub reclaim : (ℤ → Bool) → List BotIdentity → Option ℕ × List BotIdentity
reclaim active bots = elim (pick_from (is_stale active bots) 0 0 bots) [
  | none ↦ (none, bots)
  | some i ↦ (some i, modify reset_for_reuse bots i)
]

unfoldable pub get_free : (ℤ → Bool) → ℕ → List BotIdentity → Option ℕ × List BotIdentity
get_free active rand bots =
    if ltb 0 (count_free bots)
    then elim (pick_from (is_free bots) (rand % count_free bots) 0 bots) [
      | some i ↦ (some i, bots)
      | none ↦ reclaim active bots
    ]
    else reclaim active bots

-- A null pointer for an index out of range.
pub get_by_index : List BotIdentity → ℤ → Option BotIdentity
get_by_index bots (pos i) = get_elem? bots i
get_by_index bots (negsuc i) = none

pub get_by_name : List BotIdentity → Bytes → Option BotIdentity
get_by_name [] name = none
get_by_name (b ∷ bs) name =
    let more = get_by_name bs name in if bytes_eq b.name name then some b else more
