-- ===== src/IdentityManager.antt =====
-- src/bot_info.cpp, `class IdentityManager` and `BotInfo::At`: which slot wears which identity.
-- `BotInfos()` and `IdentityMgr()` are the two fields of a roster.
pub mod Links
pub mod Managed
pub mod Preserve
pub mod Initial
pub mod Rewrite
use cs2_bot_identity.Base.{
  ℕ, zero, suc, ◌+◌, ◌<◌, ◌≡◌, Bool, true, false, ◌||◌, Option, none, some, List, [], ◌∷◌, ℤ, pos,
  negsuc, minus_one, is_nonneg, leb, if◌then◌else◌, ◌+ℤ◌, ◌-ℤ◌, get_elem?, get_or, set, length,
  replicate, modify,
}
use cs2_bot_identity.BotInfo.{BotIdentity, max_slots, max_bot_identities, release_entry}

pub record IdentityManager : Type 0 where
  pub slots : List ℤ
  pub bot_to_slot : List ℤ
  pub active_count : ℤ

-- `m_Slots.fill(-1)`; `m_BotToSlot` is value-initialised.
abbrev pub initial : IdentityManager
initial = record {
  slots = replicate max_slots minus_one;
  bot_to_slot = replicate max_bot_identities (pos 0);
  active_count = pos 0;
}

-- The plugin's two singletons.
pub record Roster : Type 0 where
  pub bots : List BotIdentity
  pub manager : IdentityManager

-- `BotInfo::At`, and `GetByIndex`.
abbrev pub at : List BotIdentity → ℤ → Option BotIdentity
at bots (pos i) = get_elem? bots i
at bots (negsuc i) = none

unfoldable pub is_managed : IdentityManager → ℤ → Bool
is_managed m (negsuc n) = false
is_managed m (pos n) = if leb max_slots n then false else is_nonneg (get_or m.slots n minus_one)

unfoldable pub lookup : IdentityManager → ℤ → ℤ
lookup m (negsuc n) = minus_one
lookup m (pos n) = if leb max_slots n then minus_one else get_or m.slots n minus_one

pub mark : IdentityManager → ℤ → ℤ → IdentityManager
mark m (negsuc n) bot_index = m
mark m (pos n) (negsuc i) = m
mark m (pos n) (pos i) = if leb max_slots n || leb max_bot_identities i then m else record m {
  active_count =
      if is_nonneg (get_or m.slots n minus_one) then m.active_count else m.active_count +ℤ pos 1;
  slots = set m.slots n (pos i);
  bot_to_slot = set m.bot_to_slot i (pos n);
}

-- The body of `Unmark` for a slot that wears entry `i`.
unfoldable pub unmark_entry : Roster → ℕ → ℤ → Roster
unmark_entry r n (negsuc i) = r
unmark_entry r n (pos i) = record {
  bots = modify release_entry r.bots i;
  manager = record {
    slots = set r.manager.slots n minus_one;
    bot_to_slot = set r.manager.bot_to_slot i minus_one;
    active_count = r.manager.active_count -ℤ pos 1;
  };
}

unfoldable pub unmark : Roster → ℤ → Roster
unfolding unmark_entry
unmark r (negsuc n) = r
unmark r (pos n) =
    if leb max_slots n then r else unmark_entry r n (get_or r.manager.slots n minus_one)

-- `GetIdentity`: the index of the entry, and the entry.
pub get_identity : Roster → ℤ → Option BotIdentity
unfolding lookup
get_identity r slot = at r.bots (lookup r.manager slot)
