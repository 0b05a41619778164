-- ===== src/Plugin/Commands.antt =====
-- src/plugin.cpp, `IsMapChangeCommand` to `KickManagedBotByUserId`: the console commands that the
-- plugin acts on, and the bot that a `bot_kick` names.
use cs2_bot_identity.Base.{
  ℕ, zero, suc, ◌+◌, ◌-◌, ◌/◌, ◌%◌, ◌==◌, ℤ, pos, negsuc, Bool, true, false, not, ◌&&◌, ◌||◌,
  Option, none, some, List, [], ◌∷◌, ◌++◌, if◌then◌else◌, ltb, is_empty, Bytes, bytes_eq, codes,
  take, for_slots,
}
use cs2_bot_identity.BotInfo.{max_slots}
use cs2_bot_identity.IdentityManager.{IdentityManager, Roster, is_managed, get_identity}
use cs2_bot_identity.SscOps.{read_user_id}
use cs2_bot_identity.EntityAccess.{Engine, server_command, call, resolve_client_by_slot}
use cs2_bot_identity.ControllerReap.{leftover_user_id, neutralize_colliding_leftover_user_ids}

-- The name of a command, and its arguments from the first one on.
pub record Command : Type 0 where
  pub name : Bytes
  pub arguments : List Bytes

is_one_of : List Bytes → Bytes → Bool
is_one_of [] name = false
is_one_of (n ∷ names) name = bytes_eq name n || is_one_of names name

pub is_map_change_command : Bytes → Bool
unfolding is_one_of
is_map_change_command name =
    is_one_of
      (codes "host_workshop_map"
        ∷ codes "ds_workshop_changelevel"
        ∷ codes "changelevel"
        ∷ codes "map"
        ∷ [])
      name

pub is_kick_command : Bytes → Bool
unfolding is_one_of
is_kick_command name =
    is_one_of (codes "bot_kick" ∷ codes "kick" ∷ codes "kickid" ∷ codes "banid" ∷ []) name

pub is_bot_add_command : Bytes → Bool
unfolding is_one_of
is_bot_add_command name =
    is_one_of (codes "bot_add" ∷ codes "bot_add_t" ∷ codes "bot_add_ct" ∷ []) name

pub is_population_command : Bytes → Bool
is_population_command name = is_kick_command name || is_bot_add_command name

pub is_bot_kick_group_target : Bytes → Bool
unfolding is_one_of
is_bot_kick_group_target target = is_one_of (codes "all" ∷ codes "t" ∷ codes "ct" ∷ []) target

-- `"`, `'`, a space or a tab.
abbrev is_quote : ℕ → Bool
is_quote c = (c == 34) || (c == 39) || (c == 32) || (c == 9)

pub drop_front : Bytes → Bytes
drop_front [] = []
drop_front (c ∷ s) = elim (is_quote c) [ true ↦ drop_front s | false ↦ c ∷ s ]

pub drop_back : Bytes → Bytes
drop_back [] = []
drop_back (c ∷ s) = let rest = drop_back s in if is_empty rest && is_quote c then [] else c ∷ rest

-- The buffer holds `cap` bytes, a NUL among them.
pub copy_kick_target : Bytes → ℕ → Bytes
copy_kick_target src cap = if cap == 0 then [] else take (cap - 1) (drop_back (drop_front src))

-- One round of `FindManagedSlotByPersonaName`: the last managed slot of that name so far.
persona_at : Roster → Bytes → ℕ → Option ℕ → Option ℕ
persona_at r name slot found =
    if not (is_managed r.manager (pos slot)) then found else elim (get_identity r (pos slot)) [
      | none ↦ found
      | some b ↦ if bytes_eq b.name name then some slot else found
    ]

pub find_managed_slot_by_persona_name : Roster → Bytes → Option ℕ
unfolding persona_at
find_managed_slot_by_persona_name r name =
    if is_empty name then none else for_slots max_slots 0 (persona_at r name) none

abbrev target_cap : ℕ
target_cap = 128

-- `NamedBotKickSlot`: the slot, and the target that is left in the buffer.
pub named_bot_kick : Roster → Command → Option ℕ × Bytes
named_bot_kick r c =
    if not (bytes_eq c.name (codes "bot_kick")) then (none, []) else elim c.arguments [
      | [] ↦ (none, [])
      | first ∷ others ↦
          let target = copy_kick_target first target_cap in
          if is_empty target || is_bot_kick_group_target target
          then (none, target)
          else (find_managed_slot_by_persona_name r target, target)
    ]

-- `%u` of a number below 10 ^ fuel.
decimal : ℕ → ℕ → Bytes
decimal zero n = []
decimal (suc fuel) n =
    let rest = decimal fuel (n / 10) in
    if ltb n 10 then (48 + n) ∷ [] else rest ++ (48 + n % 10) ∷ []

-- A user id has 16 bits, so at most 5 digits.
pub kickid_command : ℕ → Bytes
unfolding decimal
kickid_command user_id = codes "kickid " ++ decimal 5 user_id ++ 10 ∷ []

pub kick_managed_bot_by_user_id : IdentityManager → Engine → ℤ → Engine
kick_managed_bot_by_user_id m e (negsuc n) = e
kick_managed_bot_by_user_id m e (pos n) =
    let client = resolve_client_by_slot e (pos n) in
    let user_id =
      if client == 0 then leftover_user_id else read_user_id e.offsets (e.heap client) in
    if user_id == leftover_user_id
    then e
    else call (server_command (kickid_command user_id))
        (neutralize_colliding_leftover_user_ids m e (pos n) user_id)
