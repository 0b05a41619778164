-- ===== src/EntityAccess.antt =====
-- src/entity_access.h and src/entity_access.cpp: the engine's client list and entity system, as the
-- plugin reaches them. A pointer is a number, null is 0, and each object has its own bytes.
use cs2_bot_identity.Base.{
  ℕ, ◌-◌, ◌%◌, ◌/◌, ◌||◌, ◌&&◌, ◌==◌, Bool, true, false, not, Option, none, some, List, [], ◌∷◌,
  ◌++◌, Bytes, bytes_eq, codes, ℤ, pos, negsuc, ltb, leb, length, get_or, take, if◌then◌else◌,
  minus_one,
}
use cs2_bot_identity.Memory.{Memory}
use cs2_bot_identity.SscOps.{Offsets}

-- One `CEntityIdentity` of a chunk: its designer name and its instance.
pub record EntityIdentity : Type 0 where
  pub class_name : Option Bytes
  pub instance_ptr : ℕ

-- What the plugin asks of the engine, in order: `NetworkStateChanged` for an entity or for one of
-- its fields, `UTIL_Remove`, `ChangeTeam` and `ServerCommand`.
pub data EngineCall : Type 0 where
  state_changed : ℕ → EngineCall
  field_changed : ℕ → ℕ → EngineCall
  util_remove_called : ℕ → EngineCall
  change_team_called : ℕ → ℕ → EngineCall
  server_command : Bytes → EngineCall

-- `server_alive`: the network server service is there, and so is its game server. `chunks` is the
-- entity list, if an entity system was found. `deleting` says whether `m_pEntity->m_flags` holds
-- `EF_DELETE_IN_PROGRESS` or `EF_MARKED_FOR_DELETE`, and is `none` where `m_pEntity` is null.
-- `connection_type` is the game server's `GetClientConnectionType`.
pub record Engine : Type 0 where
  pub server_alive : Bool
  pub clients : List ℕ
  pub heap : ℕ → Memory
  pub entity_system : Bool
  pub chunks : ℕ → Option (ℕ → EntityIdentity)
  pub ref_handle : ℕ → ℕ
  pub deleting : ℕ → Option Bool
  pub connection_type : ℤ → ℕ
  pub util_remove_target : Bool
  pub offsets : Offsets
  pub calls : List EngineCall

-- Writes the bytes of one object.
abbrev pub put_object : Engine → ℕ → Memory → Engine
put_object e p m = record e { heap = λ q. if q == p then m else e.heap q }

abbrev pub call : EngineCall → Engine → Engine
call c e = record e { calls = e.calls ++ c ∷ [] }

-- `ClientVector()` with the bounds of `ResolveClientBySlot`: its elements, if it can be used.
abbrev pub usable_clients : Engine → List ℕ
usable_clients e = if not e.server_alive || ltb 256 (length e.clients) then [] else e.clients

unfoldable pub resolve_client_by_slot : Engine → ℤ → ℕ
resolve_client_by_slot e (negsuc n) = 0
resolve_client_by_slot e (pos n) = get_or (usable_clients e) n 0

unfoldable pub client_list_count : Engine → ℕ
client_list_count e = length (usable_clients e)

-- The new list, and whether it was shrunk.
unfoldable pub shrink_client_list_to : Engine → ℤ → Engine × Bool
shrink_client_list_to e (negsuc n) = (e, false)
shrink_client_list_to e (pos n) =
    if ltb n (length (usable_clients e))
    then (record e { clients = take n e.clients }, true)
    else (e, false)

-- The name is copied into a buffer of `class_name_cap` bytes, its NUL among them.
abbrev pub class_name_cap : ℕ
class_name_cap = 64

abbrev read_class_name : Option Bytes → Bytes
read_class_name none = []
read_class_name (some name) = take (class_name_cap - 1) name

-- The instance, or null, and the class name left in the buffer.
unfoldable pub resolve_entity_instance : Engine → ℤ → ℕ × Bytes
resolve_entity_instance e (negsuc n) = (0, [])
resolve_entity_instance e (pos n) =
    if n == 0 || leb 0x8000 n || not e.entity_system then (0, []) else elim (e.chunks (n / 512)) [
      | none ↦ (0, [])
      | some chunk ↦ ((chunk (n % 512)).instance_ptr, read_class_name (chunk (n % 512)).class_name)
    ]

abbrev pub mark_entity_state_changed : ℕ → Engine → Engine
mark_entity_state_changed p e = if p == 0 then e else call (state_changed p) e

abbrev pub mark_entity_field_changed : ℕ → ℕ → Engine → Engine
mark_entity_field_changed p offset e = if p == 0 then e else call (field_changed p offset) e

pub is_entity_being_deleted : Engine → ℕ → Bool
is_entity_being_deleted e p =
    if p == 0 then true else elim (e.deleting p) [ none ↦ true | some flagged ↦ flagged ]

-- `BotInfo::IsSlotActive`.
unfoldable pub is_slot_active : Engine → ℤ → Bool
is_slot_active e slot = if e.server_alive then not (e.connection_type slot == 0) else false

abbrev pub player_controller : Bytes
player_controller = codes "cs_player_controller"

-- The instance at an index, if it is a `cs_player_controller`.
unfoldable pub resolve_player_controller : Engine → ℤ → Option ℕ
resolve_player_controller e index =
    let (instance_ptr, name) = resolve_entity_instance e index in
    if not (instance_ptr == 0) && bytes_eq name player_controller then some instance_ptr else none

pub change_team_vtable_index : Offsets → ℤ
change_team_vtable_index o =
    if ltb 512 o.change_team_vtable then minus_one else pos o.change_team_vtable
