-- ===== src/Gamedata.antt =====
-- src/entity_access.cpp, `ReadOffset`, `ReadLinuxString` and `LoadGamedata`: the offsets and the
-- signature that gamedata.json overrides. A place in the text is the rest of the text from there.
pub mod Values
use cs2_bot_identity.Base.{
  ℕ, ◌+◌, ◌-◌, ◌*◌, ◌%◌, ◌^◌, ◌==◌, ℤ, pos, negsuc, minus_one, ◌-ℤ◌, Bool, true, false, ◌&&◌, ◌||◌,
  Option, none, some, [], ◌∷◌, ◌++◌, if◌then◌else◌, drop, is_empty, Bytes, codes,
}
use cs2_bot_identity.Json.{first, is_digit, quoted}
use cs2_bot_identity.Memory.{to_int32}
use cs2_bot_identity.SscOps.{Offsets}

unfoldable pub starts_with : Bytes → Bytes → Bool
starts_with [] s = true
starts_with (k ∷ ks) [] = false
starts_with (k ∷ ks) (c ∷ s) = (k == c) && starts_with ks s

-- `json.find(k, pos)`: the rest of the text from the first place where `k` stands.
unfoldable pub find : Bytes → Bytes → Option Bytes
find k [] = if is_empty k then some [] else none
find k (c ∷ s) = if starts_with k (c ∷ s) then some (c ∷ s) else find k s

-- `json[pos] == ' ' || json[pos] == '\t'`.
unfoldable pub skip_spaces : Bytes → Bytes
skip_spaces [] = []
skip_spaces (c ∷ s) = let more = skip_spaces s in if (c == 32) || (c == 9) then more else c ∷ s

abbrev pub quote_key : Bytes → Bytes
quote_key k = b'"' ∷ (k ++ (b'"' ∷ []))

infixl 5 ◌>>=◌
abbrev ◌>>=◌ : Option Bytes → (Bytes → Option Bytes) → Option Bytes
none >>= f = none
some s >>= f = f s

-- What stands behind the first colon behind the first `"linux"` behind the key.
unfoldable pub linux_value : Bytes → Bytes → Option Bytes
linux_value json k = do
  at_key ← find (quote_key k) json
  at_linux ← find (codes "\"linux\"") at_key
  at_colon ← find (codes ":") at_linux
  some (skip_spaces (drop 1 at_colon))

-- The number that the digits make as an `int`, and whether there were any.
unfoldable pub read_number : ℕ → Bool → Bytes → ℕ × Bool
read_number n any [] = (n, any)
read_number n any (c ∷ s) =
    let more = read_number ((n * 10 + (c - 48)) % 2 ^ 32) true s in
    if is_digit c then more else (n, any)

-- `any ? sign * n : -1`.
unfoldable pub read_signed : Bytes → ℤ
read_signed s =
    let negative = first s == b'-' in
    let number = read_number 0 false (if negative then drop 1 s else s) in
    if number.1
    then if negative then pos 0 -ℤ to_int32 number.0 else to_int32 number.0
    else minus_one

unfoldable pub read_offset : Bytes → Bytes → ℤ
read_offset json k = elim (linux_value json k) [ none ↦ minus_one | some s ↦ read_signed s ]

-- Whether a quote closes the text.
unfoldable pub closes : Bytes → Bool
closes [] = false
closes (c ∷ s) = (c == b'"') || closes s

unfoldable pub read_linux_string : Bytes → Bytes → Bytes
read_linux_string json k = elim (linux_value json k) [
  | none ↦ []
  | some s ↦ if (first s == b'"') && closes (drop 1 s) then (quoted (drop 1 s)).0 else []
]

-- The offsets of the entity system, and the signature of `UTIL_Remove`.
pub record Gamedata : Type 0 where
  pub offsets : Offsets
  pub ent_sys_in_game_res_svc : ℕ
  pub identity_chunks : ℕ
  pub identity_size : ℕ
  pub identity_instance : ℕ
  pub identity_class_name : ℕ
  pub util_remove_sig : Bytes

abbrev pub default_gamedata : Offsets → Gamedata
default_gamedata offsets = record {
  offsets = offsets;
  ent_sys_in_game_res_svc = 0x58;
  identity_chunks = 0x10;
  identity_size = 0x70;
  identity_instance = 0;
  identity_class_name = 0x20;
  util_remove_sig = codes "48 89 FE 48 85 FF 74 ? 48 8D 05 ? ? ? ? 48";
}

-- `tryApply`: the target keeps its value unless a number that is not negative was read.
unfoldable pub try_apply : Bytes → Bytes → ℕ → ℕ
try_apply json k target = elim (read_offset json k) [ pos v ↦ v | negsuc v ↦ target ]

unfoldable pub apply_offsets : Bytes → Offsets → Offsets
apply_offsets json o = record {
  connection_type_flags =
      try_apply json (codes "CServerSideClient::m_nConnectionTypeFlags") o.connection_type_flags;
  fake_player = try_apply json (codes "CServerSideClient::m_bFakePlayer") o.fake_player;
  user_id = try_apply json (codes "CServerSideClient::m_UserID") o.user_id;
  steam_id = try_apply json (codes "CServerSideClient::m_SteamID") o.steam_id;
  steam_id_mirror = try_apply json (codes "CServerSideClient::m_SteamIDMirror") o.steam_id_mirror;
  entity_index = try_apply json (codes "CServerSideClient::m_nEntityIndex") o.entity_index;
  client_slot = try_apply json (codes "CServerSideClient::m_nClientSlot") o.client_slot;
  net_channel = try_apply json (codes "CServerSideClient::m_NetChannel") o.net_channel;
  signon_state = try_apply json (codes "CServerSideClient::m_nSignonState") o.signon_state;
  controller_team_num = try_apply json (codes "CBaseEntity::m_iTeamNum") o.controller_team_num;
  change_team_vtable = try_apply json (codes "CCSPlayerController_ChangeTeam") o.change_team_vtable;
  controller_fake_client_flags =
      try_apply json (codes "CBasePlayerController::FakeClientFlags")
        o.controller_fake_client_flags;
  controller_steam_id =
      try_apply json (codes "CBasePlayerController::m_steamID") o.controller_steam_id;
  client_list = try_apply json (codes "CNetworkGameServerBase::m_Clients") o.client_list;
}

-- `if (!utilSig.empty()) s_UtilRemoveSig = utilSig;`
abbrev pub or_keep : Bytes → Bytes → Bytes
or_keep sig kept = if is_empty sig then kept else sig

unfoldable pub load_gamedata : Option Bytes → Gamedata → Gamedata
load_gamedata none g = g
load_gamedata (some json) g = record {
  offsets = apply_offsets json g.offsets;
  ent_sys_in_game_res_svc =
      try_apply json (codes "GameResourceServiceServer::m_pEntitySystem") g.ent_sys_in_game_res_svc;
  identity_chunks = try_apply json (codes "CEntitySystem::m_EntityList") g.identity_chunks;
  identity_size = try_apply json (codes "CEntityIdentity::Size") g.identity_size;
  identity_instance = try_apply json (codes "CEntityIdentity::m_pInstance") g.identity_instance;
  identity_class_name =
      try_apply json (codes "CEntityIdentity::m_designerName") g.identity_class_name;
  util_remove_sig = or_keep (read_linux_string json (codes "UTIL_Remove")) g.util_remove_sig;
}
