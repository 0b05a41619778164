-- ===== src/SscOps.antt =====
-- src/ssc_ops.h: the fields of `CServerSideClient` and of the player controller.
-- Each function takes and returns the bytes of the one object that its pointer names.
use cs2_bot_identity.Base.{ℕ, ◌%◌, ◌==◌, ℤ, Bool, set_bit, clear_bit, player_bits, bot_bits}
use cs2_bot_identity.Memory.{Memory, store, read_le, write_le, to_int32}

-- The `OFF_…` variables, which gamedata may override; only numbers that are not negative reach them.
pub record Offsets : Type 0 where
  pub connection_type_flags : ℕ
  pub fake_player : ℕ
  pub user_id : ℕ
  pub steam_id : ℕ
  pub steam_id_mirror : ℕ
  pub entity_index : ℕ
  pub client_slot : ℕ
  pub net_channel : ℕ
  pub signon_state : ℕ
  pub controller_team_num : ℕ
  pub change_team_vtable : ℕ
  pub controller_fake_client_flags : ℕ
  pub controller_steam_id : ℕ
  pub client_list : ℕ

abbrev pub linux_offsets : Offsets
linux_offsets = record {
  connection_type_flags = 96;
  fake_player = 160;
  user_id = 168;
  steam_id = 171;
  steam_id_mirror = 179;
  entity_index = 76;
  client_slot = 72;
  net_channel = 88;
  signon_state = 100;
  controller_team_num = 1572;
  change_team_vtable = 102;
  controller_fake_client_flags = 904;
  controller_steam_id = 1800;
  client_list = 584;
}

-- The bit of `kFakeClientBit`, 0x100.
abbrev pub fake_client_bit : ℕ
fake_client_bit = 8

module _ (o : Offsets) where
  -- `flags = (flags & ~0x08u) | 0x01u`.
  unfoldable pub clear_fake_player : Memory → Memory
  unfolding store
  clear_fake_player m =
      let flags = store m o.connection_type_flags (player_bits (m o.connection_type_flags)) in
      store flags o.fake_player 0

  -- `flags = (flags & ~0x01u) | 0x08u`.
  unfoldable pub set_fake_player : Memory → Memory
  unfolding store
  set_fake_player m =
      let flags = store m o.connection_type_flags (bot_bits (m o.connection_type_flags)) in
      store flags o.fake_player 1

  pub is_fake_player_set : Memory → Bool
  is_fake_player_set m = m o.fake_player == 1

  unfoldable pub write_steam_id : Memory → ℕ → Memory
  write_steam_id m steam_id =
      write_le 8 (write_le 8 m o.steam_id steam_id) o.steam_id_mirror steam_id

  unfoldable pub read_steam_id : Memory → ℕ
  read_steam_id m = read_le 8 m o.steam_id

  unfoldable pub get_entity_index : Memory → ℤ
  get_entity_index m = to_int32 (read_le 4 m o.entity_index)

  pub read_user_id : Memory → ℕ
  read_user_id m = read_le 2 m o.user_id

  pub write_user_id : Memory → ℕ → Memory
  write_user_id m user_id = write_le 2 m o.user_id user_id

  pub read_client_slot : Memory → ℤ
  read_client_slot m = to_int32 (read_le 4 m o.client_slot)

  pub read_signon_state : Memory → ℤ
  read_signon_state m = to_int32 (read_le 4 m o.signon_state)

  pub read_net_channel : Memory → ℕ
  read_net_channel m = read_le 8 m o.net_channel

  pub read_connection_type_flags : Memory → ℕ
  read_connection_type_flags m = m o.connection_type_flags

  -- The low byte of the 32-bit field.
  pub read_controller_team : Memory → ℕ
  read_controller_team m = read_le 4 m o.controller_team_num % 256

  pub write_controller_team : Memory → ℕ → Memory
  write_controller_team m team = write_le 4 m o.controller_team_num team

  unfoldable pub read_controller_flags : Memory → ℕ
  read_controller_flags m = read_le 4 m o.controller_fake_client_flags

  unfoldable pub clear_controller_fake_client_flag : Memory → Memory
  unfolding read_controller_flags
  clear_controller_fake_client_flag m =
      write_le 4 m o.controller_fake_client_flags
        (clear_bit (read_controller_flags m) fake_client_bit)

  unfoldable pub set_controller_fake_client_flag : Memory → Memory
  unfolding read_controller_flags
  set_controller_fake_client_flag m =
      write_le 4 m o.controller_fake_client_flags
        (set_bit (read_controller_flags m) fake_client_bit)

  pub read_controller_steam_id : Memory → ℕ
  read_controller_steam_id m = read_le 8 m o.controller_steam_id

  pub write_controller_steam_id : Memory → ℕ → Memory
  write_controller_steam_id m steam_id = write_le 8 m o.controller_steam_id steam_id
