-- ===== src/Plugin/Startup.antt =====
-- src/plugin.cpp, `BotIdentityPlugin::Load` and the order in which it fills the state: gamedata.json,
-- the signature of `UTIL_Remove`, config.json, the choice of the language, and the bot list with its
-- fallback. The lookup of interfaces, the installation of hooks and console output are left out.
pub mod Ready
use mathlib.Core.Option
use cs2_bot_identity.Base.{
  ℕ, ◌==◌, Bool, true, false, not, ◌&&◌, ◌||◌, Option, none, some, List, ◌++◌, if◌then◌else◌,
  is_empty, Bytes, bytes_eq, codes,
}
use cs2_bot_identity.Memory.{Memory}
use cs2_bot_identity.ShmPub.{init_shared_memory}
use cs2_bot_identity.Gamedata.{Gamedata, load_gamedata, default_gamedata}
use cs2_bot_identity.SigScan.{PhdrInfo, UtilRemove, resolve_util_remove}
use cs2_bot_identity.Loader.{Config, Outcome, unfinished, returned, load_features}
use cs2_bot_identity.Loader.Bots.{BotList, load_bots}
use cs2_bot_identity.Loader.Language.{BotListSelection, select_bot_list}
use cs2_bot_identity.World.{World}
use cs2_bot_identity.MapGate.{poll_map_gate}

-- What the server gives to `Load`: its directory and files, the objects that are loaded and the bytes
-- at their addresses, the server interface, what the mapping of the shared region holds, or none where
-- a call that makes it failed, and the live map.
pub record Host : Type 0 where
  pub base_dir : Bytes
  pub files : Bytes → Option Bytes
  pub infos : List PhdrInfo
  pub bytes : Memory
  pub server_interface : ℕ
  pub mapping : Option Memory
  pub flair_millis : Bytes → Bytes → ℕ
  pub map_name : Bytes
  pub addon : Bytes

-- `InitSharedMemory`, whatever its system calls return.
pub open_region : Option Memory → Option Memory → Option Memory
open_region (some view) mapping = some view
open_region none none = none
open_region none (some fresh) = init_shared_memory none fresh

-- A file of the plugin's directory.
abbrev pub plugin_file : Host → Bytes → Option Bytes
plugin_file h name = h.files (h.base_dir ++ (codes "/addons/BotIdentity/" ++ name))

-- The selection that is left when the list of the language could not be loaded.
abbrev pub fall_back : Bytes → BotListSelection → BotListSelection
fall_back base_dir sel = record sel {
  matched = codes "default";
  relative_file = codes "bots.json";
  absolute_path = base_dir ++ codes "/addons/BotIdentity/bots.json";
}

abbrev pub second_list : Outcome BotList → Option BotList
second_list unfinished = none
second_list (returned loaded l) = some l

-- What follows the first call of `LoadBots`.
unfoldable pub after_first : Host → BotListSelection → Outcome BotList → Option BotList
after_first h sel unfinished = none
after_first h sel (returned loaded l) =
    if (not loaded || is_empty l.bots) && not (bytes_eq sel.matched (codes "default"))
    then second_list (load_bots (h.files (fall_back h.base_dir sel).absolute_path) l)
    else some l

unfoldable pub load_bot_list : Host → BotListSelection → BotList → Option BotList
load_bot_list h sel l = after_first h sel (load_bots (h.files sel.absolute_path) l)

-- `LoadGamedata`, then `ResolveUtilRemove`.
unfoldable pub load_engine : Host → World → World
load_engine h w =
    let g =
      load_gamedata (plugin_file h (codes "gamedata.json")) (default_gamedata w.engine.offsets) in
    let found = resolve_util_remove h.bytes h.infos g.util_remove_sig h.server_interface in
    record w {
      engine = record w.engine {
        offsets = g.offsets;
        util_remove_target = not (found.target == 0);
      };
    }

abbrev pub config_of : World → Config
config_of w = record { features = w.features; map_blacklist = w.map_blacklist }

abbrev pub put_config : Config → World → World
put_config c w = record w { features = c.features; map_blacklist = c.map_blacklist }

-- The `BotInfo` that the list is loaded into; its counts are only printed.
abbrev pub list_of : World → BotList
list_of w = record { bots = w.roster.bots; dropped = 0; truncated = 0 }

-- The end of `Load`, with the list that was loaded.
unfoldable pub activate : Host → World → BotList → World
activate h w l =
    poll_map_gate h.map_name h.addon
      (record w { roster = record w.roster { bots = l.bots }; plugin_active = true })

unfoldable pub load_lists : Host → World → Option World
load_lists h w = elim (select_bot_list h.files h.base_dir) [
  | none ↦ none
  | some sel ↦ elim (load_bot_list h sel (list_of w)) [
    | none ↦ none
    | some l ↦ some (activate h w l)
  ]
]

unfoldable pub after_config : Host → World → Outcome Config → Option World
after_config h w unfinished = none
after_config h w (returned loaded c) = load_lists h (put_config c w)

-- `Load`, or `none` where a loader ran out of fuel.
unfoldable pub start_up : Host → World → Option World
start_up h w =
    let engaged = load_engine h (record w { shm_view = open_region w.shm_view h.mapping }) in
    after_config h engaged
      (load_features h.flair_millis (plugin_file h (codes "config.json")) (config_of engaged))
