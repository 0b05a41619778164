-- ===== src/Examples/Reach.antt =====
-- A bot connects to slot 0 of a server of src/plugin.cpp whose bot list was loaded, a frame passes, and
-- the bot leaves again.
use cs2_bot_identity.Base.{
  ℕ, ◌≡◌, refl, ap, ℤ, pos, true, false, [], some, none, codes, bytes_eq, if◌then◌else◌, arith,
}
use cs2_bot_identity.IdentityManager.{initial}
use cs2_bot_identity.EntityAccess.{is_slot_active}
use cs2_bot_identity.World.{World, Draws}
use cs2_bot_identity.Loader.{load}
use cs2_bot_identity.Loader.Limits.{no_tokens}
use cs2_bot_identity.Loader.Language.{select_bot_list, selection, read_css_server_language}
use cs2_bot_identity.MapGate.{
  poll_map_gate, apply_map_gate, build_map_identity, map_name_matches_blacklist, first_hit,
}
use cs2_bot_identity.Loader.Bots.RoundTrip.{print_bots}
use cs2_bot_identity.Plugin.{on_client_connected, on_client_disconnect, game_frame}
use cs2_bot_identity.Plugin.Connect.{IsSound}
use cs2_bot_identity.Plugin.Startup.{
  Host, open_region, start_up, after_config, load_engine, load_lists, load_bot_list, after_first,
  activate,
}
use cs2_bot_identity.Plugin.Startup.Ready.{IsFresh, IsReady, Gives, start_up-IsReady}
use cs2_bot_identity.Plugin.Reachable.{
  started, then_step, connected, frame_ended, disconnected, Reached-IsSound,
}
use cs2_bot_identity.Examples.Data.{world, draws, outside}
use cs2_bot_identity.Examples.Load.{gap, entries, loaded_bots, loads_bots}

abbrev each : ℕ → Draws
each n = draws

-- The directory of the server is the root, and holds a list of bots only.
abbrev host : Host
host = record {
  base_dir = [];
  files = λ path.
      if bytes_eq path (codes "/addons/BotIdentity/bots.json")
      then some (print_bots gap entries)
      else none;
  infos = [];
  bytes = λ a. 0;
  server_interface = 0;
  mapping = some (λ a. 1);
  flair_millis = λ int fraction. 0;
  map_name = codes "de_dust2";
  addon = [];
}

abbrev empty_world : World
empty_world = record world {
  roster = record { bots = []; manager = initial };
  plugin_active = false;
  shm_view = none;
  map_blacklist = [];
}

empty_world-IsFresh : IsFresh empty_world
empty_world-IsFresh = record {
  idle = record { few = omega arith; free = λ i b e. cc; plain = λ i b e. cc };
  unmanaged = refl;
  configured = record { hold_low = omega arith; hold_high = omega arith; tokens = no_tokens };
}

abbrev engaged : World
engaged =
    load_engine host
      (record empty_world { shm_view = open_region empty_world.shm_view host.mapping })

abbrev start : World
start = activate host engaged loaded_bots

starts : start_up host empty_world ≡ some start
unfolding start_up after_config load_engine load_lists load_bot_list after_first load
    select_bot_list read_css_server_language bytes_eq
starts =
    ap
      (λ o. elim (after_first host (selection [] false []) o) [
        | none ↦ none
        | some l ↦ some (activate host engaged l)
      ])
      loads_bots

all_active : (m : ℤ) → is_slot_active start.engine m ≡ true
unfolding is_slot_active load_engine activate poll_map_gate apply_map_gate build_map_identity
    map_name_matches_blacklist first_hit bytes_eq
all_active m = refl

start_up-IsReady_example : Gives IsReady (start_up host empty_world)
start_up-IsReady_example = start_up-IsReady host empty_world empty_world-IsFresh

abbrev greeted : World
greeted = on_client_connected start (pos 0) (codes "BOT Ann") 0 true draws

abbrev framed : World
framed = game_frame outside (codes "de_dust2") [] each (λ n. n) 10 greeted

Reached-IsSound_example : IsSound (on_client_disconnect outside framed (pos 0) 39).roster
Reached-IsSound_example = Reached-IsSound (
    then_step
      (then_step
        (then_step (started host empty_world start empty_world-IsFresh starts)
          (connected start (pos 0) (codes "BOT Ann") 0 true draws (λ m ne managed. all_active m)))
        (frame_ended greeted (codes "de_dust2") [] each (λ n. n) 10))
      (disconnected framed (pos 0) 39))
