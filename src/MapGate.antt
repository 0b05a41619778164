-- ===== src/MapGate.antt =====
-- src/bot_info.h, `AsciiLowerCopy` and `MapNameMatchesBlacklist`, and src/plugin.cpp,
-- `BuildMapIdentity` to `HintMapGate`: on which maps the plugin stands aside.
pub mod Keeps
pub mod Match
pub mod Release
use cs2_bot_identity.Base.{
  ℕ, zero, suc, ◌+◌, ◌==◌, ℤ, pos, Bool, true, false, not, ◌&&◌, ◌||◌, Option, none, some, List, [],
  ◌∷◌, map, if◌then◌else◌, leb, is_empty, Bytes, bytes_eq, for_slots,
}
use cs2_bot_identity.BotInfo.{max_slots}
use cs2_bot_identity.IdentityManager.{is_managed, unmark}
use cs2_bot_identity.World.{World}
use cs2_bot_identity.Disguise.{restore_identity}
use cs2_bot_identity.VoteWindow.{reset_vote_transaction}

abbrev pub lower : ℕ → ℕ
lower c = if leb 65 c && leb c 90 then c + 32 else c

unfoldable pub ascii_lower_copy : Bytes → Bytes
ascii_lower_copy s = map lower s

-- `std::string::find`, as a test: does `s` start with `token`, and does it contain it?
unfoldable pub is_prefix : Bytes → Bytes → Bool
is_prefix [] s = true
is_prefix (c ∷ token) [] = false
is_prefix (c ∷ token) (d ∷ s) = (c == d) && is_prefix token s

unfoldable pub contains : Bytes → Bytes → Bool
contains token [] = is_prefix token []
contains token (d ∷ s) = is_prefix token (d ∷ s) || contains token s

-- The test of one token against the lower-case map name.
unfoldable pub token_hits : Bytes → Bytes → Bool
token_hits hay token = not (is_empty token) && contains (ascii_lower_copy token) hay

unfoldable pub first_hit : Bytes → List Bytes → Option Bytes
first_hit hay [] = none
first_hit hay (token ∷ tokens) = if token_hits hay token then some token else first_hit hay tokens

-- The matched token, if there is one.
unfoldable pub map_name_matches_blacklist : Bytes → List Bytes → Option Bytes
map_name_matches_blacklist map_name tokens =
    if is_empty map_name then none else first_hit (ascii_lower_copy map_name) tokens

-- `map_name` and `addon` are what the engine's `GetMapName` and `GetAddonName` give, empty where
-- there is no game server.
unfoldable pub build_map_identity : Bytes → Bytes → Bytes
build_map_identity map_name addon = if is_empty map_name then addon else map_name

unfoldable pub release_one : ℕ → World → World
release_one slot w =
    if not (is_managed w.roster.manager (pos slot))
    then w
    else let restored = restore_identity w (pos slot) in
      record restored { roster = unmark restored.roster (pos slot) }

unfoldable pub release_managed_slots : World → World
release_managed_slots w = for_slots max_slots 0 release_one (reset_vote_transaction w)

abbrev set_suspended : Bool → World → World
set_suspended b w = record w { map_suspended = b }

unfoldable pub apply_map_gate : World → Bytes → World
apply_map_gate w map_name =
    if is_empty map_name || bytes_eq w.gate_map map_name
    then w
    else let named = record w { gate_map = map_name } in
      elim (map_name_matches_blacklist map_name w.map_blacklist) [
        | none ↦ set_suspended false named
        | some token ↦
            set_suspended true (if w.map_suspended then named else release_managed_slots named)
      ]

unfoldable pub poll_map_gate : Bytes → Bytes → World → World
poll_map_gate map_name addon w =
    let id = build_map_identity map_name addon in if is_empty id then w else apply_map_gate w id

pub hint_map_gate : World → Bytes → World
hint_map_gate w map_name = elim (map_name_matches_blacklist map_name w.map_blacklist) [
  | none ↦ w
  | some token ↦ apply_map_gate w map_name
]
