-- ===== src/Lib.antt =====
-- CS2-Bot-Identity: a Metamod plugin that lets the bots of a CS2 server pass as players.
--
-- The plugin gives each connecting bot an identity from a list, writes it over the bot's engine
-- objects, and publishes it to other plugins in a region of shared memory. While the engine runs a
-- vote or a kick it takes the disguise off and puts it back (the vote window). On blacklisted maps it
-- stands aside. Controllers that kicked bots leave behind are removed.
--
-- The parts, and the files that model them:
--   BotInfo, BotInfo/Pool: src/bot_info.h and src/bot_info.cpp, the list of identities and
--     `GetFree`. `rand()` and `IsSlotActive` are arguments. BotInfo/Text: names and language tags.
--   IdentityManager: src/bot_info.cpp, the table of slots; `BotIdentity*` is an index of the list.
--   Memory, SscOps: src/ssc_ops.h, fields of an object as bytes at its offsets. An object is a
--     function from offsets to bytes; numbers are little-endian, and writes keep their width.
--   EntityAccess: src/entity_access.cpp, the engine as the plugin reaches it: the client list, the
--     entity list, and the calls made on entities, in order. The entity list is a function from
--     chunks and places in a chunk to identities, so neither the way from the entity system's global
--     to the chunks nor the offsets that gamedata.json gives for it have an effect on the look-ups.
--   ShmPub: src/shm_pub.h and src/shm_pub.cpp, the shared region; View, Layout and Refine hold the
--     fields per slot that a reader sees and each operation as an update of them.
--   VoteScan, VoteMarkers: src/vote_transaction.cpp, the writes to the two objects of one bot.
--   World, Disguise: the state of all parts, and `ApplyDisguise` and `RestoreIdentity` of
--     src/plugin.cpp; Disguise/Bytes, Shown and Published hold what a client and the region show.
--   VoteTransaction, VoteWindow: src/vote_transaction.cpp, the snapshots and the window. OneBot sets
--     the writes to the engine beside those of VoteMarkers, and Closed follows one slot through both
--     halves of a window.
--   ControllerReap: src/controller_reap.cpp, the queue of controllers and the client list.
--   MapGate: src/bot_info.h and src/plugin.cpp, the blacklist and the suspension.
--   Plugin: src/plugin.cpp, the hooks that call all of these; Plugin/Startup: `Load`.
--   Json, Loader: src/bot_info.cpp, the reader of the JSON files, `Load`, `LoadBots` and the choice
--     of the language. Json/Print and Json/Values write such a file.
--   Gamedata, SigScan: src/entity_access.cpp, `LoadGamedata`, and `ResolveUtilRemove` with the
--     signature scan. The loaded objects are a list of their names, addresses and program headers, in
--     the order in which `dl_iterate_phdr` gives them; SigScan/Headers says what they map.
--   Examples: runs on concrete data.
--
-- A state is a record and an operation a function from state to state; a result in a C++ reference
-- or a `bool` is a component of the result. A null pointer is 0. What lies outside the repository is
-- an argument: `rand()`, the steady clock, the engine's map name, and, in the record `Outside`, what
-- `ChangeTeam` and `UTIL_Remove` do. Sizes are those of the source: 64 slots, 256 identities, tables
-- of 8 copies, scans of 2048 and 4096 bytes. The scan runs on fuel of one round for each byte, which
-- is enough since it moves on by at least one byte in each. Depth, user ids, handles and the
-- incarnation wrap at the width of their type, and the jitter of the pings computes with an `int` that
-- wraps.
--
-- A reader moves on in a text, and what it returns holds the rest of it. The loops of the JSON
-- reader run on fuel of one round for each byte and one more; a run tells when its fuel is gone, and
-- the theorems on the loaders show that it never is. `strtoul` and `std::string::find` are as the C
-- and C++ standards have them; the files are an argument, as the text that was read, or none where
-- it could not be opened. An offset of gamedata.json that does not fit an `int` wraps.
-- `flair_millis`, an argument, gives the integer that is compared with, for the digits of a
-- probability before and behind its point.
--
-- Not modelled: the interface lookup and the hook registration in `BotIdentityPlugin::Load`, console
-- output and the routines that only print, src/memory_ops.h, which nothing includes, and the C# side.
-- The probability of the flair is kept as the integer that the source compares with; times are in
-- nanoseconds instead of seconds as `double`.
pub mod Base
pub mod BotInfo
pub mod IdentityManager
pub mod Json
pub mod Loader
pub mod Memory
pub mod SscOps
pub mod EntityAccess
pub mod Gamedata
pub mod SigScan
pub mod ShmPub
pub mod VoteScan
pub mod VoteMarkers
pub mod World
pub mod Disguise
pub mod VoteTransaction
pub mod VoteWindow
pub mod ControllerReap
pub mod MapGate
pub mod Plugin
pub mod Examples
