-- ===== src/Examples/Signature.antt =====
-- A gamedata file, the shipped signature of `UTIL_Remove`, and a module that holds it.
use cs2_bot_identity.Base.{
  ℕ, zero, suc, ◌-◌, ◌<◌, ◌==◌, ◌≡◌, ◌≢◌, refl, pos, Bool, true, false, Option, none, some, List,
  [], ◌∷◌, map, drop, get_or, Bytes, bytes_eq, codes, arith, if◌then◌else◌,
}
use cs2_bot_identity.Gamedata.{
  starts_with, find, skip_spaces, quote_key, linux_value, read_number, read_signed, read_offset,
  closes, read_linux_string, default_gamedata, try_apply, apply_offsets, load_gamedata,
}
use cs2_bot_identity.Gamedata.Values.{read_offset-number}
use cs2_bot_identity.Json.{quoted}
use cs2_bot_identity.Json.Print.{digits}
use cs2_bot_identity.Memory.{Memory, read_le}
use cs2_bot_identity.SigScan.{
  hex_digits, skip_space, strtoul16, parsed, parse_loop, parse_sig_string, ModuleSegment, PhdrInfo,
  executable_segments, base_name, collect_lib_server, matches_at, scan_segment, scan_segments,
  find_pattern, scan_modules, lea_target, interface_module, resolve_util_remove,
}
use cs2_bot_identity.SigScan.Find.{Finds, find_pattern-Finds}
use cs2_bot_identity.SigScan.Parse.{IsAligned, parse_sig_string-IsAligned}
use cs2_bot_identity.SigScan.Resolve.{Resolves, resolve_util_remove-Resolves}
use cs2_bot_identity.SigScan.RoundTrip.{
  byte_of, is_wild, print_sig, no_signs, wild_sign, byte_sign, parse_sig_string-print_sig,
}
use cs2_bot_identity.SscOps.{linux_offsets}

abbrev gamedata_text : Bytes
gamedata_text =
    codes
      "{ \"CBaseEntity::m_iTeamNum\": { \"offsets\": { \"windows\": 1572, \"linux\": 1580 } },\n \"UTIL_Remove\": { \"signatures\": { \"linux\": \"48 8D 05 ? ? ? ?\" } } }"

loads_gamedata :
    load_gamedata (some gamedata_text) (default_gamedata linux_offsets)
    ≡ record (default_gamedata (record linux_offsets { controller_team_num = 1580 })) {
      util_remove_sig = codes "48 8D 05 ? ? ? ?";
    }
unfolding load_gamedata apply_offsets try_apply read_offset read_linux_string closes quoted
    linux_value read_signed read_number skip_spaces find starts_with
loads_gamedata = refl

abbrev short_text : Bytes
short_text = codes "{\"k\":{\"linux\": 42}}"

read_offset-number_example : read_offset short_text (codes "k") ≡ pos 42
unfolding starts_with skip_spaces digits
read_offset-number_example =
    read_offset-number short_text (codes "k") (32 ∷ []) (codes "}}") 1 5 7 42
      (record { stands = refl; nowhere_before = key_before; inside = omega arith })
      (record { stands = refl; nowhere_before = linux_before; inside = omega arith })
      (record { stands = refl; nowhere_before = colon_before; inside = omega arith }) refl refl
      (omega arith) refl
  where
    key_before : (j : ℕ) → j < 1 → starts_with (quote_key (codes "k")) (drop j short_text) ≡ false
    key_before zero l = refl
    key_before (suc j) l = absurd (omega arith)

    linux_before :
        (j : ℕ) → j < 5 → starts_with (codes "\"linux\"") (drop j (drop 1 short_text)) ≡ false
    linux_before zero l = refl
    linux_before (suc zero) l = refl
    linux_before (suc (suc zero)) l = refl
    linux_before (suc (suc (suc zero))) l = refl
    linux_before (suc (suc (suc (suc zero)))) l = refl
    linux_before (suc (suc (suc (suc (suc j))))) l = absurd (omega arith)

    colon_before :
        (j : ℕ) → j < 7 → starts_with (codes ":") (drop j (drop 5 (drop 1 short_text))) ≡ false
    colon_before zero l = refl
    colon_before (suc zero) l = refl
    colon_before (suc (suc zero)) l = refl
    colon_before (suc (suc (suc zero))) l = refl
    colon_before (suc (suc (suc (suc zero)))) l = refl
    colon_before (suc (suc (suc (suc (suc zero))))) l = refl
    colon_before (suc (suc (suc (suc (suc (suc zero)))))) l = refl
    colon_before (suc (suc (suc (suc (suc (suc (suc j))))))) l = absurd (omega arith)

abbrev shipped : Bytes
shipped = codes "48 89 FE 48 85 FF 74 ? 48 8D 05 ? ? ? ? 48"

abbrev shipped_pattern : Bytes
shipped_pattern =
    0x48 ∷ 0x89 ∷ 0xFE ∷ 0x48 ∷ 0x85 ∷ 0xFF ∷ 0x74 ∷ 0 ∷ 0x48 ∷ 0x8D ∷ 0x05 ∷ 0 ∷ 0 ∷ 0 ∷ 0 ∷ 0x48
    ∷ []

abbrev shipped_wilds : List Bool
shipped_wilds =
    false ∷ false ∷ false ∷ false ∷ false ∷ false ∷ false ∷ true ∷ false ∷ false ∷ false ∷ true
    ∷ true ∷ true ∷ true ∷ false ∷ []

parses_shipped : parse_sig_string shipped ≡ parsed shipped_pattern shipped_wilds
unfolding parse_sig_string parse_loop strtoul16 skip_space hex_digits
parses_shipped = refl

parse_sig_string-IsAligned_example :
    IsAligned (parse_sig_string shipped)
    × ((wilds : List Bool) → parse_sig_string shipped ≢ parsed [] wilds)
parse_sig_string-IsAligned_example = parse_sig_string-IsAligned shipped

-- `48 ? FF`.
abbrev signs : List (Option ℕ)
signs = none ∷ some 255 ∷ []

parse_sig_string-print_sig_example :
    parse_sig_string (print_sig (some 72 ∷ signs))
    ≡ parsed (map byte_of (some 72 ∷ signs)) (map is_wild (some 72 ∷ signs))
parse_sig_string-print_sig_example =
    parse_sig_string-print_sig (some 72) signs
      (byte_sign (omega arith) (wild_sign (byte_sign (omega arith) no_signs)))

-- The code of a module at 4096, with the shipped signature at its start.
abbrev code : Memory
code a = if a == 0 then 0 else get_or shipped_pattern (a - 4096) 0

abbrev segment : ModuleSegment
segment = record { base = 4096; size = 64 }

find_pattern-Finds_example :
    Finds code shipped_pattern shipped_wilds
      (segment ∷ [])
      (find_pattern code (segment ∷ []) shipped_pattern shipped_wilds)
find_pattern-Finds_example =
    find_pattern-Finds code shipped_pattern shipped_wilds (segment ∷ []) (omega arith) refl

abbrev server : PhdrInfo
server = record {
  load_address = 4096;
  name = some (codes "/game/libserver.so");
  headers = record { loads = true; executable = true; vaddr = 0; memsz = 64 } ∷ [];
}

resolves_shipped :
    resolve_util_remove code (server ∷ []) shipped 0
    ≡ record { target = 4096; ent_sys_global = 4111; module_path = codes "/game/libserver.so" }
unfolding resolve_util_remove parse_sig_string parse_loop strtoul16 skip_space hex_digits
    interface_module scan_modules find_pattern scan_segments scan_segment matches_at
    collect_lib_server base_name executable_segments lea_target read_le bytes_eq
resolves_shipped = refl

resolve_util_remove-Resolves_example :
    Resolves code
      (server ∷ [])
      (resolve_util_remove code (server ∷ []) shipped 0)
      (parse_sig_string shipped)
resolve_util_remove-Resolves_example = resolve_util_remove-Resolves code (server ∷ []) shipped 0
