-- ===== src/SigScan.antt =====
-- src/entity_access.cpp, `ParseSigString` to `ResolveUtilRemove`: where `UTIL_Remove` is in the
-- server's code. An address is a number, `bytes` is the memory of the process, and null is 0.
pub mod Find
pub mod Headers
pub mod Modules
pub mod Parse
pub mod RoundTrip
pub mod Resolve
use cs2_bot_identity.Base.{
  ℕ, zero, suc, ◌+◌, ◌-◌, ◌*◌, ◌%◌, ◌^◌, ◌==◌, ℤ, pos, negsuc, Bool, true, false, not, ◌&&◌, ◌||◌,
  Option, none, some, List, [], ◌∷◌, ◌++◌, if◌then◌else◌, ltb, leb, length, get_or, drop, is_empty,
  Bytes, bytes_eq, codes,
}
use cs2_bot_identity.Json.{first}
use cs2_bot_identity.Memory.{Memory, read_le, to_int32}

abbrev pub hex_value : ℕ → Option ℕ
hex_value c =
    if leb b'0' c && leb c b'9'
    then some (c - 48)
    else if leb b'A' c && leb c b'F'
    then some (c - 55)
    else if leb b'a' c && leb c b'f'
    then some (c - 87)
    else none

abbrev pub is_hex : ℕ → Bool
is_hex c = elim (hex_value c) [ none ↦ false | some v ↦ true ]

-- A result of `strtoul`: the value, and the rest of the text; `none` where no number was read.
abbrev pub Number : Type 0
Number = Option (ℕ × Bytes)

-- The hexadecimal digits; `v` is the value so far, if there was a digit.
unfoldable pub hex_digits : Number → Bytes → Number
hex_digits read [] = read
hex_digits read (c ∷ s) = elim (hex_value c) [
  | none ↦ read
  | some d ↦ hex_digits (some (elim read [ none ↦ d | some (v, r) ↦ v * 16 + d ], s)) s
]

-- `isspace` in the C locale.
abbrev pub is_space : ℕ → Bool
is_space c = (c == 32) || (leb 9 c && leb c 13)

unfoldable pub skip_space : Bytes → Bytes
skip_space [] = []
skip_space (c ∷ s) = let more = skip_space s in if is_space c then more else c ∷ s

-- The text behind a prefix `0x` that a digit follows.
abbrev pub skip_prefix : Bytes → Bytes
skip_prefix s =
    if (first s == b'0')
      && ((first (drop 1 s) == b'x') || (first (drop 1 s) == b'X'))
      && is_hex (first (drop 2 s))
    then drop 2 s
    else s

-- A value is taken modulo 2^64 if a minus stands before it.
abbrev pub negate_if : Bool → Number → Number
negate_if false n = n
negate_if true none = none
negate_if true (some (v, r)) = some ((2 ^ 64 - v) % 2 ^ 64, r)

-- `std::strtoul(p, &end, 16)`. The value is kept whole where it does not fit an `unsigned long`.
unfoldable pub strtoul16 : Bytes → Number
strtoul16 s =
    let body = skip_space s in
    let minus = first body == b'-' in
    let signed = minus || (first body == b'+') in
    negate_if minus (hex_digits none (skip_prefix (if signed then drop 1 body else body)))

-- The pattern and its wildcards; or `false`, or the fuel ran out.
pub data Signature : Type 0 where
  no_fuel : Signature
  refused : Signature
  parsed : Bytes → List Bool → Signature

-- `outBytes.push_back(…)` and `outWild.push_back(…)` before the rest of the loop.
abbrev pub push : ℕ → Bool → Signature → Signature
push v wild no_fuel = no_fuel
push v wild refused = refused
push v wild (parsed pattern wilds) = parsed (v ∷ pattern) (wild ∷ wilds)

-- `end - p > 2 || v > 0xFF`, for `strtoul` on `p`.
abbrev pub is_byte : Bytes → ℕ → Bytes → Bool
is_byte p v rest = leb (length p) (length rest + 2) && leb v 255

-- `if (*p == '?') ++p;`
abbrev pub skip_second : Bytes → Bytes
skip_second s = if first s == b'?' then drop 1 s else s

-- The loop of `ParseSigString`; `c_str()` ends at a NUL.
unfoldable pub parse_loop : ℕ → Bytes → Signature
parse_loop zero p = no_fuel
parse_loop (suc fuel) [] = parsed [] []
parse_loop (suc fuel) (c ∷ s) =
    let blank = parse_loop fuel s in
    let wild = push 0 true (parse_loop fuel (skip_second s)) in
    let number : Signature = elim (strtoul16 (c ∷ s)) [
      | none ↦ refused
      | some (v, rest) ↦
          let more = push v false (parse_loop fuel rest) in
          if is_byte (c ∷ s) v rest then more else refused
    ] in
    if c == 0 then parsed [] [] else if c == 32 then blank else if c == b'?' then wild else number

-- `return !outBytes.empty();`
abbrev pub some_bytes : Signature → Signature
some_bytes no_fuel = no_fuel
some_bytes refused = refused
some_bytes (parsed [] wilds) = refused
some_bytes (parsed (v ∷ pattern) wilds) = parsed (v ∷ pattern) wilds

unfoldable pub parse_sig_string : Bytes → Signature
parse_sig_string sig = some_bytes (parse_loop (suc (length sig)) sig)

pub record ModuleSegment : Type 0 where
  pub base : ℕ
  pub size : ℕ

pub record ServerModule : Type 0 where
  pub path : Bytes
  pub segments : List ModuleSegment

-- What `dl_iterate_phdr` tells of a loaded object. `loads` is `p_type == PT_LOAD`, and `executable`
-- is `(p_flags & PF_X) != 0`.
pub record ProgramHeader : Type 0 where
  pub loads : Bool
  pub executable : Bool
  pub vaddr : ℕ
  pub memsz : ℕ

pub record PhdrInfo : Type 0 where
  pub load_address : ℕ
  pub name : Option Bytes
  pub headers : List ProgramHeader

abbrev pub address : ℕ → ℕ → ℕ
address a b = (a + b) % 2 ^ 64

unfoldable pub executable_segments : ℕ → List ProgramHeader → List ModuleSegment
executable_segments load_address [] = []
executable_segments load_address (ph ∷ phs) =
    let more = executable_segments load_address phs in
    if not ph.loads || (ph.memsz == 0) || not ph.executable
    then more
    else record { base = address load_address ph.vaddr; size = ph.memsz } ∷ more

pub address_in_module : ℕ → List ProgramHeader → ℕ → Bool
address_in_module load_address [] a = false
address_in_module load_address (ph ∷ phs) a =
    let start = address load_address ph.vaddr in
    let here = ph.loads && not (ph.memsz == 0) && leb start a && ltb a (address start ph.memsz) in
    here || address_in_module load_address phs a

abbrev pub path_of : Option Bytes → Bytes
path_of none = []
path_of (some path) = path

-- `dl_iterate_phdr(FindByAddressCallback, &ctx)`, which goes on until the callback returns 1.
pub find_by_address : ℕ → ServerModule → List PhdrInfo → ServerModule
find_by_address a result [] = result
find_by_address a result (info ∷ infos) =
    let segments = executable_segments info.load_address info.headers in
    let found : ServerModule = record {
      path = path_of info.name;
      segments = result.segments ++ segments;
    } in
    let inside = address_in_module info.load_address info.headers a in
    let ends = inside && not (is_empty found.segments) in
    let more = find_by_address a (if inside then found else result) infos in
    if ends then found else more

-- What follows the last slash.
unfoldable pub base_name : Bytes → Bytes → Bytes
base_name since [] = since
base_name since (c ∷ s) = base_name (if c == b'/' then s else since) s

-- `dl_iterate_phdr(CollectLibServerCallback, &ctx)`.
unfoldable pub collect_lib_server : List PhdrInfo → List ServerModule
collect_lib_server [] = []
collect_lib_server (info ∷ infos) =
    let more = collect_lib_server infos in
    let segments = executable_segments info.load_address info.headers in
    elim info.name [
      | none ↦ more
      | some path ↦
          if bytes_eq (base_name path path) (codes "libserver.so") && not (is_empty segments)
          then record { path = path; segments = segments } ∷ more
          else more
    ]

-- `g_pfnUtilRemove`, `g_ppEntSysGlobal` and `g_UtilRemoveModule`.
pub record UtilRemove : Type 0 where
  pub target : ℕ
  pub ent_sys_global : ℕ
  pub module_path : Bytes

abbrev pub nothing_resolved : UtilRemove
nothing_resolved = record { target = 0; ent_sys_global = 0; module_path = [] }

abbrev pub no_module : ServerModule
no_module = record { path = []; segments = [] }

module _ (bytes : Memory) where
  -- The innermost loop of `FindPattern`.
  unfoldable pub matches_at : ℕ → Bytes → List Bool → Bool
  matches_at a [] wilds = true
  matches_at a (v ∷ pattern) [] = true
  matches_at a (v ∷ pattern) (wild ∷ wilds) =
      (wild || (bytes a == v)) && matches_at (a + 1) pattern wilds

  -- `for (size_t i = 0; i + plen <= segment.size; ++i)`, over the addresses.
  unfoldable pub scan_segment : ℕ → ℕ → Bytes → List Bool → Option ℕ
  scan_segment zero a pattern wilds = none
  scan_segment (suc rounds) a pattern wilds =
      let more = scan_segment rounds (a + 1) pattern wilds in
      if matches_at a pattern wilds then some a else more

  unfoldable pub scan_segments : List ModuleSegment → Bytes → List Bool → Option ℕ
  scan_segments [] pattern wilds = none
  scan_segments (seg ∷ segs) pattern wilds =
      let more = scan_segments segs pattern wilds in
      if (seg.base == 0) || ltb seg.size (length pattern)
      then more
      else elim (scan_segment (seg.size + 1 - length pattern) seg.base pattern wilds) [
        | some a ↦ some a
        | none ↦ more
      ]

  unfoldable pub find_pattern : List ModuleSegment → Bytes → List Bool → Option ℕ
  find_pattern segments pattern wilds =
      if is_empty pattern || not (length pattern == length wilds)
      then none
      else scan_segments segments pattern wilds

  -- `scanModule` for each module until one hits: the hit, and that module's path.
  unfoldable pub scan_modules : List ServerModule → Bytes → List Bool → Option (ℕ × Bytes)
  scan_modules [] pattern wilds = none
  scan_modules (m ∷ ms) pattern wilds =
      let more = scan_modules ms pattern wilds in
      elim (find_pattern m.segments pattern wilds) [ none ↦ more | some a ↦ some (a, m.path) ]

  abbrev pub displaced : ℕ → ℤ → ℕ
  displaced a (pos d) = (a + d) % 2 ^ 64
  displaced a (negsuc d) = (a + 2 ^ 64 - (d + 1)) % 2 ^ 64

  -- The loop over `lea rax, [rip+disp32]`, with the address of `bytes[i]`.
  unfoldable pub lea_target : ℕ → Bytes → ℕ
  lea_target a [] = 0
  lea_target a (v ∷ pattern) =
      let more = lea_target (a + 1) pattern in
      if ltb (length pattern) 6
      then 0
      else if (v == 0x48) && (get_or pattern 0 0 == 0x8D) && (get_or pattern 1 0 == 0x05)
      then displaced (a + 7) (to_int32 (read_le 4 bytes (a + 3)))
      else more

  -- The module that holds the vtable of the server interface, if there is one.
  unfoldable pub interface_module : List PhdrInfo → ℕ → List ServerModule
  interface_module infos server_interface =
      let vtable = read_le 8 bytes server_interface in
      if (server_interface == 0) || (vtable == 0)
      then []
      else find_by_address vtable no_module infos ∷ []

  -- What a hit of the pattern resolves to.
  abbrev pub resolved : Bytes → Option (ℕ × Bytes) → UtilRemove
  resolved pattern none = nothing_resolved
  resolved pattern (some (hit, path)) = record {
    target = hit;
    ent_sys_global = lea_target hit pattern;
    module_path = path;
  }

  abbrev pub first_of : Option (ℕ × Bytes) → Option (ℕ × Bytes) → Option (ℕ × Bytes)
  first_of none second = second
  first_of (some hit) second = some hit

  -- `infos` are the loaded objects, in the order of `dl_iterate_phdr`.
  unfoldable pub resolve_util_remove : List PhdrInfo → Bytes → ℕ → UtilRemove
  resolve_util_remove infos sig server_interface = elim (parse_sig_string sig) [
    | no_fuel ↦ nothing_resolved
    | refused ↦ nothing_resolved
    | parsed pattern wilds ↦ resolved pattern (
        first_of (scan_modules (interface_module infos server_interface) pattern wilds)
          (scan_modules (collect_lib_server infos) pattern wilds))
  ]
