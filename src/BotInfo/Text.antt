-- ===== src/BotInfo/Text.antt =====
-- src/bot_info.h, `NormalizeLanguageTag` and `IsSimplifiedChinese`, and src/bot_info.cpp, `TrimAscii`
-- and `TruncateUtf8`: the texts that the bot lists and the language are read from.
pub mod Cut
pub mod Chinese
pub mod Tags
use cs2_bot_identity.Base.{
  ℕ, zero, suc, ◌+◌, ◌==◌, Bool, true, false, not, ◌&&◌, ◌||◌, List, [], ◌∷◌, map, if◌then◌else◌,
  ltb, leb, length, get_or, take, is_empty, Bytes, bytes_eq, codes,
}

-- A space, a tab, a line feed or a carriage return.
abbrev pub is_blank : ℕ → Bool
is_blank c = (c == 32) || (c == 9) || (c == 10) || (c == 13)

unfoldable pub trim_front : Bytes → Bytes
trim_front [] = []
trim_front (c ∷ s) = elim (is_blank c) [ true ↦ trim_front s | false ↦ c ∷ s ]

unfoldable pub trim_back : Bytes → Bytes
trim_back [] = []
trim_back (c ∷ s) = let rest = trim_back s in if is_empty rest && is_blank c then [] else c ∷ rest

unfoldable pub trim_ascii : Bytes → Bytes
trim_ascii s = trim_back (trim_front s)

-- The byte goes on with a UTF-8 sequence: `(c & 0xC0) == 0x80`.
abbrev pub is_continuation : ℕ → Bool
is_continuation c = leb 128 c && ltb c 192

-- `while (i > 0 && ...) --i;`
unfoldable pub cut_back : Bytes → ℕ → ℕ
cut_back s zero = zero
cut_back s (suc i) = elim (is_continuation (get_or s (suc i) 0)) [
  | true ↦ cut_back s i
  | false ↦ suc i
]

unfoldable pub truncate_utf8 : Bytes → ℕ → Bytes
truncate_utf8 s max_bytes = if leb (length s) max_bytes then s else take (cut_back s max_bytes) s

-- `_` becomes `-`, and an upper-case letter its lower-case one.
abbrev pub fold_byte : ℕ → ℕ
fold_byte c = if c == 95 then 45 else if leb 65 c && leb c 90 then c + 32 else c

unfoldable pub normalize_language_tag : Bytes → Bytes
normalize_language_tag tag = map fold_byte (trim_ascii tag)

-- The parts of a tag between its hyphens.
pub subtags : Bytes → List Bytes
subtags [] = [] ∷ []
subtags (c ∷ s) =
    if c == 45
    then [] ∷ subtags s
    else elim (subtags s) [ [] ↦ (c ∷ []) ∷ [] | part ∷ parts ↦ (c ∷ part) ∷ parts ]

pub is_traditional : Bytes → Bool
is_traditional part =
    bytes_eq part (codes "tw")
    || bytes_eq part (codes "hk")
    || bytes_eq part (codes "mo")
    || bytes_eq part (codes "hant")

pub no_traditional : List Bytes → Bool
no_traditional [] = true
no_traditional (part ∷ parts) = not (is_traditional part) && no_traditional parts

-- An empty last part is one that the source does not look at, and is not a traditional one.
pub is_simplified_chinese : Bytes → Bool
is_simplified_chinese tag = elim (subtags (normalize_language_tag tag)) [
  | [] ↦ false
  | primary ∷ parts ↦ bytes_eq primary (codes "zh") && no_traditional parts
]
