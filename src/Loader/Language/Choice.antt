-- ===== src/Loader/Language/Choice.antt =====
-- src/bot_info.cpp, `SelectBotList`: the bot list that the language of core.json chooses.
use cs2_bot_identity.Base.{
  ℕ, zero, suc, ◌<◌, ◌≡◌, refl, sym, subst, inl, inr, not, Option, none, some, [], ◌∷◌, ◌++◌,
  Bool-cases, if◌then◌else◌, if_keeps, length, is_empty, Bytes, bytes_eq, arith, codes,
}
use cs2_bot_identity.BotInfo.Text.{is_simplified_chinese}
use cs2_bot_identity.BotInfo.Text.Tags.{not_chinese_empty}
use cs2_bot_identity.Json.{
  match_char, read_string, Run, out_of_fuel, done, bind, skip_json_value, Key, stop, key, next_key,
  comma,
}
use cs2_bot_identity.Json.Kept.{Ends, Ends-bind, skip_json_value-Ends, comma-Ends}
use cs2_bot_identity.Json.Shrinks.{
  match_char-Shrinks, read_string-Shrinks, next_key-KeyShrinks, KeyShrinks,
}
use cs2_bot_identity.Loader.{Outcome, unfinished, returned}
use cs2_bot_identity.Loader.Language.{
  find_language, found_language, read_css_server_language, BotListSelection, core_path, selection,
  select_bot_list,
}

-- Every language may be found.
abbrev AnyText : Bytes → Type 0
AnyText language = Unit {0}

find_language-Ends :
    (whole fuel : ℕ) (language s : Bytes)
    → length s < fuel
    → length s < whole
    → Ends AnyText (length s) (find_language whole fuel language s)
unfolding find_language
find_language-Ends whole zero language s f w = absurd (omega arith)
find_language-Ends whole (suc fuel) language s f w =
    from (next_key s) (next_key-KeyShrinks s)
      λ language' r l. find_language-Ends whole fuel language' r (omega arith) (omega arith)
  where
    from :
        (k : Key)
        → KeyShrinks k (length s)
        → ((language' r : Bytes)
            → length r < length s
            → Ends AnyText (length r) (find_language whole fuel language' r))
        → Ends AnyText (length s) (elim k [
          | stop rest ↦ done language rest
          | key k r ↦
              let found = read_string r in
              let more =
                bind (skip_json_value whole language r) (comma (find_language whole fuel)) in
              if bytes_eq k (codes "ServerLanguage") then done found.0 found.1 else more
        ])
    from (stop rest) l more = (tt, l)
    from (key k r) l more =
        let moved = read_string-Shrinks r in
        if_keeps (Ends AnyText (length s)) (bytes_eq k (codes "ServerLanguage")) _ _
          (tt, omega arith)
          (Ends-bind AnyText AnyText (length r) (length s) (skip_json_value whole language r) _
            (skip_json_value-Ends AnyText whole language r (omega arith) tt)
            λ language' r' u l'.
              comma-Ends AnyText (find_language whole fuel) (length s) language' r'
                (λ language'' r'' l'' u'. more language'' r'' l'') (omega arith) tt)

-- The Chinese list, and the default one.
abbrev pub zh_file : Bytes
zh_file = codes "lang/zh-CN.json"

abbrev pub default_file : Bytes
default_file = codes "bots.json"

-- The list for a language: the Chinese one exactly if the language is simplified Chinese.
abbrev pub Chooses : Bytes → Bytes → BotListSelection → Type 0
Chooses base_dir language sel =
    (sel.css_language ≡ language)
    × (sel.relative_file ≡ (if is_simplified_chinese language then zh_file else default_file))
    × (sel.absolute_path ≡ base_dir ++ (codes "/addons/BotIdentity/" ++ sel.relative_file))

-- A selection for the language that it names.
abbrev pub IsChoice : Bytes → Option BotListSelection → Type 0
IsChoice base_dir none = ⊥
IsChoice base_dir (some sel) = Chooses base_dir sel.css_language sel

pub selection-Chooses :
    (base_dir language : Bytes)
    → Chooses base_dir language (selection base_dir (not (is_empty language)) language)
selection-Chooses base_dir [] = (refl, rw not_chinese_empty refl, refl)
selection-Chooses base_dir (c ∷ s) = elim (Bool-cases (is_simplified_chinese (c ∷ s))) [
  | inl e ↦ rw e (refl, refl, refl)
  | inr e ↦ rw e (refl, refl, refl)
]

-- What `SelectBotList` makes of a result of `ReadCssServerLanguage` is a choice.
abbrev Selects : Bytes → Outcome Bytes → Type 0
Selects base_dir unfinished = ⊥
Selects base_dir (returned found language) =
    IsChoice base_dir (some (selection base_dir found language))

found-Selects :
    (base_dir : Bytes) (n : ℕ) (r : Run Bytes)
    → Ends AnyText n r
    → Selects base_dir (found_language r)
found-Selects base_dir n out_of_fuel e = absurd e
found-Selects base_dir n (done language s) e =
    let chosen = selection-Chooses base_dir language in
    subst (λ l. Chooses base_dir l (selection base_dir (not (is_empty language)) language))
      (sym chosen.0) chosen

read-Selects :
    (base_dir : Bytes) (file : Option Bytes) → Selects base_dir (read_css_server_language file)
unfolding read_css_server_language
read-Selects base_dir none = (refl, rw not_chinese_empty refl, refl)
read-Selects base_dir (some json) =
    let fuel = suc (length json) in
    let m = match_char b'{' json in
    let opened = match_char-Shrinks b'{' json in
    if_keeps (Selects base_dir) m.0 _ _
      (found-Selects base_dir (length m.1) (find_language fuel fuel [] m.1)
        (find_language-Ends fuel fuel [] m.1 (omega arith) (omega arith)))
      (refl, rw not_chinese_empty refl, refl)

-- `SelectBotList` returns for every file system, and picks the Chinese list exactly if the language
-- that it reports is simplified Chinese; the path is that of the list below the plugin's directory.
pub select_bot_list-IsChoice :
    (files : Bytes → Option Bytes) (base_dir : Bytes)
    → IsChoice base_dir (select_bot_list files base_dir)
unfolding select_bot_list
select_bot_list-IsChoice files base_dir =
    selected (read_css_server_language (files (core_path base_dir)))
      (read-Selects base_dir (files (core_path base_dir)))
  where
    selected :
        (o : Outcome Bytes)
        → Selects base_dir o
        → IsChoice base_dir (elim o [
          | unfinished ↦ none
          | returned found language ↦ some (selection base_dir found language)
        ])
    selected unfinished h = absurd h
    selected (returned found language) h = h
