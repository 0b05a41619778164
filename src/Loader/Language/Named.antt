-- ===== src/Loader/Language/Named.antt =====
-- src/bot_info.cpp, `ReadCssServerLanguage`, on a core.json that names a language.
use cs2_bot_identity.Base.{◌≡◌, true, false, List, [], ◌∷◌, ◌++◌, is_empty, Bytes, bytes_eq, codes}
use cs2_bot_identity.BotInfo.Text.Chinese.{IsSimplified}
use cs2_bot_identity.Json.Print.{no_quote, sign, member}
use cs2_bot_identity.Json.Values.{Value, IsValue, print_value}
use cs2_bot_identity.Loader.Language.{BotListSelection}
use cs2_bot_identity.Loader.Language.Choice.{zh_file, default_file}

-- Members, each with a comma behind it, and what follows them.
pub print_members : Bytes → List (Bytes × Value) → Bytes → Bytes
print_members gap [] rest = rest
print_members gap ((k, v) ∷ ps) rest =
    member gap k (print_value gap v (sign gap b',' (print_members gap ps rest)))

-- No key among them is `ServerLanguage` or empty, and none needs escapes.
pub data AreOther : List (Bytes × Value) → Type 0 where
  no_members : AreOther []
  one_other :
      {k : Bytes} {v : Value} {ps : List (Bytes × Value)}
      → no_quote k ≡ true
      → is_empty k ≡ false
      → bytes_eq k (codes "ServerLanguage") ≡ false
      → IsValue v
      → AreOther ps
      → AreOther ((k, v) ∷ ps)

-- The Chinese list for the parts of a simplified Chinese tag, and the default one for any others.
pub record Picks (base_dir language primary : Bytes) (parts : List Bytes) (sel : BotListSelection)
    : Type 0 where
  pub reported : sel.css_language ≡ language
  pub chinese : IsSimplified primary parts → sel.relative_file ≡ zh_file
  pub default : ¬ (IsSimplified primary parts) → sel.relative_file ≡ default_file
  pub path : sel.absolute_path ≡ base_dir ++ (codes "/addons/BotIdentity/" ++ sel.relative_file)
