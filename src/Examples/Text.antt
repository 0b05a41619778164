-- ===== src/Examples/Text.antt =====
-- A name of src/bot_info.cpp that is cut, and a language tag.
use cs2_bot_identity.Base.{ℕ, ◌<◌, ◌≤◌, ◌≡◌, refl, ◌⊎◌, Bytes, [], ◌∷◌, length, take}
use cs2_bot_identity.BotInfo.Text.{truncate_utf8, cut_back}
use cs2_bot_identity.BotInfo.Text.Cut.{IsCutBefore, truncate_utf8-IsCutBefore}

-- `a`, and a character of three bytes.
abbrev name : Bytes
name = 97 ∷ 228 ∷ 189 ∷ 160 ∷ []

cut_name : truncate_utf8 name 3 ≡ 97 ∷ []
unfolding truncate_utf8 cut_back
cut_name = refl

truncate_utf8-IsCutBefore_example :
    ((length name ≤ 3) × (truncate_utf8 name 3 ≡ name))
    ⊎ ((3 < length name)
        × ((kept : ℕ) × (truncate_utf8 name 3 ≡ take kept name) × IsCutBefore name 3 kept))
truncate_utf8-IsCutBefore_example = truncate_utf8-IsCutBefore name 3
