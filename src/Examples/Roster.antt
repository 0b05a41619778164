-- ===== src/Examples/Roster.antt =====
-- Which identities src/bot_info.cpp hands out of a list of two, and what it notes of them.
use cs2_bot_identity.Base.{ℕ, ◌≡◌, ◌↔◌, refl, ℤ, Bool, true, none, some, get_elem?}
use cs2_bot_identity.BotInfo.{BotIdentity}
use cs2_bot_identity.BotInfo.Pool.{
  get_free, count_free, count_from, is_free, is_assignable, is_name_in_use, is_steam_id_in_use,
  any_other, pick_from,
}
use cs2_bot_identity.BotInfo.Pool.Choice.{Serves, IsClaimable, get_free-Serves, get_free-none}
use cs2_bot_identity.Examples.Data.{bots}

abbrev everyone : ℤ → Bool
everyone s = true

second_free : get_free everyone 3 bots ≡ (some 1, bots)
unfolding get_free count_free count_from is_free is_assignable is_name_in_use is_steam_id_in_use
    any_other pick_from
second_free = refl

get_free-Serves_example : Serves everyone bots 1 bots
get_free-Serves_example = get_free-Serves everyone 3 bots 1 bots second_free

get_free-none_example :
    ((get_free everyone 3 bots).0 ≡ none)
    ↔ ((i : ℕ) (b : BotIdentity) → get_elem? bots i ≡ some b → ¬ IsClaimable everyone bots i b)
get_free-none_example = get_free-none everyone 3 bots
