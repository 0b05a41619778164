-- ===== src/Examples/Gate.antt =====
-- The map `DE_CABIN` against the blacklist of an empty token and `Cabin`.
use cs2_bot_identity.Base.{ℕ, ◌≡◌, ◌↔◌, refl, List, [], ◌∷◌, none, some, Bytes, codes, get_elem?}
use cs2_bot_identity.MapGate.{
  map_name_matches_blacklist, first_hit, token_hits, contains, is_prefix, ascii_lower_copy,
}
use cs2_bot_identity.MapGate.Match.{IsFirstHit, Hits, map_name_matches-some, map_name_matches-none}

abbrev tokens : List Bytes
tokens = [] ∷ codes "Cabin" ∷ []

cabin_matches : map_name_matches_blacklist (codes "DE_CABIN") tokens ≡ some (codes "Cabin")
unfolding map_name_matches_blacklist first_hit token_hits contains is_prefix ascii_lower_copy
cabin_matches = refl

map_name_matches-some_example : (i : ℕ) × IsFirstHit (codes "DE_CABIN") tokens i (codes "Cabin")
map_name_matches-some_example =
    map_name_matches-some (codes "DE_CABIN") tokens (codes "Cabin") cabin_matches

map_name_matches-none_example :
    (map_name_matches_blacklist (codes "de_mirage") tokens ≡ none)
    ↔ ((j : ℕ) (t : Bytes) → get_elem? tokens j ≡ some t → ¬ Hits (codes "de_mirage") t)
map_name_matches-none_example = map_name_matches-none (codes "de_mirage") tokens (λ e. cc)
