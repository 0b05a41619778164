-- ===== src/MapGate/Match.antt =====
-- src/bot_info.h, `MapNameMatchesBlacklist`, against the statement that a token occurs in the name.
use native.Mathlib.Omega.{arith}
use cs2_bot_identity.Base.{
  ℕ, zero, suc, ◌<◌, ◌≡◌, ◌≢◌, ◌↔◌, get_elem?, refl, true, false, List, [], ◌∷◌, ◌++◌, none, some,
  Bytes, Bool-cases, Option-cases, inl, inr,
}
use mathlib.Core.Path.{ap, sym, subst}
use cs2_bot_identity.MapGate.{
  ascii_lower_copy, is_prefix, contains, token_hits, first_hit, map_name_matches_blacklist,
}

-- `token` stands somewhere in `s`.
abbrev pub Occurs : Bytes → Bytes → Type 0
Occurs token s = (before : Bytes) × (after : Bytes) × (s ≡ before ++ token ++ after)

prefix_true : (token s : Bytes) → is_prefix token s ≡ true → (after : Bytes) × (s ≡ token ++ after)
unfolding is_prefix
prefix_true [] s h = (s, refl)
prefix_true (c ∷ token) [] h = absurd (ground (arith))
prefix_true (c ∷ token) (d ∷ s) h =
    let (after, e) = prefix_true token s (ground (arith)) in
    let same : d ≡ c = ground (arith) in (after, cc)

prefix_append : (token after : Bytes) → is_prefix token (token ++ after) ≡ true
unfolding is_prefix
prefix_append [] after = refl
prefix_append (c ∷ token) after = ground (arith, prefix_append token after)

contains-true : (token s : Bytes) → contains token s ≡ true → Occurs token s
unfolding contains
contains-true token [] h = let (after, e) = prefix_true token [] h in ([], after, e)
contains-true token (d ∷ s) h = elim (Bool-cases (is_prefix token (d ∷ s))) [
  | inl here ↦ let (after, e) = prefix_true token (d ∷ s) here in ([], after, e)
  | inr there ↦
      let (before, after, e) = contains-true token s (ground (arith)) in
      (d ∷ before, after, ap (◌∷◌ d) e)
]

contains_append : (token before after : Bytes) → contains token (before ++ token ++ after) ≡ true
unfolding contains is_prefix
contains_append [] [] [] = refl
contains_append [] [] (d ∷ after) = ground (arith, prefix_append [] (d ∷ after))
contains_append (c ∷ token) [] after = ground (arith, prefix_append (c ∷ token) after)
contains_append token (d ∷ before) after = ground (arith, contains_append token before after)

-- A token that counts, and occurs in the name, in any case of letters.
abbrev pub Hits : Bytes → Bytes → Type 0
Hits map_name token = (token ≢ []) × Occurs (ascii_lower_copy token) (ascii_lower_copy map_name)

token_hits_iff :
    (map_name token : Bytes)
    → (token_hits (ascii_lower_copy map_name) token ≡ true) ↔ Hits map_name token
unfolding token_hits
token_hits_iff map_name [] = ((λ h. absurd (ground (arith))), (λ (ne, o). absurd (ne refl)))
token_hits_iff map_name (c ∷ token) = (
  (λ h. ((λ e. cc), contains-true (ascii_lower_copy (c ∷ token)) (ascii_lower_copy map_name) h)),
  (λ (ne, (before, after, e)). rw e (contains_append (ascii_lower_copy (c ∷ token)) before after)),
)

-- The token at `i` hits, and none before it does.
pub record IsFirstHit (map_name : Bytes) (tokens : List Bytes) (i : ℕ) (token : Bytes)
    : Type 0 where
  pub at : get_elem? tokens i ≡ some token
  pub hits : Hits map_name token
  pub earlier : (j : ℕ) (t : Bytes) → j < i → get_elem? tokens j ≡ some t → ¬ Hits map_name t

first_hit-some :
    (map_name : Bytes) (tokens : List Bytes) (token : Bytes)
    → first_hit (ascii_lower_copy map_name) tokens ≡ some token
    → (i : ℕ) × IsFirstHit map_name tokens i token
unfolding first_hit
first_hit-some map_name [] token h = cc
first_hit-some map_name (t ∷ tokens) token h =
    elim (Bool-cases (token_hits (ascii_lower_copy map_name) t)) [
      | inl hit ↦
          let h' : some t ≡ some token = rw hit at h in
          let t_is : t ≡ token = cc in
          (
            0,
            record {
              at = h';
              hits = subst (Hits map_name) t_is ((token_hits_iff map_name t).0 hit);
              earlier = λ j t' lt. absurd (omega arith);
            },
          )
      | inr miss ↦
          let (i, later) = first_hit-some map_name tokens token (rw miss at h) in
          (
            suc i,
            record {
              at = later.at;
              hits = later.hits;
              earlier = skip t tokens i miss later.earlier;
            },
          )
    ]
  where
    skip :
        (t : Bytes) (tokens : List Bytes) (i : ℕ)
        → token_hits (ascii_lower_copy map_name) t ≡ false
        → ((j : ℕ) (t' : Bytes) → j < i → get_elem? tokens j ≡ some t' → ¬ Hits map_name t')
        → (j : ℕ) (t' : Bytes) → j < suc i
        → get_elem? (t ∷ tokens) j ≡ some t'
        → ¬ Hits map_name t'
    skip t tokens i miss later zero t' lt at hits =
        let t_is : t ≡ t' = cc in
        let hit = (token_hits_iff map_name t).1 (subst (Hits map_name) (sym t_is) hits) in
        absurd (ground (arith))
    skip t tokens i miss later (suc j) t' lt at hits = later j t' (omega arith) at hits

first_hit-none :
    (map_name : Bytes) (tokens : List Bytes)
    → first_hit (ascii_lower_copy map_name) tokens ≡ none
    → (j : ℕ) (t : Bytes) → get_elem? tokens j ≡ some t
    → ¬ Hits map_name t
unfolding first_hit
first_hit-none map_name [] h j t at hits = cc
first_hit-none map_name (t ∷ tokens) h zero t' at hits =
    let t_is : t ≡ t' = cc in
    let hit = (token_hits_iff map_name t).1 (subst (Hits map_name) (sym t_is) hits) in
    let h' : some t ≡ none = rw hit at h in cc
first_hit-none map_name (t ∷ tokens) h (suc j) t' at hits =
    elim (Bool-cases (token_hits (ascii_lower_copy map_name) t)) [
      | inl hit ↦ let h' : some t ≡ none = rw hit at h in cc
      | inr miss ↦ first_hit-none map_name tokens (rw miss at h) j t' at hits
    ]

-- When the gate matches, it names the first token of the blacklist that is not empty and occurs in the map's name
-- in any case of letters.
pub map_name_matches-some :
    (map_name : Bytes) (tokens : List Bytes) (token : Bytes)
    → map_name_matches_blacklist map_name tokens ≡ some token
    → (i : ℕ) × IsFirstHit map_name tokens i token
unfolding map_name_matches_blacklist
map_name_matches-some [] tokens token h = cc
map_name_matches-some (c ∷ map_name) tokens token h = first_hit-some (c ∷ map_name) tokens token h

-- On a map with a name, the gate matches nothing exactly when no token of the blacklist that is not
-- empty occurs in the name in any case of letters.
pub map_name_matches-none :
    (map_name : Bytes) (tokens : List Bytes)
    → map_name ≢ []
    → (map_name_matches_blacklist map_name tokens ≡ none)
      ↔ ((j : ℕ) (t : Bytes) → get_elem? tokens j ≡ some t → ¬ Hits map_name t)
unfolding map_name_matches_blacklist
map_name_matches-none [] tokens named = absurd (named refl)
map_name_matches-none (c ∷ map_name) tokens named = (
  first_hit-none (c ∷ map_name) tokens,
  λ miss. elim (Option-cases (first_hit (ascii_lower_copy (c ∷ map_name)) tokens)) [
    | inl e ↦ e
    | inr (t, e) ↦
        let (i, hit) = first_hit-some (c ∷ map_name) tokens t e in absurd (miss i t hit.at hit.hits)
  ],
)
