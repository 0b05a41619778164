-- ===== src/BotInfo/Text/Tags.antt =====
-- src/bot_info.h, `NormalizeLanguageTag`: a tag that is normal stays as it is.
use cs2_bot_identity.Base.{
  bytes_eq, ℕ, ◌≡◌, refl, ◌∙◌, sym, ap, true, false, ◌&&◌, [], ◌∷◌, map, Bytes, is_empty,
  Bool-cases, inl, inr, arith,
}
use cs2_bot_identity.BotInfo.Text.{
  subtags, is_blank, trim_front, trim_back, trim_ascii, fold_byte, normalize_language_tag,
  is_simplified_chinese,
}

fold-blank : (c : ℕ) → is_blank (fold_byte c) ≡ is_blank c
fold-blank c = ground (arith)

fold-fold : (c : ℕ) → fold_byte (fold_byte c) ≡ fold_byte c
fold-fold c = ground (arith)

map-fold : (s : Bytes) → map fold_byte (map fold_byte s) ≡ map fold_byte s
map-fold [] = refl
map-fold (c ∷ s) = rw (fold-fold c) (ap (◌∷◌ (fold_byte c)) (map-fold s))

front-fold : (s : Bytes) → trim_front (map fold_byte s) ≡ map fold_byte (trim_front s)
unfolding trim_front
front-fold [] = refl
front-fold (c ∷ s) = elim (Bool-cases (is_blank c)) [
  | inl e ↦
      let e' : is_blank (fold_byte c) ≡ true = fold-blank c ∙ e in
      rw (e, e', trim_front) (front-fold s)
  | inr e ↦
      let e' : is_blank (fold_byte c) ≡ false = fold-blank c ∙ e in rw (e, e', trim_front) refl
]

empty-fold : (s : Bytes) → is_empty (map fold_byte s) ≡ is_empty s
empty-fold [] = refl
empty-fold (c ∷ s) = refl

back-fold : (s : Bytes) → trim_back (map fold_byte s) ≡ map fold_byte (trim_back s)
unfolding trim_back
back-fold [] = refl
back-fold (c ∷ s) =
    let same : (is_empty (trim_back (map fold_byte s)) && is_blank (fold_byte c))
        ≡ (is_empty (trim_back s) && is_blank c) =
      ap (λ r. is_empty r && is_blank (fold_byte c)) (back-fold s)
      ∙ ap (λ b. b && is_blank (fold_byte c)) (empty-fold (trim_back s))
      ∙ ap (λ b. is_empty (trim_back s) && b) (fold-blank c) in
    elim (Bool-cases (is_empty (trim_back s) && is_blank c)) [
      | inl e ↦ let e' = same ∙ e in rw (e, e') refl
      | inr e ↦ let e' = same ∙ e in rw (e, e') (ap (◌∷◌ (fold_byte c)) (back-fold s))
    ]

back-back : (s : Bytes) → trim_back (trim_back s) ≡ trim_back s
unfolding trim_back
back-back [] = refl
back-back (c ∷ s) = elim (Bool-cases (is_empty (trim_back s) && is_blank c)) [
  | inl e ↦ rw (e, trim_back) refl
  | inr e ↦
      let e' : (is_empty (trim_back (trim_back s)) && is_blank c) ≡ false =
        ap (λ r. is_empty r && is_blank c) (back-back s) ∙ e in
      let step : trim_back (c ∷ s) ≡ c ∷ trim_back s = rw (e, trim_back) refl in
      let again : trim_back (c ∷ trim_back s) ≡ c ∷ trim_back (trim_back s) =
        rw (e', trim_back) refl in
      ap trim_back step ∙ again ∙ ap (◌∷◌ c) (back-back s) ∙ sym step
]

front-kept :
    (c : ℕ) (s : Bytes) → is_blank c ≡ false → trim_front (trim_back (c ∷ s)) ≡ trim_back (c ∷ s)
unfolding trim_front trim_back
front-kept c s solid =
    let e : (is_empty (trim_back s) && is_blank c) ≡ false = ground (arith) in
    let step : trim_back (c ∷ s) ≡ c ∷ trim_back s = rw (e, trim_back) refl in
    let kept : trim_front (c ∷ trim_back s) ≡ c ∷ trim_back s = rw (solid, trim_front) refl in
    ap trim_front step ∙ kept ∙ sym step

front-back : (s : Bytes) → trim_front (trim_back (trim_front s)) ≡ trim_back (trim_front s)
unfolding trim_front trim_back
front-back [] = refl
front-back (c ∷ s) = elim (Bool-cases (is_blank c)) [
  | inl e ↦ rw (e, trim_front) (front-back s)
  | inr e ↦
      let step : trim_front (c ∷ s) ≡ c ∷ s = rw (e, trim_front) refl in
      ap (λ t. trim_front (trim_back t)) step ∙ front-kept c s e ∙ ap trim_back (sym step)
]

pub trim-trim : (s : Bytes) → trim_ascii (trim_ascii s) ≡ trim_ascii s
unfolding trim_ascii
trim-trim s = ap trim_back (front-back s) ∙ back-back (trim_front s)

trim-fold : (s : Bytes) → trim_ascii (map fold_byte s) ≡ map fold_byte (trim_ascii s)
unfolding trim_ascii
trim-fold s = ap trim_back (front-fold s) ∙ back-fold (trim_front s)

normal_again :
    (tag : Bytes) → normalize_language_tag (normalize_language_tag tag) ≡ normalize_language_tag tag
unfolding normalize_language_tag
normal_again tag =
    ap (map fold_byte) (trim-fold (trim_ascii tag) ∙ ap (map fold_byte) (trim-trim tag))
    ∙ map-fold (trim_ascii tag)

-- A tag that is normalised twice is as it is after the first time, and the choice of the language is
-- the same for a tag and for its normal form.
pub normalize_language_tag_idem :
    (tag : Bytes)
    → (normalize_language_tag (normalize_language_tag tag) ≡ normalize_language_tag tag)
      × (is_simplified_chinese (normalize_language_tag tag) ≡ is_simplified_chinese tag)
unfolding is_simplified_chinese
normalize_language_tag_idem tag =
    (normal_again tag, rw (normal_again tag, is_simplified_chinese) refl)

-- No language is not a Chinese one.
pub not_chinese_empty : is_simplified_chinese [] ≡ false
unfolding is_simplified_chinese subtags normalize_language_tag trim_ascii trim_front trim_back
    bytes_eq
not_chinese_empty = refl
