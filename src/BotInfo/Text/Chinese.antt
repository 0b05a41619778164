-- ===== src/BotInfo/Text/Chinese.antt =====
-- src/bot_info.h, `IsSimplifiedChinese`: which tags it accepts, by the parts between their hyphens.
use cs2_bot_identity.Base.{
  ◌≡◌, ◌≢◌, ◌↔◌, ◌∙◌, refl, ap, ◌==◌, inl, inr, Bool, true, false, not, ◌&&◌, &&_true, Bool-cases,
  List, [], ◌∷◌, ◌++◌, Bytes, bytes_eq, bytes_eq_iff, codes, arith,
}
use cs2_bot_identity.BotInfo.Text.{
  normalize_language_tag, subtags, is_traditional, no_traditional, is_simplified_chinese,
}

-- A tag of these parts, with hyphens between them.
unfoldable pub join_parts : Bytes → List Bytes → Bytes
join_parts part [] = part
join_parts part (next ∷ parts) = part ++ (b'-' ∷ join_parts next parts)

unfoldable pub no_hyphen : Bytes → Bool
no_hyphen [] = true
no_hyphen (c ∷ s) = not (c == b'-') && no_hyphen s

pub data NoHyphens : List Bytes → Type 0 where
  no_parts : NoHyphens []
  one_part :
      {part : Bytes} {parts : List Bytes}
      → no_hyphen part ≡ true
      → NoHyphens parts
      → NoHyphens (part ∷ parts)

-- No part names Taiwan, Hong Kong, Macau or the traditional script.
pub data NoTraditional : List Bytes → Type 0 where
  none_left : NoTraditional []
  one_other :
      {part : Bytes} {parts : List Bytes}
      → part ≢ codes "tw"
      → part ≢ codes "hk"
      → part ≢ codes "mo"
      → part ≢ codes "hant"
      → NoTraditional parts
      → NoTraditional (part ∷ parts)

abbrev pub IsSimplified : Bytes → List Bytes → Type 0
IsSimplified primary parts = (primary ≡ codes "zh") × NoTraditional parts

subtags-part :
    (part s : Bytes) → no_hyphen part ≡ true → subtags (part ++ (b'-' ∷ s)) ≡ part ∷ subtags s
unfolding subtags no_hyphen
subtags-part [] s e = refl
subtags-part (c ∷ part) s e =
    let (this, others) = &&_true (not (c == b'-')) (no_hyphen part) e in
    let other : (c == b'-') ≡ false = ground arith in
    rw (subtags, other, subtags-part part s others) refl

subtags_last : (part : Bytes) → no_hyphen part ≡ true → subtags part ≡ part ∷ []
unfolding subtags no_hyphen
subtags_last [] e = refl
subtags_last (c ∷ part) e =
    let (this, others) = &&_true (not (c == b'-')) (no_hyphen part) e in
    let other : (c == b'-') ≡ false = ground arith in
    rw (subtags, other, subtags_last part others) refl

subtags-join_parts :
    (part : Bytes) (parts : List Bytes)
    → NoHyphens (part ∷ parts)
    → subtags (join_parts part parts) ≡ part ∷ parts
unfolding join_parts
subtags-join_parts part [] (one_part e h) = subtags_last part e
subtags-join_parts part (next ∷ parts) (one_part e h) =
    subtags-part part (join_parts next parts) e ∙ ap (◌∷◌ part) (subtags-join_parts next parts h)

unequal : (a b : Bytes) → a ≢ b → bytes_eq a b ≡ false
unequal a b ne = elim (Bool-cases (bytes_eq a b)) [
  | inl e ↦ absurd (ne ((bytes_eq_iff a b).0 e))
  | inr e ↦ e
]

no_traditional-NoTraditional :
    (parts : List Bytes) → no_traditional parts ≡ true → NoTraditional parts
unfolding no_traditional is_traditional
no_traditional-NoTraditional [] e = none_left
no_traditional-NoTraditional (part ∷ parts) e =
    let (this, others) = &&_true (not (is_traditional part)) (no_traditional parts) e in
    one_other (λ same. ground (arith, (bytes_eq_iff part (codes "tw")).1 same))
      (λ same. ground (arith, (bytes_eq_iff part (codes "hk")).1 same))
      (λ same. ground (arith, (bytes_eq_iff part (codes "mo")).1 same))
      (λ same. ground (arith, (bytes_eq_iff part (codes "hant")).1 same))
      (no_traditional-NoTraditional parts others)

NoTraditional-no_traditional :
    {parts : List Bytes} → NoTraditional parts → no_traditional parts ≡ true
unfolding no_traditional is_traditional
NoTraditional-no_traditional none_left = refl
NoTraditional-no_traditional (one_other {part} ne_tw ne_hk ne_mo ne_hant h) =
    let tw = unequal part (codes "tw") ne_tw in
    let hk = unequal part (codes "hk") ne_hk in
    let mo = unequal part (codes "mo") ne_mo in
    let hant = unequal part (codes "hant") ne_hant in
    rw (tw, hk, mo, hant) (NoTraditional-no_traditional h)

-- `IsSimplifiedChinese` accepts a tag whose normal form is these parts exactly if the first is `zh`
-- and no other is `tw`, `hk`, `mo` or `hant`.
pub is_simplified_chinese-IsSimplified :
    (tag primary : Bytes) (parts : List Bytes)
    → normalize_language_tag tag ≡ join_parts primary parts
    → NoHyphens (primary ∷ parts)
    → (is_simplified_chinese tag ≡ true) ↔ IsSimplified primary parts
unfolding is_simplified_chinese
is_simplified_chinese-IsSimplified tag primary parts normal plain =
    let split = ap subtags normal ∙ subtags-join_parts primary parts plain in
    let zh = bytes_eq_iff primary (codes "zh") in
    let accepts : (bytes_eq primary (codes "zh") && no_traditional parts) ≡ true
        → IsSimplified primary parts =
      λ e.
        let (this, others) = &&_true (bytes_eq primary (codes "zh")) (no_traditional parts) e in
        (zh.0 this, no_traditional-NoTraditional parts others) in
    let accepted : IsSimplified primary parts
        → (bytes_eq primary (codes "zh") && no_traditional parts) ≡ true =
      λ h. rw (zh.1 h.0, NoTraditional-no_traditional h.1) refl in
    rw (is_simplified_chinese, split) (accepts, accepted)
