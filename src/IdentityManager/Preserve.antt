-- ===== src/IdentityManager/Preserve.antt =====
-- The operations of `IdentityManager` in src/bot_info.cpp keep its tie to the bot list.
use native.Mathlib.Decide.{ℕ_discrete}
use cs2_bot_identity.Base.{
  ℕ, ◌<◌, ◌≡◌, ◌≢◌, ◌∙◌, sym, ap, refl, inl, inr, false, some, ℤ, pos, negsuc, minus_one, is_nonneg,
  get_elem?, get_or, set, length, arith, leb, Bool-cases, get_or-set_self, get_or-set_ne,
  length-set, get_elem?-lt_length, ◌-ℤ◌, ◌+ℤ◌, get_or_in, modify, get_elem?-modify_self,
  get_elem?-modify_ne, get_elem?-modify_cases, length-modify, subst,
}
use cs2_bot_identity.BotInfo.{BotIdentity, max_slots, max_bot_identities, take_slot, release_entry}
use cs2_bot_identity.IdentityManager.{Roster, mark, unmark, unmark_entry}
use cs2_bot_identity.IdentityManager.Links.{count_managed-set, IsLinked}

-- The slot that is unmarked gives up its entry `i`.
module _ (r : Roster) (v : IsLinked r) (n i : ℕ)
    (worn : get_or r.manager.slots n minus_one ≡ pos i) where
  n_in : n < length r.manager.slots
  n_in = get_or_in r.manager.slots n minus_one (λ e. cc)

  cleared : {j : ℕ} → minus_one ≡ pos j → ⊥
  cleared e = cc

  -- Another slot wears another entry.
  apart : (m j : ℕ) (b : BotIdentity) → get_elem? r.bots j ≡ some b → b.slot ≡ pos m → n ≢ m → i ≢ j
  apart m j b at slot ne e =
      let (c, at_i, slot_i) = v.worn n i worn in
      let same : get_elem? r.bots i ≡ some b =
        subst (λ k. get_elem? r.bots k ≡ some b) (sym e) at in
      ne (ground arith)

  unmark_entry-worn :
      (m j : ℕ)
      → get_or (set r.manager.slots n minus_one) m minus_one ≡ pos j
      → (b : BotIdentity) × (get_elem? (modify release_entry r.bots i) j ≡ some b)
        × (b.slot ≡ pos m)
  unmark_entry-worn m j h = elim (ℕ_discrete n m) [
    | yes e ↦ absurd (
        cleared (
          sym (get_or-set_self r.manager.slots n minus_one minus_one n_in)
          ∙ subst (λ k. get_or (set r.manager.slots n minus_one) k minus_one ≡ pos j) (sym e) h))
    | no ne ↦
        let (b, at, slot) =
          v.worn m j (sym (get_or-set_ne r.manager.slots n m minus_one minus_one ne) ∙ h) in
        (b, get_elem?-modify_ne release_entry r.bots i j (apart m j b at slot ne) ∙ at, slot)
  ]

  unmark_entry-wearer :
      (j m : ℕ) (b : BotIdentity)
      → get_elem? (modify release_entry r.bots i) j ≡ some b
      → b.slot ≡ pos m
      → get_or (set r.manager.slots n minus_one) m minus_one ≡ pos j
  unmark_entry-wearer j m b h e = elim (get_elem?-modify_cases release_entry r.bots i j h) [
    | inl (_, (c, _, b_is)) ↦ absurd (ground arith)
    | inr (ne, at) ↦ elim (ℕ_discrete n m) [
      | yes q ↦ absurd (ground (arith, v.wearer j m b at e))
      | no q ↦ get_or-set_ne r.manager.slots n m minus_one minus_one q ∙ v.wearer j m b at e
    ]
  ]

  unmark_entry-idle :
      (j : ℕ) (b : BotIdentity)
      → get_elem? (modify release_entry r.bots i) j ≡ some b
      → is_nonneg b.slot ≡ false
      → b.applied ≡ false
  unmark_entry-idle j b h e = elim (get_elem?-modify_cases release_entry r.bots i j h) [
    | inl (_, (c, _, b_is)) ↦ ground arith
    | inr (_, at) ↦ v.idle j b at e
  ]

  unmark_entry-IsLinked : IsLinked (unmark_entry r n (pos i))
  unfolding unmark_entry
  unmark_entry-IsLinked = record {
    sized = length-set r.manager.slots n minus_one ∙ v.sized;
    bounded = rw (length-modify release_entry r.bots i) v.bounded;
    counted =
        rw v.counted (
          let c = count_managed-set r.manager.slots n minus_one n_in in
          unfold ◌-ℤ◌ in ground arith);
    worn = unmark_entry-worn;
    wearer = unmark_entry-wearer;
    idle = unmark_entry-idle;
  }

-- `Unmark` keeps the tie, whatever slot it is given.
pub unmark-IsLinked : (r : Roster) (slot : ℤ) → IsLinked r → IsLinked (unmark r slot)
unfolding unmark
unmark-IsLinked r (negsuc n) v = v
unmark-IsLinked r (pos n) v = elim (Bool-cases (leb max_slots n)) [
  | inl out ↦ rw out v
  | inr inside ↦ rw inside (entry (get_or r.manager.slots n minus_one) refl)
]
  where
    entry : (w : ℤ) → get_or r.manager.slots n minus_one ≡ w → IsLinked (unmark_entry r n w)
    entry (negsuc k) e = v
    entry (pos i) e = unmark_entry-IsLinked r v n i e

-- `Mark` and then `identity->slot = slot`, for a free entry and a slot that is not managed.
module _ (r : Roster) (v : IsLinked r) (n i : ℕ) (b : BotIdentity) (n_lt : n < max_slots)
    (at : get_elem? r.bots i ≡ some b) (free : is_nonneg b.slot ≡ false)
    (unmanaged : is_nonneg (get_or r.manager.slots n minus_one) ≡ false) where
  adopt-worn :
      (m j : ℕ)
      → get_or (set r.manager.slots n (pos i)) m minus_one ≡ pos j
      → (c : BotIdentity) × (get_elem? (modify (take_slot (pos n)) r.bots i) j ≡ some c)
        × (c.slot ≡ pos m)
  adopt-worn m j h = elim (ℕ_discrete n m) [
    | yes e ↦
        let here : pos i ≡ pos j =
          sym (get_or-set_self r.manager.slots n (pos i) minus_one (rw v.sized n_lt))
          ∙ subst (λ k. get_or (set r.manager.slots n (pos i)) k minus_one ≡ pos j) (sym e) h in
        let same : i ≡ j = ground arith in
        (
          take_slot (pos n) b,
          subst
              (λ k. get_elem? (modify (take_slot (pos n)) r.bots i) k ≡ some (take_slot (pos n) b))
              same (get_elem?-modify_self (take_slot (pos n)) r.bots i at),
          ap pos e,
        )
    | no ne ↦
        let (c, at_j, slot) =
          v.worn m j (sym (get_or-set_ne r.manager.slots n m (pos i) minus_one ne) ∙ h) in
        (
          c,
          get_elem?-modify_ne (take_slot (pos n)) r.bots i j (not_free j c at_j slot) ∙ at_j,
          slot,
        )
  ]
    where
      not_free : (j : ℕ) (c : BotIdentity) → get_elem? r.bots j ≡ some c → c.slot ≡ pos m → i ≢ j
      not_free j c at_j slot e =
          let same : get_elem? r.bots i ≡ some c =
            subst (λ k. get_elem? r.bots k ≡ some c) (sym e) at_j in
          ground arith

  adopt-wearer :
      (j m : ℕ) (c : BotIdentity)
      → get_elem? (modify (take_slot (pos n)) r.bots i) j ≡ some c
      → c.slot ≡ pos m
      → get_or (set r.manager.slots n (pos i)) m minus_one ≡ pos j
  adopt-wearer j m c h e = elim (get_elem?-modify_cases (take_slot (pos n)) r.bots i j h) [
    | inl (j_is, (d, _, c_is)) ↦
        let m_is : n ≡ m = ground arith in
        subst (λ k. get_or (set r.manager.slots n (pos i)) k minus_one ≡ pos j) m_is
          (get_or-set_self r.manager.slots n (pos i) minus_one (rw v.sized n_lt)
            ∙ ap pos (sym j_is))
    | inr (ne, at_j) ↦ elim (ℕ_discrete n m) [
      | yes q ↦ absurd (ground (arith, v.wearer j m c at_j e))
      | no q ↦ get_or-set_ne r.manager.slots n m (pos i) minus_one q ∙ v.wearer j m c at_j e
    ]
  ]

  -- `Mark` and the write of the slot number keep the tie, for an entry without a slot and a slot of
  -- the server that is not managed.
  pub adopt-IsLinked : IsLinked (record {
    bots = modify (take_slot (pos n)) r.bots i;
    manager = mark r.manager (pos n) (pos i);
  })
  unfolding mark
  adopt-IsLinked =
      let n_ok : leb max_slots n ≡ false = ground arith in
      let i_lt : i < max_bot_identities =
        omega (arith, get_elem?-lt_length r.bots i at, v.bounded) in
      let i_ok : leb max_bot_identities i ≡ false = ground arith in
      rw (n_ok, i_ok, unmanaged)
        (record {
          sized = length-set r.manager.slots n (pos i) ∙ v.sized;
          bounded = rw (length-modify (take_slot (pos n)) r.bots i) v.bounded;
          counted =
              let c = count_managed-set r.manager.slots n (pos i) (rw v.sized n_lt) in
              rw v.counted (unfold ◌+ℤ◌ in ground arith);
          worn = adopt-worn;
          wearer = adopt-wearer;
          idle = λ j c h e. elim (get_elem?-modify_cases (take_slot (pos n)) r.bots i j h) [
            | inl (_, (d, _, c_is)) ↦ absurd (ground arith)
            | inr (_, at_j) ↦ v.idle j c at_j e
          ];
        })
