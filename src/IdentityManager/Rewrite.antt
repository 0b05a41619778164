-- ===== src/IdentityManager/Rewrite.antt =====
-- Writes to an entry of the bot list that keep its slot, against the tie of src/bot_info.cpp.
use native.Mathlib.Decide.{ℕ_discrete}
use cs2_bot_identity.Base.{
  ℕ, ◌≡◌, sym, ap, ◌∙◌, subst, pos, minus_one, is_nonneg, false, some, get_or, get_elem?, modify,
  length-modify, get_elem?-modify_self, get_elem?-modify_ne, get_elem?-modify_cases, inl, inr,
}
use cs2_bot_identity.BotInfo.{BotIdentity}
use cs2_bot_identity.IdentityManager.{Roster}
use cs2_bot_identity.IdentityManager.Links.{IsLinked}

module _ (r : Roster) (v : IsLinked r) (f : BotIdentity → BotIdentity) (i : ℕ) (b : BotIdentity)
    (at : get_elem? r.bots i ≡ some b) (keeps : (n : ℕ) → b.slot ≡ pos n → (f b).slot ≡ pos n)
    (adds_none : (n : ℕ) → (f b).slot ≡ pos n → b.slot ≡ pos n)
    (idles : is_nonneg (f b).slot ≡ false → (f b).applied ≡ false) where
  the_entry : {c : BotIdentity} → get_elem? r.bots i ≡ some c → c ≡ b
  the_entry at_c = cc

  rewrite-worn :
      (n j : ℕ)
      → get_or r.manager.slots n minus_one ≡ pos j
      → (c : BotIdentity) × (get_elem? (modify f r.bots i) j ≡ some c) × (c.slot ≡ pos n)
  rewrite-worn n j h =
      let (c, at_j, slot) = v.worn n j h in
      elim (ℕ_discrete i j) [
        | yes e ↦
            let same : c ≡ b = the_entry (subst (λ k. get_elem? r.bots k ≡ some c) (sym e) at_j) in
            let slot_b : b.slot ≡ pos n = subst (λ d. d.slot ≡ pos n) same slot in
            (
              f b,
              subst (λ k. get_elem? (modify f r.bots i) k ≡ some (f b)) e
                  (get_elem?-modify_self f r.bots i at),
              keeps n slot_b,
            )
        | no ne ↦ (c, get_elem?-modify_ne f r.bots i j ne ∙ at_j, slot)
      ]

  rewrite-wearer :
      (j n : ℕ) (c : BotIdentity)
      → get_elem? (modify f r.bots i) j ≡ some c
      → c.slot ≡ pos n
      → get_or r.manager.slots n minus_one ≡ pos j
  rewrite-wearer j n c h e = elim (get_elem?-modify_cases f r.bots i j h) [
    | inl (j_is, (d, at_d, c_is)) ↦
        let same : d ≡ b = the_entry at_d in
        let slot_c : (f b).slot ≡ pos n =
          subst (λ x. (f x).slot ≡ pos n) same (subst (λ x. x.slot ≡ pos n) c_is e) in
        subst (λ k. get_or r.manager.slots n minus_one ≡ pos k) (sym j_is)
          (v.wearer i n b at (adds_none n slot_c))
    | inr (ne, at_c) ↦ v.wearer j n c at_c e
  ]

  rewrite-idle :
      (j : ℕ) (c : BotIdentity)
      → get_elem? (modify f r.bots i) j ≡ some c
      → is_nonneg c.slot ≡ false
      → c.applied ≡ false
  rewrite-idle j c h e = elim (get_elem?-modify_cases f r.bots i j h) [
    | inl (j_is, (d, at_d, c_is)) ↦
        let c_is' : c ≡ f b = c_is ∙ ap f (the_entry at_d) in
        subst (λ x. x.applied ≡ false) (sym c_is')
          (idles (subst (λ x. is_nonneg x.slot ≡ false) c_is' e))
    | inr (ne, at_c) ↦ v.idle j c at_c e
  ]

  pub rewrite-IsLinked : IsLinked (record r { bots = modify f r.bots i })
  rewrite-IsLinked = record {
    sized = v.sized;
    bounded = rw (length-modify f r.bots i) v.bounded;
    counted = v.counted;
    worn = rewrite-worn;
    wearer = rewrite-wearer;
    idle = rewrite-idle;
  }
