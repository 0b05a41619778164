-- ===== src/BotInfo/Pool/Scan.antt =====
-- What the loops of src/bot_info.cpp over `m_Bots` find.
use cs2_bot_identity.Base.{
  ℕ, zero, suc, ◌+◌, ◌≤◌, ◌≡◌, ◌≢◌, refl, Bool, true, false, none, some, List, [], ◌∷◌, arith,
  Bool-cases, get_elem?, ◌==◌, not, ◌&&◌, inl, inr,
}
use cs2_bot_identity.BotInfo.{BotIdentity}
use cs2_bot_identity.BotInfo.Pool.{any_other, count_from, pick_from}

pub any_other-false :
    (p : BotIdentity → Bool) (self i : ℕ) (bs : List BotIdentity) (j : ℕ) (b : BotIdentity)
    → any_other p self i bs ≡ false
    → get_elem? bs j ≡ some b
    → i + j ≢ self
    → p b ≡ false
unfolding any_other
any_other-false p self i [] j b h e ne = cc
any_other-false p self i (x ∷ bs) zero b h e ne = ground arith
any_other-false p self i (x ∷ bs) (suc j) b h e ne =
    any_other-false p self (suc i) bs j b (ground arith) e (λ q. ne (omega arith))

pub any_other-true :
    (p : BotIdentity → Bool) (self i : ℕ) (bs : List BotIdentity)
    → any_other p self i bs ≡ true
    → (j : ℕ) × (b : BotIdentity) × (get_elem? bs j ≡ some b) × (i + j ≢ self) × (p b ≡ true)
unfolding any_other
any_other-true p self i [] h = absurd (cc)
any_other-true p self i (x ∷ bs) h = elim (Bool-cases (not (i == self) && p x)) [
  | inl here ↦ (0, x, refl, (λ q. ground arith), ground arith)
  | inr later ↦
      let (j, b, at, ne, held) = any_other-true p self (suc i) bs (rw later at h) in
      (suc j, b, at, (λ q. ne (omega arith)), held)
]

-- The entry that a loop which starts at index `i` stopped at.
pub record Found (test : ℕ → BotIdentity → Bool) (i : ℕ) (bs : List BotIdentity) (r : ℕ)
    : Type 0 where
  pub offset : ℕ
  pub entry : BotIdentity
  pub at : get_elem? bs offset ≡ some entry
  pub place : r ≡ i + offset
  pub passes : test r entry ≡ true

Found-suc :
    (test : ℕ → BotIdentity → Bool) (i : ℕ) (x : BotIdentity) (bs : List BotIdentity) (r : ℕ)
    → Found test (suc i) bs r
    → Found test i (x ∷ bs) r
Found-suc test i x bs r f = record {
  offset = suc f.offset;
  entry = f.entry;
  at = f.at;
  place = omega arith;
  passes = f.passes;
}

pub pick_from-some :
    (test : ℕ → BotIdentity → Bool) (pick i : ℕ) (bs : List BotIdentity) (r : ℕ)
    → pick_from test pick i bs ≡ some r
    → Found test i bs r
unfolding pick_from
pick_from-some test pick i [] r h = absurd (cc)
pick_from-some test zero i (x ∷ bs) r h = elim (Bool-cases (test i x)) [
  | inl here ↦
      let e : i ≡ r = ground arith in
      record { offset = 0; entry = x; at = refl; place = omega arith; passes = rw e at here }
  | inr later ↦ Found-suc test i x bs r (pick_from-some test zero (suc i) bs r (ground arith))
]
pick_from-some test (suc pick) i (x ∷ bs) r h = elim (Bool-cases (test i x)) [
  | inl here ↦ Found-suc test i x bs r (pick_from-some test pick (suc i) bs r (ground arith))
  | inr later ↦ Found-suc test i x bs r (pick_from-some test (suc pick) (suc i) bs r (ground arith))
]

pub pick_from-none :
    (test : ℕ → BotIdentity → Bool) (pick i : ℕ) (bs : List BotIdentity)
    → pick_from test pick i bs ≡ none
    → count_from test i bs ≤ pick
unfolding pick_from count_from
pick_from-none test pick i [] h = omega arith
pick_from-none test zero i (x ∷ bs) h = ground (arith, pick_from-none test zero (suc i) bs)
pick_from-none test (suc pick) i (x ∷ bs) h =
    ground (arith, pick_from-none test (suc pick) (suc i) bs, pick_from-none test pick (suc i) bs)

pub count_from-zero :
    (test : ℕ → BotIdentity → Bool) (i : ℕ) (bs : List BotIdentity) (j k : ℕ) (b : BotIdentity)
    → count_from test i bs ≡ 0
    → get_elem? bs j ≡ some b
    → k ≡ i + j
    → test k b ≡ false
unfolding count_from
count_from-zero test i [] j k b h e p = cc
count_from-zero test i (x ∷ bs) zero k b h e p = let q : k ≡ i = omega arith in rw q (ground arith)
count_from-zero test i (x ∷ bs) (suc j) k b h e p =
    count_from-zero test (suc i) bs j k b (ground arith) e (omega arith)
