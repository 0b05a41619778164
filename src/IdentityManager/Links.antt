-- ===== src/IdentityManager/Links.antt =====
-- The invariant that ties `IdentityManager` of src/bot_info.cpp to the entries of the bot list.
use cs2_bot_identity.Base.{
  ℕ, zero, suc, ◌+◌, ◌<◌, ◌≤◌, ◌≡◌, false, some, List, [], ◌∷◌, ℤ, pos, minus_one, is_nonneg,
  get_elem?, get_or, set, length, arith, if◌then◌else◌,
}
use cs2_bot_identity.BotInfo.{BotIdentity, max_slots, max_bot_identities}
use cs2_bot_identity.IdentityManager.{Roster}

-- How many slots are managed.
abbrev pub count_managed : List ℤ → ℕ
count_managed [] = 0
count_managed (s ∷ ss) = (if is_nonneg s then 1 else 0) + count_managed ss

pub count_managed-set :
    (ss : List ℤ) (n : ℕ) (v : ℤ)
    → n < length ss
    → count_managed (set ss n v) + (if is_nonneg (get_or ss n minus_one) then 1 else 0)
      ≡ count_managed ss + (if is_nonneg v then 1 else 0)
count_managed-set [] n v h = elim h [ ]
count_managed-set (s ∷ ss) zero v h = omega arith
count_managed-set (s ∷ ss) (suc n) v h = omega (arith, count_managed-set ss n v (omega arith))

-- A managed slot wears an entry that names it; an entry that names a slot is worn there; and the
-- count is the number of managed slots.
pub record IsLinked (r : Roster) : Type 0 where
  pub sized : length r.manager.slots ≡ max_slots
  pub bounded : length r.bots ≤ max_bot_identities
  pub counted : r.manager.active_count ≡ pos (count_managed r.manager.slots)
  pub worn :
      (n i : ℕ)
      → get_or r.manager.slots n minus_one ≡ pos i
      → (b : BotIdentity) × (get_elem? r.bots i ≡ some b) × (b.slot ≡ pos n)
  pub wearer :
      (i n : ℕ) (b : BotIdentity)
      → get_elem? r.bots i ≡ some b
      → b.slot ≡ pos n
      → get_or r.manager.slots n minus_one ≡ pos i
  pub idle :
      (i : ℕ) (b : BotIdentity)
      → get_elem? r.bots i ≡ some b
      → is_nonneg b.slot ≡ false
      → b.applied ≡ false
