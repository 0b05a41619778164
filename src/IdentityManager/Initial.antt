-- ===== src/IdentityManager/Initial.antt =====
-- `IdentityManager` of src/bot_info.cpp before any client connects, over a list of loaded entries.
use cs2_bot_identity.Base.{
  ℕ, zero, suc, ◌≤◌, ◌≡◌, refl, ap, ℤ, pos, negsuc, leb, Bool-cases, inl, inr, minus_one, is_nonneg,
  false, List, some, get_elem?, get_or, replicate, length, length-replicate, arith,
}
use cs2_bot_identity.BotInfo.{BotIdentity, max_slots, max_bot_identities}
use cs2_bot_identity.BotInfo.Pool.Unique.{IsUnique}
use cs2_bot_identity.IdentityManager.{initial, is_managed}
use cs2_bot_identity.IdentityManager.Links.{IsLinked, count_managed}

-- No entry has a slot, and none is disguised.
pub record IsIdleList (bots : List BotIdentity) : Type 0 where
  pub few : length bots ≤ max_bot_identities
  pub free : (i : ℕ) (b : BotIdentity) → get_elem? bots i ≡ some b → is_nonneg b.slot ≡ false
  pub plain : (i : ℕ) (b : BotIdentity) → get_elem? bots i ≡ some b → b.applied ≡ false

nothing_worn : (k n : ℕ) → get_or (replicate k minus_one) n minus_one ≡ minus_one
nothing_worn zero n = refl
nothing_worn (suc k) zero = refl
nothing_worn (suc k) (suc n) = nothing_worn k n

pub initial-unmanaged : (slot : ℤ) → is_managed initial slot ≡ false
unfolding is_managed
initial-unmanaged (negsuc n) = refl
initial-unmanaged (pos n) = elim (Bool-cases (leb max_slots n)) [
  | inl e ↦ rw e refl
  | inr e ↦ rw (e, nothing_worn max_slots n) refl
]

nothing_managed : (k : ℕ) → count_managed (replicate k minus_one) ≡ 0
nothing_managed zero = refl
nothing_managed (suc k) = ground (arith, nothing_managed k)

-- A list of at most 256 entries, none with a slot and none disguised, and a fresh `IdentityManager`
-- are tied.
pub initial-IsLinked :
    (bots : List BotIdentity)
    → IsIdleList bots
    → IsLinked (record { bots = bots; manager = initial })
initial-IsLinked bots idle = record {
  sized = length-replicate max_slots minus_one;
  bounded = idle.few;
  counted = ap pos (ground (arith, nothing_managed max_slots));
  worn = λ n i h. let h' = rw (nothing_worn max_slots n) at h in cc;
  wearer = λ i n b at h. let f = idle.free i b at in let f' = rw h at f in cc;
  idle = λ i b at e. idle.plain i b at;
}

pub idle-IsUnique : (bots : List BotIdentity) → IsIdleList bots → IsUnique bots
idle-IsUnique bots idle i b at live = let f = idle.free i b at in absurd (ground (arith))
