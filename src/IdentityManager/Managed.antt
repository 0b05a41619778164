-- ===== src/IdentityManager/Managed.antt =====
-- `IdentityManager` of src/bot_info.cpp: which slots `Mark` and `Unmark` leave managed.
use cs2_bot_identity.Base.{
  ℕ, ◌<◌, ◌≡◌, ◌≢◌, refl, ap, ℤ, pos, negsuc, minus_one, is_nonneg, true, false, leb, get_or,
  length, get_or-set_self, get_or-set_ne, get_or_in, Bool-cases, inl, inr, arith, if◌then◌else◌,
}
use cs2_bot_identity.BotInfo.{max_slots}
use cs2_bot_identity.IdentityManager.{IdentityManager, Roster, is_managed, unmark, unmark_entry}

-- `Unmark` leaves its slot unmanaged.
pub unmark-unmanaged : (r : Roster) (n : ℕ) → is_managed (unmark r (pos n)).manager (pos n) ≡ false
unfolding is_managed unmark unmark_entry
unmark-unmanaged r n = elim (Bool-cases (leb max_slots n)) [
  | inl out ↦ rw out refl
  | inr inside ↦ rw inside (entry (get_or r.manager.slots n minus_one) refl)
]
  where
    entry :
        (worn : ℤ)
        → get_or r.manager.slots n minus_one ≡ worn
        → is_nonneg (get_or (unmark_entry r n worn).manager.slots n minus_one) ≡ false
    entry (negsuc k) e = rw e refl
    entry (pos i) e =
        let inside : n < length r.manager.slots = get_or_in r.manager.slots n minus_one (λ q. cc) in
        rw (get_or-set_self r.manager.slots n minus_one minus_one inside) refl

-- And another slot as it was.
pub unmark-other :
    (r : Roster) (n m : ℕ)
    → n ≢ m
    → is_managed (unmark r (pos n)).manager (pos m) ≡ is_managed r.manager (pos m)
unfolding is_managed unmark unmark_entry
unmark-other r n m ne = elim (Bool-cases (leb max_slots n)) [
  | inl out ↦ rw out refl
  | inr inside ↦ rw inside (
      ap (λ v. if leb max_slots m then false else is_nonneg v)
        (entry (get_or r.manager.slots n minus_one)))
]
  where
    entry :
        (worn : ℤ)
        → get_or (unmark_entry r n worn).manager.slots m minus_one
          ≡ get_or r.manager.slots m minus_one
    entry (negsuc k) = refl
    entry (pos i) = get_or-set_ne r.manager.slots n m minus_one minus_one ne

-- A managed slot is one of the engine's.
pub is_managed-bound :
    (m : IdentityManager) (slot : ℤ)
    → is_managed m slot ≡ true
    → (n : ℕ) × (n < max_slots) × (slot ≡ pos n)
unfolding is_managed
is_managed-bound m (negsuc n) h = absurd (ground arith)
is_managed-bound m (pos n) h = elim (Bool-cases (leb max_slots n)) [
  | inl out ↦ let h' : false ≡ true = rw out at h in absurd (ground arith)
  | inr inside ↦ (n, ground arith, refl)
]
