-- ===== src/MapGate/Release.antt =====
-- src/plugin.cpp, `ReleaseManagedSlots`: when a map is blacklisted, every managed slot is let go.
use native.Mathlib.Omega.{arith}
use cs2_bot_identity.Base.{
  ℕ, suc, ◌+◌, ◌<◌, ◌≡◌, refl, ◌==◌, ℤ, pos, false, not, Bool-cases, ◌⊎◌, inl, inr,
  for_slots_counts,
}
use mathlib.Core.Path.{ap, ◌∙◌, sym, subst}
use native.Mathlib.Decide.{ℕ_discrete}
use cs2_bot_identity.BotInfo.{max_slots}
use cs2_bot_identity.IdentityManager.{is_managed, unmark}
use cs2_bot_identity.IdentityManager.Links.{IsLinked}
use cs2_bot_identity.IdentityManager.Preserve.{unmark-IsLinked}
use cs2_bot_identity.IdentityManager.Managed.{is_managed-bound, unmark-unmanaged, unmark-other}
use cs2_bot_identity.World.{World}
use cs2_bot_identity.EntityAccess.{resolve_client_by_slot}
use cs2_bot_identity.Disguise.{restore_identity}
use cs2_bot_identity.VoteWindow.{reset_vote_transaction}
use cs2_bot_identity.MapGate.{release_one, release_managed_slots}

pub restore-roster : (w : World) (slot : ℤ) → (restore_identity w slot).roster ≡ w.roster
unfolding restore_identity
restore-roster w slot = elim (Bool-cases (resolve_client_by_slot w.engine slot == 0)) [
  | inl e ↦ rw e refl
  | inr e ↦ rw e refl
]

-- One round lets its slot go, and manages no new slot.
release_one-roster :
    (slot : ℕ) (w : World)
    → ((release_one slot w).roster ≡ w.roster) × (is_managed w.roster.manager (pos slot) ≡ false)
      ⊎ ((release_one slot w).roster ≡ unmark w.roster (pos slot))
unfolding release_one
release_one-roster slot w = elim (Bool-cases (not (is_managed w.roster.manager (pos slot)))) [
  | inl e ↦ inl (rw e refl, ground (arith))
  | inr e ↦ inr (rw e (ap (λ r. unmark r (pos slot)) (restore-roster w (pos slot))))
]

-- After the rounds before `n` no slot below `n` is managed.
record IsReleased (n : ℕ) (w : World) : Type 0 where
  linked : IsLinked w.roster
  below : (m : ℕ) → m < n → is_managed w.roster.manager (pos m) ≡ false

release_one-IsReleased : (n : ℕ) (w : World) → IsReleased n w → IsReleased (suc n) (release_one n w)
release_one-IsReleased n w h = elim (release_one-roster n w) [
  | inl (same, free) ↦ record {
    linked = subst IsLinked (sym same) h.linked;
    below = λ m lt.
        rw same (elim (ℕ_discrete m n) [ yes q ↦ rw q free | no q ↦ h.below m (omega arith) ]);
  }
  | inr unmarked ↦ record {
    linked = subst IsLinked (sym unmarked) (unmark-IsLinked w.roster (pos n) h.linked);
    below = λ m lt. rw unmarked (elim (ℕ_discrete m n) [
      | yes q ↦ rw q (unmark-unmanaged w.roster n)
      | no q ↦ unmark-other w.roster n m (λ e. q (sym e)) ∙ h.below m (omega arith)
    ]);
  }
]

-- Where slots and identities are tied, `ReleaseManagedSlots` leaves no slot managed, whatever was
-- managed before, and keeps the tie.
pub release_managed_slots-IsReleased :
    (w : World)
    → IsLinked w.roster
    → IsLinked (release_managed_slots w).roster
      × ((m : ℤ) → is_managed (release_managed_slots w).roster.manager m ≡ false)
unfolding release_managed_slots reset_vote_transaction
release_managed_slots-IsReleased w v = (done.linked, all)
  where
    done : IsReleased (0 + max_slots) (release_managed_slots w)
    done =
        for_slots_counts IsReleased release_one release_one-IsReleased max_slots 0
          (reset_vote_transaction w) (record { linked = v; below = λ m lt. absurd (omega arith) })

    all : (m : ℤ) → is_managed (release_managed_slots w).roster.manager m ≡ false
    all m = elim (Bool-cases (is_managed (release_managed_slots w).roster.manager m)) [
      | inr e ↦ e
      | inl e ↦
          let (n, lt, m_is) = is_managed-bound (release_managed_slots w).roster.manager m e in
          rw m_is (done.below n lt)
    ]
