-- ===== src/VoteScan/RoundTrip.antt =====
-- Putting back the copies of src/vote_transaction.cpp undoes the scan.
use cs2_bot_identity.Base.{
  ℕ, ◌+◌, ◌-◌, ◌≤◌, ◌≡◌, ◌∙◌, refl, ap, arith, Bool, true, false, ◌&&◌, Bool-cases, if◌then◌else◌,
  ltb, leb, List, [], ◌∷◌, ◌++◌, inl, inr,
}
use cs2_bot_identity.Memory.{Memory}
use cs2_bot_identity.Memory.Laws.{write_le-outside, write_le-inside}
use cs2_bot_identity.VoteScan.{SteamIdCopy, same, scan_limit, restore_copy, restore_region}
use cs2_bot_identity.VoteScan.Saved.{covers, IsSaved, All}

restore_copy-IsSaved :
    (m base : Memory) (on_controller : Bool) (nbytes : ℕ) (c : SteamIdCopy) (i : ℕ)
    → nbytes ≤ scan_limit on_controller
    → IsSaved m on_controller 0 nbytes c
    → restore_copy c on_controller base i
      ≡ (if leb c.offset i && ltb i (c.offset + 8) then m i else base i)
unfolding restore_copy
restore_copy-IsSaved m base on_controller nbytes c i limit s =
    rw (s.object, same_self on_controller, fits)
      (elim (Bool-cases (leb c.offset i && ltb i (c.offset + 8))) [
        | inl inside ↦ rw inside (
            write_le-inside 8 base c.offset c.value (i - c.offset) i (ground arith) (ground arith)
            ∙ s.bytes (i - c.offset) (ground arith)
            ∙ ap m (ground arith))
        | inr outside ↦ rw outside (write_le-outside 8 base c.offset c.value i (ground arith))
      ])
  where
    same_self : (b : Bool) → same b b ≡ true
    same_self true = refl
    same_self false = refl

    fits : leb (c.offset + 8) (scan_limit on_controller) ≡ true
    fits = ground (arith, s.to)

-- Bytes in a copy come back; the others stay.
pub restore_region-saved :
    (m base : Memory) (on_controller : Bool) (nbytes : ℕ) (cs : List SteamIdCopy) (i : ℕ)
    → nbytes ≤ scan_limit on_controller
    → All (IsSaved m on_controller 0 nbytes) cs
    → restore_region cs on_controller base i ≡ (if covers on_controller cs i then m i else base i)
unfolding restore_region
restore_region-saved m base on_controller nbytes [] i limit saved = refl
restore_region-saved m base on_controller nbytes (c ∷ cs) i limit saved = ground (
  arith,
  restore_region-saved m (restore_copy c on_controller base) on_controller nbytes cs i limit
      saved.1,
  restore_copy-IsSaved m base on_controller nbytes c i limit saved.0,
  saved.0.object,
)

pub restore_region-append :
    (xs ys : List SteamIdCopy) (on_controller : Bool) (m : Memory)
    → restore_region (xs ++ ys) on_controller m
      ≡ restore_region ys on_controller (restore_region xs on_controller m)
unfolding restore_region
restore_region-append [] ys on_controller m = refl
restore_region-append (x ∷ xs) ys on_controller m =
    restore_region-append xs ys on_controller (restore_copy x on_controller m)

-- Copies of the other object are passed over.
pub restore_region-other :
    (cs : List SteamIdCopy) (on_controller other : Bool) (m : Memory)
    → same other on_controller ≡ false
    → All (λ c. c.on_controller ≡ other) cs
    → restore_region cs on_controller m ≡ m
unfolding restore_region restore_copy
restore_region-other [] on_controller other m apart h = refl
restore_region-other (c ∷ cs) on_controller other m apart h =
    rw (h.0, apart) (restore_region-other cs on_controller other m apart h.1)
