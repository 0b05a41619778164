-- ===== src/ControllerReap/Shrink.antt =====
-- src/controller_reap.cpp, `ShrinkTrailingLeftoverClients`: what it drops and what it keeps.
use native.Mathlib.Omega.{arith}
use cs2_bot_identity.Base.{
  ℕ, zero, suc, ◌<◌, ◌≤◌, ◌≡◌, refl, ◌==◌, pos, Bool, true, false, not, ◌||◌, ltb, length, take,
  Bool-cases, inl, inr, length-take, get_or-take,
}
use mathlib.Core.Path.{◌∙◌, sym}
use cs2_bot_identity.IdentityManager.{IdentityManager}
use cs2_bot_identity.EntityAccess.{
  Engine, usable_clients, client_list_count, resolve_client_by_slot, shrink_client_list_to,
}
use cs2_bot_identity.ControllerReap.{
  client_looks_leftover_or_empty, trim, shrink_trailing_leftover_clients,
}

trim_le : (leftover : ℕ → Bool) (n : ℕ) → trim leftover n ≤ n
unfolding trim
trim_le leftover zero = omega arith
trim_le leftover (suc n) = elim (Bool-cases (leftover n)) [
  | inl e ↦ rw (e, trim) (let h = trim_le leftover n in omega arith)
  | inr e ↦ rw (e, trim) (omega arith)
]

trim_above : (leftover : ℕ → Bool) (n k : ℕ) → k < n → trim leftover n ≤ k → leftover k ≡ true
unfolding trim
trim_above leftover zero k h le = absurd (omega arith)
trim_above leftover (suc n) k h le = elim (Bool-cases (leftover n)) [
  | inr e ↦ let le' : suc n ≤ k = rw (e, trim) at le in absurd (omega arith)
  | inl e ↦
      let le' : trim leftover n ≤ k = rw (e, trim) at le in
      elim (Bool-cases (k == n)) [
        | inl same ↦ let k_is : k ≡ n = ground (arith) in rw k_is e
        | inr apart ↦ trim_above leftover n k (ground (arith)) le'
      ]
]

trim_last : (leftover : ℕ → Bool) (n k : ℕ) → trim leftover n ≡ suc k → leftover k ≡ false
unfolding trim
trim_last leftover zero k h = absurd (omega arith)
trim_last leftover (suc n) k h = elim (Bool-cases (leftover n)) [
  | inl e ↦ trim_last leftover n k (rw (e, trim) at h)
  | inr e ↦
      let h' : suc n ≡ suc k = rw (e, trim) at h in let same : k ≡ n = omega arith in rw same e
]

-- `f` is `e` with the empty and leftover slots at the end of its client list dropped, and no others.
pub record Shrinks (m : IdentityManager) (e f : Engine) : Type 0 where
  pub shorter : client_list_count f ≤ client_list_count e
  pub kept :
      (n : ℕ)
      → n < client_list_count f
      → resolve_client_by_slot f (pos n) ≡ resolve_client_by_slot e (pos n)
  pub dropped :
      (n : ℕ)
      → n < client_list_count e
      → client_list_count f ≤ n
      → client_looks_leftover_or_empty m e (pos n) ≡ true
  pub last :
      (n : ℕ) → client_list_count f ≡ suc n → client_looks_leftover_or_empty m e (pos n) ≡ false

-- The engine with its first `k` clients, when there are more.
module _ (e : Engine) (k : ℕ) (fewer : k < client_list_count e) where
  usable : (not e.server_alive || ltb 256 (length e.clients)) ≡ false
  unfolding client_list_count
  usable = elim (Bool-cases (not e.server_alive || ltb 256 (length e.clients))) [
    | inr h ↦ h
    | inl h ↦ let none_left : k < 0 = rw h at fewer in absurd (omega arith)
  ]

  cut : Engine
  cut = record e { clients = take k e.clients }

  count_e : client_list_count e ≡ length e.clients
  unfolding client_list_count
  count_e = rw usable refl

  usable_cut : (not e.server_alive || ltb 256 (length (take k e.clients))) ≡ false
  usable_cut = let u = usable in ground (arith, length-take k e.clients)

  count-cut : client_list_count cut ≡ k
  unfolding client_list_count cut
  count-cut = rw usable_cut (omega (arith, length-take k e.clients, count_e))

  resolve-cut :
      (n : ℕ) → n < k → resolve_client_by_slot cut (pos n) ≡ resolve_client_by_slot e (pos n)
  unfolding resolve_client_by_slot cut
  resolve-cut n h = rw (usable_cut, usable) (get_or-take e.clients k n 0 h)

  shrink-cut : (shrink_client_list_to e (pos k)).0 ≡ cut
  unfolding shrink_client_list_to cut
  shrink-cut =
      let fits : ltb k (length (usable_clients e)) ≡ true =
        rw usable (let c = count_e in ground (arith)) in
      rw fits refl

-- Shrinking the client list drops exactly the longest run of empty and leftover slots at its end:
-- every dropped slot is one, the last slot that is left is not, and the slots that are left hold
-- the clients that they held.
pub shrink_trailing-Shrinks :
    (m : IdentityManager) (e : Engine) → Shrinks m e (shrink_trailing_leftover_clients m e)
unfolding shrink_trailing_leftover_clients
shrink_trailing-Shrinks m e =
    let leftover : ℕ → Bool = λ n. client_looks_leftover_or_empty m e (pos n) in
    let count = client_list_count e in
    let keep = trim leftover count in
    let keep_le = trim_le leftover count in
    elim (Bool-cases (keep == count)) [
      | inl same ↦
          let keep_is : keep ≡ count = ground (arith) in
          rw same (record {
            shorter = omega arith;
            kept = λ n h. refl;
            dropped = λ n h le. absurd (omega arith);
            last = λ n h. trim_last leftover count n (keep_is ∙ h);
          })
      | inr apart ↦
          let fewer : keep < count = ground (arith) in
          let c = count-cut e keep fewer in
          rw (apart, shrink-cut e keep fewer)
            (record {
              shorter = omega (arith, c);
              kept = λ n h. resolve-cut e keep fewer n (omega (arith, c));
              dropped = λ n h le. trim_above leftover count n h (omega (arith, c));
              last = λ n h. trim_last leftover count n (sym c ∙ h);
            })
    ]
