-- ===== src/BotInfo/Pool/Choice.antt =====
-- What `BotInfo::GetFree` of src/bot_info.cpp hands out, and when it refuses.
use cs2_bot_identity.Base.{
  ℕ, ◌<◌, ◌%◌, ◌≡◌, ◌≢◌, ◌↔◌, refl, ap, Bool, true, false, none, some, List, arith, Bool-cases,
  Option-cases, get_elem?, modify, ◌==◌, bytes_eq_iff, is_nonneg, ltb, inl, inr, ℤ, &&_true, subst,
  ◌∙◌, ltb→lt,
}
use native.Mathlib.Nat.{mod-lt}
use cs2_bot_identity.BotInfo.{BotIdentity}
use cs2_bot_identity.BotInfo.Pool.{
  any_other, is_name_in_use, is_steam_id_in_use, is_assignable, is_free, is_stale, slot_is_stale,
  count_from, pick_from, count_free, reclaim, get_free, reset_for_reuse, holds_name, holds_steam_id,
}
use cs2_bot_identity.BotInfo.Pool.Scan.{
  any_other-false, any_other-true, pick_from-some, pick_from-none, count_from-zero,
}

-- No live entry but `i` itself has the name, or the non-zero SteamID64, of `b`.
abbrev pub IsExclusive : List BotIdentity → ℕ → BotIdentity → Type 0
IsExclusive bots i b =
    (j : ℕ) (c : BotIdentity)
    → get_elem? bots j ≡ some c
    → j ≢ i
    → is_nonneg c.slot ≡ true
    → (c.name ≢ b.name) × (c.steam_id ≡ b.steam_id → b.steam_id ≡ 0)

pub is_assignable-IsExclusive :
    (bots : List BotIdentity) (i : ℕ) (b : BotIdentity)
    → is_assignable bots i b ≡ true
    → IsExclusive bots i b
unfolding is_assignable is_name_in_use is_steam_id_in_use
is_assignable-IsExclusive bots i b h j c at ne live = (
  (λ same.
      let clash =
        any_other-false (holds_name b.name) i 0 bots j c (ground arith) at
          (λ q. ne (omega arith)) in
      ground (arith, bytes_eq_iff c.name b.name)),
  (λ same. elim (Bool-cases (b.steam_id == 0)) [
    | inl e ↦ ground arith
    | inr e ↦
        let clash =
          any_other-false (holds_steam_id b.steam_id) i 0 bots j c (ground arith) at
            (λ q. ne (omega arith)) in
        ground arith
  ]),
)

pub not_assignable-IsExclusive :
    (bots : List BotIdentity) (i : ℕ) (b : BotIdentity)
    → is_assignable bots i b ≡ false
    → ¬ IsExclusive bots i b
unfolding is_assignable is_name_in_use is_steam_id_in_use
not_assignable-IsExclusive bots i b h all =
    elim (Bool-cases (any_other (holds_name b.name) i 0 bots)) [
      | inl used ↦
          let (j, c, at, ne, held) = any_other-true (holds_name b.name) i 0 bots used in
          let apart = all j c at (λ q. ne (omega arith)) (ground arith) in
          apart.0 ((bytes_eq_iff c.name b.name).0 (ground arith))
      | inr unused ↦
          let (j, c, at, ne, held) =
            any_other-true (holds_steam_id b.steam_id) i 0 bots (ground arith) in
          let apart = all j c at (λ q. ne (omega arith)) (ground arith) in
          let no_id : b.steam_id ≡ 0 = apart.1 (ground arith) in ground arith
    ]

-- The entry may be taken: its slot number names no live slot of the server.
abbrev pub IsClaimable : (ℤ → Bool) → List BotIdentity → ℕ → BotIdentity → Type 0
IsClaimable active bots i b = (slot_is_stale active b.slot ≡ true) × IsExclusive bots i b

-- How `GetFree` serves entry `i`: a free entry as it is, or, when no entry is free, one whose slot
-- is no longer active, reset.
pub data Serves (active : ℤ → Bool) (bots : List BotIdentity) (i : ℕ) (after : List BotIdentity)
    : Type 0 where
  fresh :
      (b : BotIdentity)
      → get_elem? bots i ≡ some b
      → is_nonneg b.slot ≡ false
      → IsExclusive bots i b
      → after ≡ bots
      → Serves active bots i after
  recycled :
      (b : BotIdentity)
      → get_elem? bots i ≡ some b
      → IsClaimable active bots i b
      → ((j : ℕ) (c : BotIdentity)
          → get_elem? bots j ≡ some c
          → is_nonneg c.slot ≡ false
          → ¬ IsExclusive bots j c)
      → after ≡ modify reset_for_reuse bots i
      → Serves active bots i after

none_free :
    (bots : List BotIdentity)
    → count_free bots ≡ 0
    → (j : ℕ) (c : BotIdentity) → get_elem? bots j ≡ some c
    → is_nonneg c.slot ≡ false
    → ¬ IsExclusive bots j c
unfolding count_free is_free
none_free bots h j c at free =
    not_assignable-IsExclusive bots j c
      (let t = count_from-zero (is_free bots) 0 bots j j c h at (omega arith) in ground arith)

reclaim-Serves :
    (active : ℤ → Bool) (bots : List BotIdentity) (i : ℕ) (after : List BotIdentity)
    → count_free bots ≡ 0
    → reclaim active bots ≡ (some i, after)
    → Serves active bots i after
unfolding reclaim is_stale
reclaim-Serves active bots i after empty h =
    elim (Option-cases (pick_from (is_stale active bots) 0 0 bots)) [
      | inl e ↦ absurd (ground arith)
      | inr (k, e) ↦
          let f = pick_from-some (is_stale active bots) 0 0 bots k e in
          let k_is_i : k ≡ i = ground arith in
          let same : f.offset ≡ i = omega (arith, f.place) in
          let at : get_elem? bots i ≡ some f.entry =
            subst (λ o. get_elem? bots o ≡ some f.entry) same f.at in
          let passes : is_stale active bots i f.entry ≡ true =
            subst (λ o. is_stale active bots o f.entry ≡ true) k_is_i f.passes in
          let both =
            &&_true (slot_is_stale active f.entry.slot) (is_assignable bots i f.entry) passes in
          recycled f.entry at (both.0, is_assignable-IsExclusive bots i f.entry both.1)
            (none_free bots empty) (ground arith)
    ]

is_free_parts :
    (bots : List BotIdentity) (i : ℕ) (b : BotIdentity)
    → is_free bots i b ≡ true
    → (is_nonneg b.slot ≡ false) × (is_assignable bots i b ≡ true)
unfolding is_free
is_free_parts bots i b h = ground arith

-- The pick runs to its end in the second loop: it is below the count of the first.
pick_succeeds :
    (rand : ℕ) (bots : List BotIdentity)
    → 0 < count_free bots
    → pick_from (is_free bots) (rand % count_free bots) 0 bots ≢ none
unfolding count_free
pick_succeeds rand bots h e =
    let short = pick_from-none (is_free bots) (rand % count_from (is_free bots) 0 bots) 0 bots e in
    absurd (omega (arith, mod-lt rand h))

pick-Serves :
    (active : ℤ → Bool) (pick : ℕ) (bots : List BotIdentity) (i : ℕ)
    → pick_from (is_free bots) pick 0 bots ≡ some i
    → Serves active bots i bots
pick-Serves active pick bots i e =
    let f = pick_from-some (is_free bots) pick 0 bots i e in
    let same : f.offset ≡ i = omega (arith, f.place) in
    let at : get_elem? bots i ≡ some f.entry =
      subst (λ o. get_elem? bots o ≡ some f.entry) same f.at in
    let both = is_free_parts bots i f.entry f.passes in
    fresh f.entry at both.0 (is_assignable-IsExclusive bots i f.entry both.1) refl

-- An entry that `GetFree` hands out shares its name and its SteamID64 with no live entry, is free
-- or stale, and is stale only where no free entry could be handed out; the others stay as they were.
pub get_free-Serves :
    (active : ℤ → Bool) (rand : ℕ) (bots : List BotIdentity) (i : ℕ) (after : List BotIdentity)
    → get_free active rand bots ≡ (some i, after)
    → Serves active bots i after
unfolding get_free
get_free-Serves active rand bots i after h = elim (Bool-cases (ltb 0 (count_free bots))) [
  | inr full ↦ reclaim-Serves active bots i after (ground arith) (rw full at h)
  | inl some_free ↦ elim (Option-cases (pick_from (is_free bots) (rand % count_free bots) 0 bots)) [
    | inl e ↦ absurd (pick_succeeds rand bots (ltb→lt _ _ some_free) e)
    | inr (k, e) ↦
        let k_is_i : k ≡ i = ground arith in
        let same : bots ≡ after = ground arith in
        subst (Serves active bots i) same
          (pick-Serves active (rand % count_free bots) bots i (e ∙ ap some k_is_i))
  ]
]

stale_rejected :
    (active : ℤ → Bool) (bots : List BotIdentity) (i : ℕ) (b : BotIdentity)
    → slot_is_stale active b.slot ≡ true
    → is_stale active bots i b ≡ false
    → is_assignable bots i b ≡ false
unfolding is_stale
stale_rejected active bots i b stale h = ground arith

refused :
    (active : ℤ → Bool) (rand : ℕ) (bots : List BotIdentity)
    → (get_free active rand bots).0 ≡ none
    → (i : ℕ) (b : BotIdentity) → get_elem? bots i ≡ some b
    → ¬ IsClaimable active bots i b
unfolding get_free reclaim
refused active rand bots h i b at (stale, alone) = elim (Bool-cases (ltb 0 (count_free bots))) [
  | inl some_free ↦ pick_succeeds rand bots (ltb→lt _ _ some_free) (ground arith)
  | inr full ↦
      let e : pick_from (is_stale active bots) 0 0 bots ≡ none = ground arith in
      let short = pick_from-none (is_stale active bots) 0 0 bots e in
      let fails =
        count_from-zero (is_stale active bots) 0 bots i i b (omega arith) at (omega arith) in
      not_assignable-IsExclusive bots i b (stale_rejected active bots i b stale fails) alone
]

refuses :
    (active : ℤ → Bool) (rand : ℕ) (bots : List BotIdentity)
    → ((i : ℕ) (b : BotIdentity) → get_elem? bots i ≡ some b → ¬ IsClaimable active bots i b)
    → (get_free active rand bots).0 ≡ none
refuses active rand bots none_claimable = elim (Option-cases (get_free active rand bots).0) [
  | inl e ↦ e
  | inr (i, e) ↦
      absurd (claimed (get_free-Serves active rand bots i (get_free active rand bots).1 (pair e)))
]
  where
    pair :
        {i : ℕ}
        → (get_free active rand bots).0 ≡ some i
        → get_free active rand bots ≡ (some i, (get_free active rand bots).1)
    pair e = ground arith

    claimed : {i : ℕ} {after : List BotIdentity} → Serves active bots i after → ⊥
    claimed (fresh b at free alone _) = none_claimable _ b at (ground arith, alone)
    claimed (recycled b at stale _ _) = none_claimable _ b at stale

-- `GetFree` refuses exactly when no entry is claimable, that is when each of them is held by an
-- active slot or shares its name or SteamID64 with another live entry.
pub get_free-none :
    (active : ℤ → Bool) (rand : ℕ) (bots : List BotIdentity)
    → ((get_free active rand bots).0 ≡ none)
      ↔ ((i : ℕ) (b : BotIdentity) → get_elem? bots i ≡ some b → ¬ IsClaimable active bots i b)
get_free-none active rand bots = (refused active rand bots, refuses active rand bots)
