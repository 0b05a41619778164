-- ===== src/BotInfo/Pool/Unique.antt =====
-- No two live identities of src/bot_info.cpp share a persona name or a SteamID64.
use cs2_bot_identity.Base.{
  ℕ, ◌≡◌, ◌≢◌, ◌∙◌, refl, sym, subst, Bool, true, some, List, arith, get_elem?, modify,
  get_elem?-modify_self, get_elem?-modify_ne, get_elem?-modify_cases, is_nonneg, inl, inr, ℤ,
}
use cs2_bot_identity.BotInfo.{BotIdentity, take_slot, release_entry}
use cs2_bot_identity.BotInfo.Pool.{reset_for_reuse, get_free}
use cs2_bot_identity.BotInfo.Pool.Choice.{IsExclusive, Serves, fresh, recycled, get_free-Serves}

abbrev pub IsUnique : List BotIdentity → Type 0
IsUnique bots =
    (i : ℕ) (b : BotIdentity)
    → get_elem? bots i ≡ some b
    → is_nonneg b.slot ≡ true
    → IsExclusive bots i b

-- A write that keeps an entry's name and SteamID64.
pub record KeepsKeys (f : BotIdentity → BotIdentity) : Type 0 where
  pub name : (b : BotIdentity) → (f b).name ≡ b.name
  pub steam_id : (b : BotIdentity) → (f b).steam_id ≡ b.steam_id

pub take_slot-KeepsKeys : (slot : ℤ) → KeepsKeys (take_slot slot)
take_slot-KeepsKeys slot = record { name = λ b. refl; steam_id = λ b. refl }

pub release_entry-KeepsKeys : KeepsKeys release_entry
release_entry-KeepsKeys = record { name = λ b. refl; steam_id = λ b. refl }

pub reset_for_reuse-KeepsKeys : KeepsKeys reset_for_reuse
reset_for_reuse-KeepsKeys = record { name = λ b. refl; steam_id = λ b. refl }

-- What stands at the other entries is all that exclusiveness looks at.
pub modify-IsExclusive :
    (f : BotIdentity → BotIdentity)
    → KeepsKeys f
    → (bots : List BotIdentity) (i : ℕ) (b : BotIdentity) → IsExclusive bots i b
    → IsExclusive (modify f bots i) i (f b)
modify-IsExclusive f keeps bots i b alone j c at ne live =
    let old = sym (get_elem?-modify_ne f bots i j (λ e. ne (sym e))) ∙ at in
    let apart = alone j c old ne live in ground (arith, keeps.name b, keeps.steam_id b)

pub modify-IsUnique :
    (f : BotIdentity → BotIdentity)
    → KeepsKeys f
    → (bots : List BotIdentity) (i : ℕ) → IsUnique bots
    → ((b : BotIdentity)
        → get_elem? bots i ≡ some b
        → is_nonneg (f b).slot ≡ true
        → IsExclusive bots i b)
    → IsUnique (modify f bots i)
modify-IsUnique f keeps bots i u alone j c at live k d at_k ne live_d =
    elim (get_elem?-modify_cases f bots i j at) [
      | inl (j_is, (b, at_b, c_is)) ↦
          let kn : k ≢ i = λ e. ne (e ∙ sym j_is) in
          let old = sym (get_elem?-modify_ne f bots i k (λ e. kn (sym e))) ∙ at_k in
          let apart = alone b at_b (ground arith) k d old kn live_d in
          ground (arith, keeps.name b, keeps.steam_id b)
      | inr (j_ne, at_j) ↦ elim (get_elem?-modify_cases f bots i k at_k) [
        | inl (k_is, (b, at_b, d_is)) ↦
            let apart = alone b at_b (ground arith) j c at_j j_ne live in
            ground (arith, keeps.name b, keeps.steam_id b)
        | inr (k_ne, at_d) ↦ u j c at_j live k d at_d ne live_d
      ]
    ]

take_slot-IsUnique :
    (bots : List BotIdentity) (i : ℕ) (b : BotIdentity) (slot : ℤ)
    → get_elem? bots i ≡ some b
    → IsExclusive bots i b
    → IsUnique bots
    → IsUnique (modify (take_slot slot) bots i)
take_slot-IsUnique bots i b slot at alone u =
    modify-IsUnique (take_slot slot) (take_slot-KeepsKeys slot) bots i u
      λ c at_c _. let same : b ≡ c = cc in subst (IsExclusive bots i) same alone

-- If live entries differ in name and in SteamID64, they still do when the entry that `GetFree` hands
-- out goes live, whatever its slot.
pub get_free-IsUnique :
    (active : ℤ → Bool) (rand : ℕ) (bots : List BotIdentity) (i : ℕ) (after : List BotIdentity)
    (slot : ℤ)
    → get_free active rand bots ≡ (some i, after)
    → IsUnique bots
    → IsUnique (modify (take_slot slot) after i)
get_free-IsUnique active rand bots i after slot h u =
    served (get_free-Serves active rand bots i after h)
  where
    served : Serves active bots i after → IsUnique (modify (take_slot slot) after i)
    served (fresh b at free alone same) =
        subst (λ l. IsUnique (modify (take_slot slot) l i)) (sym same)
          (take_slot-IsUnique bots i b slot at alone u)
    served (recycled b at (_, alone) _ same) =
        subst (λ l. IsUnique (modify (take_slot slot) l i)) (sym same)
          (take_slot-IsUnique (modify reset_for_reuse bots i) i (reset_for_reuse b) slot
            (get_elem?-modify_self reset_for_reuse bots i at)
            (modify-IsExclusive reset_for_reuse reset_for_reuse-KeepsKeys bots i b alone)
            (modify-IsUnique reset_for_reuse reset_for_reuse-KeepsKeys bots i u (λ _ _ e. cc)))
