-- ===== src/Loader/Refusal.antt =====
-- src/bot_info.cpp: which files `BotInfo::Load` and `BotInfo::LoadBots` refuse.
use cs2_bot_identity.Base.{
  ℕ, ◌==◌, ◌≡◌, ◌≢◌, ◌↔◌, refl, inl, inr, Bool, true, false, Option, none, some, [], ◌∷◌,
  Bool-cases, Bytes, arith,
}
use cs2_bot_identity.BotInfo.Text.{is_blank}
use cs2_bot_identity.Json.{skip_whitespace, match_char, Run, out_of_fuel, done}
use cs2_bot_identity.Loader.{Config, returned, conclude, load}
use cs2_bot_identity.Loader.Bots.{BotList, load_bots}

-- The file can be opened, and its first character that is not a blank is a brace.
pub opens_object : Option Bytes → Bool
opens_object none = false
opens_object (some []) = false
opens_object (some (c ∷ s)) = elim (is_blank c) [ true ↦ opens_object (some s) | false ↦ c == b'{' ]

match_char-opens_object : (json : Bytes) → (match_char b'{' json).0 ≡ opens_object (some json)
unfolding opens_object match_char skip_whitespace
match_char-opens_object [] = refl
match_char-opens_object (c ∷ s) = elim (Bool-cases (is_blank c)) [
  | inl e ↦ rw (e, opens_object, skip_whitespace) (match_char-opens_object s)
  | inr e ↦ rw (e, opens_object, skip_whitespace) (ground arith)
]

conclude-ne {ℓ} : {S : Type ℓ} (r : Run S) (st : S) → conclude r ≢ returned false st
conclude-ne out_of_fuel st e = cc
conclude-ne (done st' s) st e = let q : true ≡ false = cc in cc

load_refuses :
    (flair_millis : Bytes → Bytes → ℕ) (file : Option Bytes) (c : Config)
    → (load flair_millis file c ≡ returned false c) ↔ (opens_object file ≡ false)
unfolding load opens_object
load_refuses flair_millis none c = ((λ e. refl), (λ e. refl))
load_refuses flair_millis (some json) c = elim (Bool-cases (match_char b'{' json).0) [
  | inl e ↦
      let opened = match_char-opens_object json in
      rw e ((λ q. absurd (conclude-ne _ c q)), (λ q. cc))
  | inr e ↦ let refused = match_char-opens_object json in rw e ((λ q. cc), (λ q. refl))
]

load_bots_refuses :
    (file : Option Bytes) (l : BotList)
    → (load_bots file l ≡ returned false l) ↔ (opens_object file ≡ false)
unfolding load_bots opens_object
load_bots_refuses none l = ((λ e. refl), (λ e. refl))
load_bots_refuses (some json) l = elim (Bool-cases (match_char b'{' json).0) [
  | inl e ↦
      let opened = match_char-opens_object json in
      rw e ((λ q. absurd (conclude-ne _ l q)), (λ q. cc))
  | inr e ↦ let refused = match_char-opens_object json in rw e ((λ q. cc), (λ q. refl))
]

-- `Load` and `LoadBots` refuse the same files, and leave their state as it was: exactly those that
-- cannot be opened or whose first character that is not a blank is not a brace.
pub loaders_refuse :
    (flair_millis : Bytes → Bytes → ℕ) (file : Option Bytes) (c : Config) (l : BotList)
    → ((load flair_millis file c ≡ returned false c) ↔ (opens_object file ≡ false))
      × ((load_bots file l ≡ returned false l) ↔ (opens_object file ≡ false))
loaders_refuse flair_millis file c l = (load_refuses flair_millis file c, load_bots_refuses file l)
