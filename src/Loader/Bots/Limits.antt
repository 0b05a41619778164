-- ===== src/Loader/Bots/Limits.antt =====
-- src/bot_info.cpp, `BotInfo::LoadBots`: it returns on every text, with a list that keeps the limits
-- on count and on names, in which no identity is in use.
use cs2_bot_identity.Base.{
  ℕ, zero, suc, ◌+◌, ◌≤◌, ◌≡◌, ◌⊎◌, refl, inl, inr, minus_one, true, false, some, List, [], ◌∷◌,
  ◌++◌, Bool-cases, if_keeps, length, length-append, length-take, get_elem?, ltb, Bytes, arith,
  bytes_eq, codes,
}
use cs2_bot_identity.BotInfo.{BotIdentity, max_bot_identities, max_persona_name_bytes}
use cs2_bot_identity.BotInfo.Text.{truncate_utf8}
use cs2_bot_identity.BotInfo.Text.Cut.{truncate_utf8-IsCutBefore}
use cs2_bot_identity.IdentityManager.Initial.{IsIdleList}
use cs2_bot_identity.Json.{match_char, members, object}
use cs2_bot_identity.Json.Shrinks.{match_char-Shrinks, read_string-Shrinks, read_uint64-Shrinks}
use cs2_bot_identity.Json.Kept.{
  Ends, Ends-bind, skip_json_value-Ends, Keeps, members-Ends, object-Ends, read_block-Ends,
}
use cs2_bot_identity.Loader.Limits.{Returns, conclude-Returns}
use cs2_bot_identity.Loader.Bots.{
  BotList, fresh_identity, load_field, cut_name, add_bot, load_bot, load_bots_key, no_bots,
  load_bots,
}

-- No slot wears it.
pub record IsIdle (b : BotIdentity) : Type 0 where
  pub unworn : b.slot ≡ minus_one
  pub plain : b.applied ≡ false

-- An entry of a loaded list, which fits its place in the shared region.
pub record IsFit (b : BotIdentity) : Type 0 where
  pub idle : IsIdle b
  pub short : length b.name ≤ max_persona_name_bytes

-- Entries are dropped only when the list is full.
pub record IsLoaded (l : BotList) : Type 0 where
  pub few : length l.bots ≤ max_bot_identities
  pub fit : (i : ℕ) (b : BotIdentity) → get_elem? l.bots i ≡ some b → IsFit b
  pub full : (l.dropped ≡ 0) ⊎ (length l.bots ≡ max_bot_identities)

load_field-Keeps : (bound : ℕ) → Keeps IsIdle bound load_field
unfolding load_field
load_field-Keeps bound k b s l h =
    let number = read_uint64-Shrinks s in let text = read_string-Shrinks s in ground arith

short_cut :
    (name : Bytes) → length (truncate_utf8 name max_persona_name_bytes) ≤ max_persona_name_bytes
short_cut name = elim (truncate_utf8-IsCutBefore name max_persona_name_bytes) [
  | inl (le, e) ↦ rw e le
  | inr (lt, (kept, e, cut)) ↦ rw e (let few = cut.few in omega (arith, length-take kept name))
]

cut_name-IsFit : (b : BotIdentity) → IsIdle b → IsFit (cut_name b)
cut_name-IsFit b h = elim (Bool-cases (ltb max_persona_name_bytes (length b.name))) [
  | inl e ↦
      rw e
        (record { idle = record { unworn = h.unworn; plain = h.plain }; short = short_cut b.name })
  | inr e ↦ rw e (record { idle = h; short = ground arith })
]

IsFit-append :
    (bs : List BotIdentity) (new : BotIdentity)
    → ((i : ℕ) (b : BotIdentity) → get_elem? bs i ≡ some b → IsFit b)
    → IsFit new
    → (i : ℕ) (b : BotIdentity) → get_elem? (bs ++ new ∷ []) i ≡ some b
    → IsFit b
IsFit-append [] new h f zero b e = let same : new ≡ b = cc in rw (← same) f
IsFit-append [] new h f (suc i) b e = cc
IsFit-append (x ∷ bs) new h f zero b e = h zero b e
IsFit-append (x ∷ bs) new h f (suc i) b e = IsFit-append bs new (λ j. h (suc j)) f i b e

room : (n : ℕ) → ltb n max_bot_identities ≡ true → n + 1 ≤ max_bot_identities
room n e = ground arith

still_full :
    (n dropped : ℕ)
    → (dropped ≡ 0) ⊎ (n ≡ max_bot_identities)
    → ltb n max_bot_identities ≡ true
    → dropped ≡ 0
still_full n dropped (inl z) e = z
still_full n dropped (inr q) e = ground arith

filled :
    (n : ℕ) → n ≤ max_bot_identities → ltb n max_bot_identities ≡ false → n ≡ max_bot_identities
filled n h e = ground arith

add_bot-IsLoaded : (l : BotList) (b : BotIdentity) → IsLoaded l → IsIdle b → IsLoaded (add_bot l b)
unfolding add_bot
add_bot-IsLoaded l b h idle = elim (Bool-cases (ltb (length l.bots) max_bot_identities)) [
  | inl e ↦ rw e (record {
    few = rw (length-append l.bots (cut_name b ∷ [])) (room _ e);
    fit = IsFit-append l.bots (cut_name b) h.fit (cut_name-IsFit b idle);
    full = inl (still_full _ _ h.full e);
  })
  | inr e ↦ rw e (record { few = h.few; fit = h.fit; full = inr (filled _ h.few e) })
]

load_bot-Keeps : (fuel : ℕ) → Keeps IsLoaded fuel (load_bot fuel)
unfolding load_bot
load_bot-Keeps fuel name l s le h =
    Ends-bind IsIdle IsLoaded (length s) (length s)
      (object fuel load_field (fresh_identity name (length l.bots)) s) _
      (object-Ends IsIdle fuel load_field (fresh_identity name (length l.bots)) s
        (load_field-Keeps fuel) le (record { unworn = refl; plain = refl }))
      λ b r idle l'. (add_bot-IsLoaded l b h idle, l')

load_bots_key-Keeps : (fuel : ℕ) → Keeps IsLoaded fuel (load_bots_key fuel)
unfolding load_bots_key
load_bots_key-Keeps fuel k l s le h =
    if_keeps (Ends IsLoaded (length s)) (bytes_eq k (codes "bots")) _ _
      (read_block-Ends IsLoaded fuel (load_bot fuel) l s (load_bot-Keeps fuel) le h)
      (skip_json_value-Ends IsLoaded fuel l s le h)

no_bots-IsLoaded : IsLoaded no_bots
no_bots-IsLoaded = record { few = omega arith; fit = λ i b e. cc; full = inl refl }

-- `LoadBots` returns on every text. Where it returns `false`, the list is as it was; where it returns
-- `true`, the list has at most 256 entries, each free, not disguised and with a name of at most 31
-- bytes, and entries were dropped only if it is full.
pub load_bots-Returns :
    (json : Bytes) (l : BotList) → Returns (λ l'. l' ≡ l) IsLoaded (load_bots (some json) l)
unfolding load_bots
load_bots-Returns json l =
    let m = match_char b'{' json in
    let fuel = suc (length json) in
    let opened = match_char-Shrinks b'{' json in
    if_keeps (Returns (λ l'. l' ≡ l) IsLoaded) m.0 _ _
      (conclude-Returns (λ l'. l' ≡ l) IsLoaded (length m.1) _
        (Ends-bind IsLoaded IsLoaded (length m.1) (length m.1)
          (members fuel (load_bots_key fuel) no_bots m.1) _
          (members-Ends IsLoaded fuel fuel (load_bots_key fuel) no_bots m.1
            (load_bots_key-Keeps fuel) (omega arith) (omega arith) no_bots-IsLoaded)
          λ l' r h le. (h, omega (arith, match_char-Shrinks b'}' r))))
      refl

pub IsLoaded-IsIdleList : (l : BotList) → IsLoaded l → IsIdleList l.bots
IsLoaded-IsIdleList l h = record {
  few = h.few;
  free = λ i b at. let e = (h.fit i b at).idle.unworn in rw e refl;
  plain = λ i b at. (h.fit i b at).idle.plain;
}
