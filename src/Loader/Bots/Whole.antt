-- ===== src/Loader/Bots/Whole.antt =====
-- src/bot_info.cpp, `BotInfo::LoadBots`, on a whole file that was written from entries.
use cs2_bot_identity.Base.{
  ℕ, zero, suc, ◌+◌, ◌-◌, ◌≤◌, ◌<◌, ◌==◌, ◌≡◌, refl, ◌∙◌, subst, inl, inr, Bool, true, false, ◌||◌,
  some, List, [], ◌∷◌, ◌++◌, map, Bool-cases, ltb, length, length-append, Bytes, bytes_eq, arith,
  codes,
}
use mathlib.Core.List.{append-nil, append_assoc}
use cs2_bot_identity.BotInfo.{max_bot_identities, max_persona_name_bytes}
use cs2_bot_identity.BotInfo.Text.{is_blank}
use cs2_bot_identity.Json.{
  skip_whitespace, match_char, done, bind, Handler, members, skip_scalar, skip_rest, read_block,
}
use cs2_bot_identity.Json.Print.{
  no_quote, sign, member, match_char-sign, match_char-other, next_key-member, next_key-end,
}
use cs2_bot_identity.Loader.{returned}
use cs2_bot_identity.Loader.Bots.{BotList, add_bot, load_bot, load_bots_key, no_bots, load_bots}
use cs2_bot_identity.Loader.Bots.Size.{length-print_bots}
use cs2_bot_identity.Loader.Bots.RoundTrip.{
  Entry, IsWritable, identity_of, print_entry, print_entries, print_bots, members-next,
  members-last, object-members, object-print_entry,
}

pub data AreWritable : List Entry → Type 0 where
  none_left : AreWritable []
  and_more : {e : Entry} {es : List Entry} → IsWritable e → AreWritable es → AreWritable (e ∷ es)

-- The list with the identities of more entries at its end.
abbrev pub extend : BotList → List Entry → BotList
extend l es = record l { bots = l.bots ++ map identity_of es }

add_bot-identity_of :
    (l : BotList) (e : Entry)
    → IsWritable e
    → length l.bots < max_bot_identities
    → add_bot l (identity_of e) ≡ extend l (e ∷ [])
unfolding add_bot identity_of
add_bot-identity_of l e w room =
    let short = w.name_fits in
    let open_list : ltb (length l.bots) max_bot_identities ≡ true = ground arith in
    let whole : ltb max_persona_name_bytes (length e.name) ≡ false = ground arith in
    let uncut : l.truncated + 0 ≡ l.truncated = omega arith in rw (open_list, whole, uncut) refl

-- A separator, which the skipping loops stop at.
abbrev separates : ℕ → Bool
separates c = (c == b',') || (c == b'}')

module _ (gap : Bytes) (blank : skip_whitespace gap ≡ []) where
  skip_scalar-sign :
      (g : Bytes)
      → skip_whitespace g ≡ []
      → (c : ℕ) (rest : Bytes) → separates c ≡ true
      → skip_scalar (sign g c rest) ≡ c ∷ rest
  unfolding skip_scalar skip_whitespace
  skip_scalar-sign [] b c rest e = rw e refl
  skip_scalar-sign (x ∷ g) b c rest e = elim (Bool-cases (is_blank x)) [
    | inl s ↦
        let onward : separates x ≡ false = ground arith in
        let b' : skip_whitespace g ≡ [] = rw (s, skip_whitespace) at b in
        rw onward (skip_scalar-sign g b' c rest e)
    | inr s ↦ let never : x ∷ g ≡ [] = rw (s, skip_whitespace) at b in cc
  ]

  skip_rest-sign :
      (g : Bytes)
      → skip_whitespace g ≡ []
      → (c : ℕ) (rest : Bytes) → separates c ≡ true
      → skip_rest (sign g c rest) ≡ c ∷ rest
  unfolding skip_rest skip_whitespace
  skip_rest-sign [] b c rest e = ground (arith, skip_scalar-sign [] b c rest e)
  skip_rest-sign (x ∷ g) b c rest e = elim (Bool-cases (is_blank x)) [
    | inl s ↦ ground (arith, skip_scalar-sign (x ∷ g) b c rest e)
    | inr s ↦ let never : x ∷ g ≡ [] = rw (s, skip_whitespace) at b in cc
  ]

  -- What `ReadBlock` does with an entry.
  abbrev on_entry : ℕ → Handler BotList
  on_entry fuel k l s = bind (load_bot fuel k l s) (λ l' r. done l' (skip_rest r))

  on_entry-print_entry :
      (fuel : ℕ) (k : Bytes) (l : BotList) (e : Entry) (c : ℕ) (rest : Bytes)
      → IsWritable e
      → length l.bots < max_bot_identities
      → separates c ≡ true
      → on_entry (suc (suc (suc (suc (suc fuel))))) k l (print_entry gap e (sign gap c rest))
        ≡ done (extend l (e ∷ [])) (c ∷ rest)
  unfolding load_bot
  on_entry-print_entry fuel k l e c rest w room s =
      rw (object-print_entry gap blank fuel k (length l.bots) e (sign gap c rest) w)
        (rw (add_bot-identity_of l e w room, skip_rest-sign gap blank c rest s) refl)

  comma_found : (rest : Bytes) → match_char b',' (b',' ∷ rest) ≡ (true, rest)
  unfolding match_char skip_whitespace
  comma_found rest = refl

  comma_missed : (rest : Bytes) → match_char b',' (b'}' ∷ rest) ≡ (false, b'}' ∷ rest)
  unfolding match_char skip_whitespace
  comma_missed rest = refl

  members-print_entries :
      (inner fuel : ℕ) (es : List Entry) (l : BotList) (rest : Bytes)
      → AreWritable es
      → length es < fuel
      → length l.bots + length es ≤ max_bot_identities
      → members fuel (on_entry (suc (suc (suc (suc (suc inner)))))) l (print_entries gap es rest)
        ≡ done (extend l es) (b'}' ∷ rest)
  unfolding print_entries members
  members-print_entries inner zero es l rest w f room = absurd (omega arith)
  members-print_entries inner (suc fuel) [] l rest w f room =
      rw (next_key-end gap blank rest, members) (rw append-nil refl)
  members-print_entries inner (suc fuel) (e ∷ []) l rest (and_more w ws) f room =
      members-last fuel (on_entry (suc (suc (suc (suc (suc inner)))))) l (extend l (e ∷ [])) _ e.key
        _ _ (b'}' ∷ rest) (next_key-member gap blank e.key _ w.key_plain w.key_some)
        (on_entry-print_entry inner e.key l e b'}' rest w (omega arith) refl) (comma_missed rest)
  members-print_entries inner (suc fuel) (e ∷ f ∷ es) l rest (and_more w ws) left room =
      let others = print_entries gap (f ∷ es) rest in
      let added = length-append l.bots (identity_of e ∷ []) in
      members-next fuel (on_entry (suc (suc (suc (suc (suc inner)))))) l (extend l (e ∷ [])) _ e.key
        _ _ others (next_key-member gap blank e.key _ w.key_plain w.key_some)
        (on_entry-print_entry inner e.key l e b',' others w (omega arith) refl) (comma_found others)
      ∙ members-print_entries inner fuel (f ∷ es) (extend l (e ∷ [])) rest ws (omega arith)
          (omega arith)
      ∙ rw append_assoc refl

  load_bots-print_fuel :
      (inner : ℕ) (es : List Entry)
      → AreWritable es
      → length es ≤ inner
      → length es ≤ max_bot_identities
      → (let fuel = suc (suc (suc (suc (suc inner)))) in
          members fuel
            (load_bots_key fuel)
            no_bots
            (member gap (codes "bots") (sign gap b'{' (print_entries gap es (sign gap b'}' []))))
          ≡ done (extend no_bots es) (b'}' ∷ []))
  unfolding load_bots_key bytes_eq read_block no_quote
  load_bots-print_fuel inner es w few room =
      let fuel = suc (suc (suc (suc (suc inner)))) in
      members-last (suc (suc (suc (suc inner)))) (load_bots_key fuel) no_bots (extend no_bots es) _
        (codes "bots") _ (sign gap b'}' []) (b'}' ∷ [])
        (next_key-member gap blank (codes "bots") _ refl refl)
        (object-members gap blank fuel (on_entry fuel) no_bots (extend no_bots es) _
          (sign gap b'}' [])
          (members-print_entries inner fuel es no_bots (sign gap b'}' []) w (omega arith)
            (omega arith)))
        (match_char-other gap blank b',' b'}' [] refl refl)

  -- A file that was written from at most 256 entries, with any white space before its pieces, is
  -- loaded as exactly their identities, in order, with none dropped and no name cut. The keys are not
  -- empty; texts have no quote and numbers fit their fields; names have at most 31 bytes.
  pub load_bots-print_bots :
      (es : List Entry) (l : BotList)
      → AreWritable es
      → length es ≤ max_bot_identities
      → load_bots (some (print_bots gap es)) l
        ≡ returned true (record { bots = map identity_of es; dropped = 0; truncated = 0 })
  unfolding load_bots print_bots
  load_bots-print_bots es l w few =
      let json = print_bots gap es in
      let inner = length json - 4 in
      let size = length-print_bots gap es in
      let fuel_is : suc (suc (suc (suc (suc inner)))) ≡ suc (length json) = omega arith in
      let body = load_bots-print_fuel inner es w (omega arith) few in
      let body' =
        subst
          (λ fuel.
            members fuel (load_bots_key fuel) no_bots
              (member gap (codes "bots") (sign gap b'{' (print_entries gap es (sign gap b'}' []))))
            ≡ done (extend no_bots es) (b'}' ∷ []))
          fuel_is body in
      rw
        (match_char-sign gap blank b'{'
          (member gap (codes "bots") (sign gap b'{' (print_entries gap es (sign gap b'}' []))))
          refl)
        (rw body' refl)
