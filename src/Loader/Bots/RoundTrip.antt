-- ===== src/Loader/Bots/RoundTrip.antt =====
-- src/bot_info.cpp, `BotInfo::LoadBots`, on a file in the layout of the repository's bots.json:
-- `{ "bots": { "<key>": { "steamid": …, "name": …, … }, … } }`, with one gap before every piece.
use cs2_bot_identity.Base.{
  ℕ, suc, ◌%◌, ◌^◌, ◌≤◌, ◌<◌, ◌≡◌, refl, ◌∙◌, inl, inr, pos, minus_one, true, false, List, [], ◌∷◌,
  Bool-cases, length, is_empty, Bytes, arith, codes, bytes_eq,
}
use cs2_bot_identity.BotInfo.{BotIdentity, max_persona_name_bytes}
use cs2_bot_identity.BotInfo.Text.{is_blank}
use cs2_bot_identity.Json.{
  first, skip_whitespace, match_char, is_digit, done, key, next_key, Handler, comma, members,
  object,
}
use cs2_bot_identity.Json.Print.{
  no_quote, sign, text, numeral, member, match_char-sign, match_char-other, read_uint64-numeral,
  read_string-gap-text, next_key-member,
}
use cs2_bot_identity.Loader.{to_int}
use cs2_bot_identity.Loader.Bots.{fresh_identity, load_field}

-- An entry of the file.
pub record Entry : Type 0 where
  pub key : Bytes
  pub steam_id : ℕ
  pub name : Bytes
  pub ping : ℕ
  pub crosshair : Bytes
  pub scoreboard_flair : ℕ

-- It can be written without escapes, and its values fit the fields that they are read into.
pub record IsWritable (e : Entry) : Type 0 where
  pub key_plain : no_quote e.key ≡ true
  pub key_some : is_empty e.key ≡ false
  pub steam_id_fits : e.steam_id < 2 ^ 64
  pub name_plain : no_quote e.name ≡ true
  pub name_fits : length e.name ≤ max_persona_name_bytes
  pub ping_fits : e.ping < 2 ^ 31
  pub crosshair_plain : no_quote e.crosshair ≡ true
  pub flair_fits : e.scoreboard_flair < 2 ^ 32

-- The identity that it stands for, which is free.
unfoldable pub identity_of : Entry → BotIdentity
identity_of e = record {
  slot = minus_one;
  steam_id = e.steam_id;
  name = e.name;
  ping = pos e.ping;
  crosshair = e.crosshair;
  scoreboard_flair = e.scoreboard_flair;
  applied = false;
  reused = 0;
}

module _ (gap : Bytes) where
  -- Each piece of an entry's value, from the last to the first.
  abbrev pub flair_piece : Entry → Bytes → Bytes
  flair_piece e rest =
      member gap (codes "scoreboardFlair") (numeral gap e.scoreboard_flair (sign gap b'}' rest))

  abbrev pub crosshair_piece : Entry → Bytes → Bytes
  crosshair_piece e rest =
      member gap (codes "crosshair") (text gap e.crosshair (sign gap b',' (flair_piece e rest)))

  abbrev pub ping_piece : Entry → Bytes → Bytes
  ping_piece e rest =
      member gap (codes "ping") (numeral gap e.ping (sign gap b',' (crosshair_piece e rest)))

  abbrev pub name_piece : Entry → Bytes → Bytes
  name_piece e rest =
      member gap (codes "name") (text gap e.name (sign gap b',' (ping_piece e rest)))

  unfoldable pub print_entry : Entry → Bytes → Bytes
  print_entry e rest =
      sign gap b'{'
        (member gap (codes "steamid") (numeral gap e.steam_id (sign gap b',' (name_piece e rest))))

  -- The entries with commas between them, and the brace behind them.
  unfoldable pub print_entries : List Entry → Bytes → Bytes
  print_entries [] rest = sign gap b'}' rest
  print_entries (e ∷ []) rest = member gap e.key (print_entry e (sign gap b'}' rest))
  print_entries (e ∷ f ∷ es) rest =
      member gap e.key (print_entry e (sign gap b',' (print_entries (f ∷ es) rest)))

  unfoldable pub print_bots : List Entry → Bytes
  print_bots es =
      sign gap b'{'
        (member gap (codes "bots") (sign gap b'{' (print_entries es (sign gap b'}' []))))

-- A numeral ends where the gap or the character behind it begins.
gap-digit :
    (gap : Bytes)
    → skip_whitespace gap ≡ []
    → (c : ℕ) (rest : Bytes) → is_digit c ≡ false
    → is_digit (first (sign gap c rest)) ≡ false
unfolding skip_whitespace
gap-digit [] blank c rest e = e
gap-digit (x ∷ gap) blank c rest e = elim (Bool-cases (is_blank x)) [
  | inl b ↦ ground arith
  | inr b ↦ let never : x ∷ gap ≡ [] = rw (b, skip_whitespace) at blank in cc
]

module _ {ℓ} {S : Type ℓ} where
  pub members-next :
      (fuel : ℕ) (h : Handler S) (st st' : S) (s k r r' r'' : Bytes)
      → next_key s ≡ key k r
      → h k st r ≡ done st' r'
      → match_char b',' r' ≡ (true, r'')
      → members (suc fuel) h st s ≡ members fuel h st' r''
  unfolding members comma
  members-next fuel h st st' s k r r' r'' e v c = rw (e, members) (rw v (rw c refl))

  pub members-last :
      (fuel : ℕ) (h : Handler S) (st st' : S) (s k r r' r'' : Bytes)
      → next_key s ≡ key k r
      → h k st r ≡ done st' r'
      → match_char b',' r' ≡ (false, r'')
      → members (suc fuel) h st s ≡ done st' r''
  unfolding members comma
  members-last fuel h st st' s k r r' r'' e v c = rw (e, members) (rw v (rw c refl))

module _ (gap : Bytes) (blank : skip_whitespace gap ≡ []) where
  load_field-number :
      (b : BotIdentity) (n : ℕ) (c : ℕ) (rest : Bytes)
      → is_digit c ≡ false
      → (load_field (codes "steamid") b (numeral gap n (sign gap c rest))
          ≡ done (record b { steam_id = n % 2 ^ 64 }) (sign gap c rest))
        × (load_field (codes "ping") b (numeral gap n (sign gap c rest))
            ≡ done (record b { ping = to_int (n % 2 ^ 64) }) (sign gap c rest))
        × (load_field (codes "scoreboardFlair") b (numeral gap n (sign gap c rest))
            ≡ done (record b { scoreboard_flair = n % 2 ^ 64 % 2 ^ 32 }) (sign gap c rest))
  unfolding load_field bytes_eq
  load_field-number b n c rest e =
      let number =
        read_uint64-numeral gap blank n (sign gap c rest) (gap-digit gap blank c rest e) in
      (rw number refl, rw number refl, rw number refl)

  load_field-text :
      (b : BotIdentity) (s rest : Bytes)
      → no_quote s ≡ true
      → (load_field (codes "name") b (text gap s rest) ≡ done (record b { name = s }) rest)
        × (load_field (codes "crosshair") b (text gap s rest)
            ≡ done (record b { crosshair = s }) rest)
  unfolding load_field bytes_eq
  load_field-text b s rest e =
      let read = read_string-gap-text gap blank s rest e in (rw read refl, rw read refl)

  brace_end : (rest : Bytes) → match_char b'}' (b'}' ∷ rest) ≡ (true, rest)
  unfolding match_char skip_whitespace
  brace_end rest = refl

  pub object-members {ℓ} :
      {S : Type ℓ} (fuel : ℕ) (h : Handler S) (st st' : S) (inner rest : Bytes)
      → members fuel h st inner ≡ done st' (b'}' ∷ rest)
      → object fuel h st (sign gap b'{' inner) ≡ done st' rest
  unfolding object
  object-members fuel h st st' inner rest e =
      rw (match_char-sign gap blank b'{' inner refl) (rw e (rw (brace_end rest) refl))

  -- One field of an entry that another follows.
  field_next :
      (fuel : ℕ) (b b' : BotIdentity) (k value rest : Bytes)
      → no_quote k ≡ true
      → is_empty k ≡ false
      → load_field k b value ≡ done b' (sign gap b',' rest)
      → members (suc fuel) load_field b (member gap k value) ≡ members fuel load_field b' rest
  field_next fuel b b' k value rest plain some_key v =
      members-next fuel load_field b b' _ k value _ rest
        (next_key-member gap blank k value plain some_key) v
        (match_char-sign gap blank b',' rest refl)

  -- The last field, and the brace behind it.
  field_last :
      (fuel : ℕ) (b b' : BotIdentity) (k value rest : Bytes)
      → no_quote k ≡ true
      → is_empty k ≡ false
      → load_field k b value ≡ done b' (sign gap b'}' rest)
      → members (suc fuel) load_field b (member gap k value) ≡ done b' (b'}' ∷ rest)
  field_last fuel b b' k value rest plain some_key v =
      members-last fuel load_field b b' _ k value _ (b'}' ∷ rest)
        (next_key-member gap blank k value plain some_key) v
        (match_char-other gap blank b',' b'}' rest refl refl)

  -- The object of an entry is read as its identity, whatever name and SteamID64 it starts from.
  pub object-print_entry :
      (fuel : ℕ) (name : Bytes) (count : ℕ) (e : Entry) (rest : Bytes)
      → IsWritable e
      → object
          (suc (suc (suc (suc (suc fuel)))))
          load_field
          (fresh_identity name count)
          (print_entry gap e rest)
        ≡ done (identity_of e) rest
  unfolding print_entry identity_of no_quote
  object-print_entry fuel name count e rest w =
      let start = fresh_identity name count in
      let owned = record start { steam_id = e.steam_id % 2 ^ 64 } in
      let named = record owned { name = e.name } in
      let pinged = record named { ping = to_int (e.ping % 2 ^ 64) } in
      let aimed = record pinged { crosshair = e.crosshair } in
      let worn = record aimed { scoreboard_flair = e.scoreboard_flair % 2 ^ 64 % 2 ^ 32 } in
      let id = (load_field-number start e.steam_id b',' (name_piece gap e rest) refl).0 in
      let called =
        (load_field-text owned e.name (sign gap b',' (ping_piece gap e rest)) w.name_plain).0 in
      let ping = (load_field-number named e.ping b',' (crosshair_piece gap e rest) refl).1 in
      let cross =
        (load_field-text pinged e.crosshair (sign gap b',' (flair_piece gap e rest))
          w.crosshair_plain).1 in
      let flair = (load_field-number aimed e.scoreboard_flair b'}' rest refl).2 in
      let read =
        field_next (suc (suc (suc (suc fuel)))) start owned (codes "steamid") _
          (name_piece gap e rest) refl refl id
        ∙ field_next (suc (suc (suc fuel))) owned named (codes "name") _ (ping_piece gap e rest)
            refl refl called
        ∙ field_next (suc (suc fuel)) named pinged (codes "ping") _ (crosshair_piece gap e rest)
            refl refl ping
        ∙ field_next (suc fuel) pinged aimed (codes "crosshair") _ (flair_piece gap e rest) refl
            refl cross
        ∙ field_last fuel aimed worn (codes "scoreboardFlair") _ rest refl refl flair in
      let whole =
        object-members (suc (suc (suc (suc (suc fuel))))) load_field start worn _ rest read in
      let id_same : e.steam_id % 2 ^ 64 ≡ e.steam_id = omega arith in
      let ping_same : to_int (e.ping % 2 ^ 64) ≡ pos e.ping = ground arith in
      let flair_same : e.scoreboard_flair % 2 ^ 64 % 2 ^ 32 ≡ e.scoreboard_flair = omega arith in
      whole ∙ rw (id_same, ping_same, flair_same) refl
