-- ===== src/Loader/Bots/Size.antt =====
-- The printed entries of a bot list are longer than the list, so the fuel of src/bot_info.cpp's loops
-- in the model is enough for them.
use cs2_bot_identity.Base.{
  ℕ, zero, suc, ◌+◌, ◌/◌, ◌%◌, ◌≤◌, ◌<◌, inl, inr, List, [], ◌∷◌, ◌++◌, Bool-cases, ltb, length,
  length-append, Bytes, arith, codes,
}
use cs2_bot_identity.Json.Print.{digits, decimal, sign, text, numeral, member}
use cs2_bot_identity.Loader.Bots.RoundTrip.{
  Entry, flair_piece, crosshair_piece, ping_piece, name_piece, print_entry, print_entries,
  print_bots,
}

length-sign : (gap : Bytes) (c : ℕ) (rest : Bytes) → length rest < length (sign gap c rest)
length-sign gap c rest = omega (arith, length-append gap (c ∷ rest))

length-text : (gap s rest : Bytes) → length rest + 2 ≤ length (text gap s rest)
length-text gap s rest =
    omega (arith, length-append gap (b'"' ∷ (s ++ (b'"' ∷ rest))), length-append s (b'"' ∷ rest))

length-member : (gap k rest : Bytes) → length rest + 3 ≤ length (member gap k rest)
length-member gap k rest =
    omega (arith, length-text gap k (sign gap b':' rest), length-sign gap b':' rest)

length-digits : (fuel n : ℕ) (rest : Bytes) → length rest ≤ length (digits fuel n rest)
unfolding digits
length-digits zero n rest = omega arith
length-digits (suc fuel) n rest = elim (Bool-cases (ltb n 10)) [
  | inl e ↦ rw e (omega arith)
  | inr e ↦ rw e (omega (arith, length-digits fuel (n / 10) ((n % 10 + 48) ∷ rest)))
]

length-numeral : (gap : Bytes) (n : ℕ) (rest : Bytes) → length rest ≤ length (numeral gap n rest)
length-numeral gap n rest =
    omega (arith, length-append gap (decimal n rest), length-digits (suc n) n rest)

length-number :
    (gap k : Bytes) (n c : ℕ) (rest : Bytes)
    → length rest ≤ length (member gap k (numeral gap n (sign gap c rest)))
length-number gap k n c rest =
    let whole = length-member gap k (numeral gap n (sign gap c rest)) in
    let value = length-numeral gap n (sign gap c rest) in
    let end_sign = length-sign gap c rest in omega arith

length-string :
    (gap k s : Bytes) (c : ℕ) (rest : Bytes)
    → length rest ≤ length (member gap k (text gap s (sign gap c rest)))
length-string gap k s c rest =
    let whole = length-member gap k (text gap s (sign gap c rest)) in
    let value = length-text gap s (sign gap c rest) in
    let end_sign = length-sign gap c rest in omega arith

length-print_entry :
    (gap : Bytes) (e : Entry) (rest : Bytes) → length rest ≤ length (print_entry gap e rest)
unfolding print_entry
length-print_entry gap e rest =
    let flair = length-number gap (codes "scoreboardFlair") e.scoreboard_flair b'}' rest in
    let crosshair =
      length-string gap (codes "crosshair") e.crosshair b',' (flair_piece gap e rest) in
    let ping = length-number gap (codes "ping") e.ping b',' (crosshair_piece gap e rest) in
    let name = length-string gap (codes "name") e.name b',' (ping_piece gap e rest) in
    let id = length-number gap (codes "steamid") e.steam_id b',' (name_piece gap e rest) in
    let opening = length-sign gap b'{' (
      member gap (codes "steamid")
        (numeral gap e.steam_id (sign gap b',' (name_piece gap e rest)))) in
    omega arith

length-print_entries :
    (gap : Bytes) (es : List Entry) (rest : Bytes) → length es ≤ length (print_entries gap es rest)
unfolding print_entries
length-print_entries gap [] rest = omega arith
length-print_entries gap (e ∷ []) rest =
    omega (arith, length-member gap e.key (print_entry gap e (sign gap b'}' rest)))
length-print_entries gap (e ∷ f ∷ es) rest =
    let others = print_entries gap (f ∷ es) rest in
    let ih = length-print_entries gap (f ∷ es) rest in
    let whole = length-member gap e.key (print_entry gap e (sign gap b',' others)) in
    let value = length-print_entry gap e (sign gap b',' others) in
    let comma_sign = length-sign gap b',' others in omega arith

pub length-print_bots : (gap : Bytes) (es : List Entry) → length es + 4 ≤ length (print_bots gap es)
unfolding print_bots
length-print_bots gap es =
    let inner = print_entries gap es (sign gap b'}' []) in
    let entries = length-print_entries gap es (sign gap b'}' []) in
    let brace = length-sign gap b'{' inner in
    let bots_key = length-member gap (codes "bots") (sign gap b'{' inner) in
    let outer = length-sign gap b'{' (member gap (codes "bots") (sign gap b'{' inner)) in
    omega arith
