-- ===== src/SigScan/Parse.antt =====
-- src/entity_access.cpp, `ParseSigString`: it ends on every text, with a flag for each byte.
use cs2_bot_identity.Base.{
  ℕ, zero, suc, ◌+◌, ◌*◌, ◌≤◌, ◌<◌, ◌==◌, ◌≡◌, ◌≢◌, refl, inl, inr, Bool, true, false, ◌||◌, none,
  some, List, [], ◌∷◌, Bool-cases, Option-cases, if◌then◌else◌, if_keeps, length, drop, Bytes,
  arith,
}
use cs2_bot_identity.Json.{first}
use cs2_bot_identity.Json.Shrinks.{length-drop1}
use cs2_bot_identity.SigScan.{
  hex_value, Number, hex_digits, skip_space, skip_prefix, negate_if, strtoul16, Signature, no_fuel,
  refused, parsed, push, is_byte, skip_second, parse_loop, some_bytes, parse_sig_string,
}

-- A number that was read left fewer than `n` bytes.
abbrev LeavesBelow : ℕ → Number → Type 0
LeavesBelow n none = Unit {0}
LeavesBelow n (some (v, rest)) = length rest < n

hex_digits-LeavesBelow :
    (n : ℕ) (s : Bytes) (read : Number)
    → LeavesBelow n read
    → length s ≤ n
    → LeavesBelow n (hex_digits read s)
unfolding hex_digits
hex_digits-LeavesBelow n [] read b l = b
hex_digits-LeavesBelow n (c ∷ s) read b l = elim (Option-cases (hex_value c)) [
  | inl e ↦ rw (e, hex_digits) b
  | inr (d, e) ↦
      let read' : Number = some (elim read [ none ↦ d | some (v, r) ↦ v * 16 + d ], s) in
      rw (e, hex_digits) (hex_digits-LeavesBelow n s read' (omega arith) (omega arith))
]

skip_space-Shrinks : (s : Bytes) → length (skip_space s) ≤ length s
unfolding skip_space
skip_space-Shrinks [] = omega arith
skip_space-Shrinks (c ∷ s) = ground (arith, skip_space-Shrinks s)

length-drop2 : (s : Bytes) → length (drop 2 s) ≤ length s
length-drop2 [] = omega arith
length-drop2 (c ∷ []) = omega arith
length-drop2 (c ∷ d ∷ s) = omega arith

skip_prefix-Shrinks : (s : Bytes) → length (skip_prefix s) ≤ length s
skip_prefix-Shrinks s =
    if_keeps (λ r. length r ≤ length s) _ (drop 2 s) s (length-drop2 s) (omega arith)

negate-LeavesBelow :
    (n : ℕ) (minus : Bool) (r : Number) → LeavesBelow n r → LeavesBelow n (negate_if minus r)
negate-LeavesBelow n false r b = b
negate-LeavesBelow n true none b = b
negate-LeavesBelow n true (some (v, rest)) b = b

-- `strtoul` passes at least one character where it reads a number.
strtoul16-LeavesBelow : (s : Bytes) → LeavesBelow (length s) (strtoul16 s)
unfolding strtoul16
strtoul16-LeavesBelow s =
    let body = skip_space s in
    let minus = first body == b'-' in
    let number = if minus || (first body == b'+') then drop 1 body else body in
    let space = skip_space-Shrinks s in
    let dropped : length number ≤ length body =
      if_keeps (λ r. length r ≤ length body) (minus || (first body == b'+')) (drop 1 body) body
        (length-drop1 body) (omega arith) in
    let prefix = skip_prefix-Shrinks number in
    negate-LeavesBelow (length s) minus _
      (hex_digits-LeavesBelow (length s) (skip_prefix number) none tt (omega arith))

pub data AreBytes : Bytes → Type 0 where
  no_bytes : AreBytes []
  one_byte : {v : ℕ} {vs : Bytes} → v < 256 → AreBytes vs → AreBytes (v ∷ vs)

-- The loop did not run out of fuel, and a pattern has bytes only, with a flag for each.
abbrev pub IsAligned : Signature → Type 0
IsAligned no_fuel = ⊥
IsAligned refused = Unit {0}
IsAligned (parsed pattern wilds) = (length pattern ≡ length wilds) × AreBytes pattern

push-IsAligned :
    (v : ℕ) (wild : Bool) (r : Signature) → v < 256 → IsAligned r → IsAligned (push v wild r)
push-IsAligned v wild no_fuel b h = absurd h
push-IsAligned v wild refused b h = tt
push-IsAligned v wild (parsed pattern wilds) b (same, bytes) = (omega arith, one_byte b bytes)

skip_second-Shrinks : (s : Bytes) → length (skip_second s) ≤ length s
skip_second-Shrinks s =
    if_keeps (λ r. length r ≤ length s) (first s == b'?') (drop 1 s) s (length-drop1 s)
      (omega arith)

number-IsAligned :
    (fuel c : ℕ) (s : Bytes) (n : Number)
    → LeavesBelow (length (c ∷ s)) n
    → ((rest : Bytes) → length rest < length (c ∷ s) → IsAligned (parse_loop fuel rest))
    → IsAligned (elim n [
      | none ↦ refused
      | some (v, rest) ↦
          let more = push v false (parse_loop fuel rest) in
          if is_byte (c ∷ s) v rest then more else refused
    ])
number-IsAligned fuel c s none b ih = tt
number-IsAligned fuel c s (some (v, rest)) b ih = elim (Bool-cases (is_byte (c ∷ s) v rest)) [
  | inl e ↦ rw e (push-IsAligned v false (parse_loop fuel rest) (ground arith) (ih rest b))
  | inr e ↦ rw e tt
]

parse_loop-IsAligned : (fuel : ℕ) (p : Bytes) → length p < fuel → IsAligned (parse_loop fuel p)
unfolding parse_loop
parse_loop-IsAligned zero p f = absurd (omega arith)
parse_loop-IsAligned (suc fuel) [] f = (refl, no_bytes)
parse_loop-IsAligned (suc fuel) (c ∷ s) f =
    let second = skip_second-Shrinks s in
    let blank = parse_loop-IsAligned fuel s (omega arith) in
    let wild =
      push-IsAligned 0 true (parse_loop fuel (skip_second s)) (omega arith)
        (parse_loop-IsAligned fuel (skip_second s) (omega arith)) in
    let number =
      number-IsAligned fuel c s (strtoul16 (c ∷ s)) (strtoul16-LeavesBelow (c ∷ s))
        λ rest l. parse_loop-IsAligned fuel rest (omega arith) in
    if_keeps IsAligned (c == 0) _ _ (refl, no_bytes)
      (if_keeps IsAligned (c == 32) _ _ blank (if_keeps IsAligned (c == b'?') _ _ wild number))

-- `ParseSigString` ends on every text. A pattern that it returns is not empty, and it has bytes only,
-- each with its wildcard flag.
pub parse_sig_string-IsAligned :
    (sig : Bytes)
    → IsAligned (parse_sig_string sig)
      × ((wilds : List Bool) → parse_sig_string sig ≢ parsed [] wilds)
unfolding parse_sig_string
parse_sig_string-IsAligned sig =
    kept (parse_loop (suc (length sig)) sig)
      (parse_loop-IsAligned (suc (length sig)) sig (omega arith))
  where
    kept :
        (r : Signature)
        → IsAligned r
        → IsAligned (some_bytes r) × ((wilds : List Bool) → some_bytes r ≢ parsed [] wilds)
    kept no_fuel h = absurd h
    kept refused h = (tt, λ wilds e. cc)
    kept (parsed [] ws) h = (tt, λ wilds e. cc)
    kept (parsed (v ∷ pattern) ws) h = (h, λ wilds e. cc)
