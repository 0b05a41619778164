-- ===== src/VoteScan/Saved.antt =====
-- What a scan of src/vote_transaction.cpp notes and what it zeroes.
use cs2_bot_identity.Base.{
  ℕ, zero, suc, ◌+◌, ◌<◌, ◌≤◌, ◌≡◌, ◌∙◌, ◌==◌, ==_iff, sym, inl, inr, refl, ap, arith, Bool, true,
  false, ◌&&◌, ◌||◌, Bool-cases, ltb, leb, leb→le, List, [], ◌∷◌, ◌++◌, length, length-append,
}
use mathlib.Core.List.{append-nil, append_assoc}
use native.Mathlib.Nat.{le_refl, le_trans}
use cs2_bot_identity.Memory.{Memory, IsBytes, read_le, write_le}
use cs2_bot_identity.Memory.Laws.{
  nth_byte, nth_byte-read_le, write_le-after, write_le-outside, write_le-IsBytes,
}
use cs2_bot_identity.VoteScan.{
  SteamIdCopy, same, copy_overlaps, note_copy, scan_loop, max_steam_id_copies,
}

-- The byte `i` of the object lies in a copy.
abbrev pub covers : Bool → List SteamIdCopy → ℕ → Bool
covers on_controller [] i = false
covers on_controller (c ∷ cs) i =
    (same c.on_controller on_controller && (leb c.offset i && ltb i (c.offset + 8)))
    || covers on_controller cs i

-- A copy that a scan of `nbytes` bytes from `off` on took out of `m`.
pub record IsSaved (m : Memory) (on_controller : Bool) (off nbytes : ℕ) (c : SteamIdCopy)
    : Type 0 where
  pub object : c.on_controller ≡ on_controller
  pub from : off ≤ c.offset
  pub to : c.offset + 8 ≤ nbytes
  pub bytes : (k : ℕ) → k < 8 → nth_byte k c.value ≡ m (c.offset + k)

abbrev pub All {ℓ κ} : {A : Type ℓ} → (A → Type κ) → List A → Type κ
All P [] = Unit
All P (x ∷ xs) = P x × All P xs

-- Copies that a scan has behind it.
abbrev pub Behind : Bool → ℕ → List SteamIdCopy → Type 0
Behind on_controller off = All (λ c. c.on_controller ≡ on_controller → c.offset + 8 ≤ off)

pub record Scanned (m m' : Memory) (on_controller : Bool) (off nbytes : ℕ)
    (copies copies' : List SteamIdCopy) : Type 0 where
  pub new : List SteamIdCopy
  pub appended : copies' ≡ copies ++ new
  pub saved : All (IsSaved m on_controller off nbytes) new
  pub untouched :
      length copies' < max_steam_id_copies
      → (i : ℕ) → covers on_controller new i ≡ false
      → m' i ≡ m i

pub All-map {ℓ κ μ} :
    {A : Type ℓ} {P : A → Type κ} {Q : A → Type μ} (f : (a : A) → P a → Q a) (xs : List A)
    → All P xs
    → All Q xs
All-map f [] h = tt
All-map f (x ∷ xs) h = (f x h.0, All-map f xs h.1)

All-append {ℓ κ} :
    {A : Type ℓ} (P : A → Type κ) (xs ys : List A) → All P xs → All P ys → All P (xs ++ ys)
All-append P [] ys p q = q
All-append P (x ∷ xs) ys p q = (p.0, All-append P xs ys p.1 q)

not_overlapping :
    (copies : List SteamIdCopy) (off : ℕ) (on_controller : Bool)
    → Behind on_controller off copies
    → copy_overlaps copies off on_controller ≡ false
unfolding copy_overlaps
not_overlapping [] off on_controller h = refl
not_overlapping (c ∷ cs) off on_controller h =
    ground (arith, not_overlapping cs off on_controller h.1, h.0)

Behind-mono :
    (on_controller : Bool) (off off' : ℕ) (copies : List SteamIdCopy)
    → off ≤ off'
    → Behind on_controller off copies
    → Behind on_controller off' copies
Behind-mono on_controller off off' copies h =
    All-map (λ c before here. le_trans (before here) h) copies

-- A hit at `off`, and the scan behind it.
module _ (m m' : Memory) (on_controller : Bool) (target off nbytes : ℕ)
    (copies copies' : List SteamIdCopy) (bytes : IsBytes m) (inside : off + 8 ≤ nbytes)
    (hit : read_le 8 m off ≡ target) (behind : Behind on_controller off copies) where
  found : SteamIdCopy
  found = record { offset = off; value = target; on_controller = on_controller }

  found-IsSaved : IsSaved m on_controller off nbytes found
  unfolding found
  found-IsSaved = record {
    object = refl;
    from = le_refl off;
    to = inside;
    bytes = λ k h. rw (← hit) (nth_byte-read_le 8 m off k (off + k) bytes h refl);
  }

  later-IsSaved :
      (c : SteamIdCopy)
      → IsSaved (write_le 8 m off 0) on_controller (off + 8) nbytes c
      → IsSaved m on_controller off nbytes c
  later-IsSaved c s = record {
    object = s.object;
    from = omega (arith, s.from);
    to = s.to;
    bytes = λ k h. s.bytes k h ∙ write_le-after 8 m off 0 (c.offset + k) (omega (arith, s.from));
  }

  noted :
      ltb (length copies) max_steam_id_copies ≡ true
      → note_copy copies off target on_controller ≡ copies ++ found ∷ []
  unfolding note_copy found
  noted room = rw (not_overlapping copies off on_controller behind, room)

  full :
      ltb (length copies) max_steam_id_copies ≡ false
      → note_copy copies off target on_controller ≡ copies
  unfolding note_copy
  full no_room = rw (not_overlapping copies off on_controller behind, no_room)

  note_copy-Behind : Behind on_controller (off + 8) (note_copy copies off target on_controller)
  unfolding found
  note_copy-Behind = elim (Bool-cases (ltb (length copies) max_steam_id_copies)) [
    | inl room ↦ rw (noted room) (
        All-append _ copies (found ∷ [])
          (Behind-mono on_controller off (off + 8) copies (omega arith) behind)
          ((λ _. le_refl (off + 8)), tt))
    | inr no_room ↦
        rw (full no_room) (Behind-mono on_controller off (off + 8) copies (omega arith) behind)
  ]

  hit-Scanned :
      Scanned
        (write_le 8 m off 0)
        m'
        on_controller
        (off + 8)
        nbytes
        (note_copy copies off target on_controller)
        copies'
      → Scanned m m' on_controller off nbytes copies copies'
  unfolding found
  hit-Scanned s = elim (Bool-cases (ltb (length copies) max_steam_id_copies)) [
    | inl room ↦ record {
      new = found ∷ s.new;
      appended =
          s.appended ∙ ap (λ l. l ++ s.new) (noted room) ∙ append_assoc copies (found ∷ []) s.new;
      saved = (found-IsSaved, All-map later-IsSaved s.new s.saved);
      untouched = λ short i free.
          s.untouched short i (ground arith) ∙ write_le-outside 8 m off 0 i (ground arith);
    }
    | inr no_room ↦ record {
      new = s.new;
      appended = s.appended ∙ ap (λ l. l ++ s.new) (full no_room);
      saved = All-map later-IsSaved s.new s.saved;
      untouched = λ short i free. absurd (
          ground (
            arith,
            ap length s.appended,
            ap length (full no_room),
            length-append (note_copy copies off target on_controller) s.new,
          ));
    }
  ]

miss-Scanned :
    (m m' : Memory) (on_controller : Bool) (off nbytes : ℕ) (copies copies' : List SteamIdCopy)
    → Scanned m m' on_controller (off + 1) nbytes copies copies'
    → Scanned m m' on_controller off nbytes copies copies'
miss-Scanned m m' on_controller off nbytes copies copies' s = record {
  new = s.new;
  appended = s.appended;
  saved =
      All-map
        (λ c t. record {
          object = t.object;
          from = omega (arith, t.from);
          to = t.to;
          bytes = t.bytes;
        })
        s.new s.saved;
  untouched = s.untouched;
}

pub scan_loop-Scanned :
    (fuel nbytes : ℕ) (on_controller : Bool) (target off : ℕ) (m : Memory)
    (copies : List SteamIdCopy)
    → IsBytes m
    → Behind on_controller off copies
    → Scanned m
        (scan_loop fuel nbytes on_controller target off m copies).0
        on_controller
        off
        nbytes
        copies
        (scan_loop fuel nbytes on_controller target off m copies).1
unfolding scan_loop
scan_loop-Scanned zero nbytes on_controller target off m copies bytes behind = record {
  new = [];
  appended = sym (append-nil copies);
  saved = tt;
  untouched = λ _ i _. refl;
}
scan_loop-Scanned (suc fuel) nbytes on_controller target off m copies bytes behind =
    elim (Bool-cases (leb (off + 8) nbytes)) [
      | inr past ↦
          rw (past, scan_loop)
            (record {
              new = [];
              appended = sym (append-nil copies);
              saved = tt;
              untouched = λ _ i _. refl;
            })
      | inl inside ↦ elim (Bool-cases (read_le 8 m off == target)) [
        | inr miss ↦
            rw (inside, scan_loop)
              (rw (miss, scan_loop)
                (miss-Scanned m _ on_controller off nbytes copies _ (
                  scan_loop-Scanned fuel nbytes on_controller target (off + 1) m copies bytes
                    (Behind-mono on_controller off (off + 1) copies (omega arith) behind))))
        | inl hit ↦
            rw (inside, scan_loop)
              (rw (hit, scan_loop)
                (hit-Scanned m _ on_controller target off nbytes copies _ bytes (leb→le _ _ inside)
                  ((==_iff _ _).0 hit) behind
                  (scan_loop-Scanned fuel nbytes on_controller target (off + 8) (write_le 8 m off 0)
                    _ (write_le-IsBytes 8 m off 0 bytes)
                    (note_copy-Behind m m on_controller target off nbytes copies copies bytes
                      (leb→le _ _ inside) ((==_iff _ _).0 hit) behind))))
      ]
    ]
