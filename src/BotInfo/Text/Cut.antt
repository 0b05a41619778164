-- ===== src/BotInfo/Text/Cut.antt =====
-- src/bot_info.cpp, `TruncateUtf8`: where a persona name is cut.
use cs2_bot_identity.Base.{
  ℕ, zero, suc, ◌<◌, ◌≤◌, ◌≡◌, refl, true, false, Bytes, leb, length, take, get_or, Bool-cases, ◌⊎◌,
  inl, inr, arith,
}
use cs2_bot_identity.BotInfo.Text.{cut_back, truncate_utf8, is_continuation}

cut_le : (s : Bytes) (i : ℕ) → cut_back s i ≤ i
unfolding cut_back
cut_le s zero = omega arith
cut_le s (suc i) = elim (Bool-cases (is_continuation (get_or s (suc i) 0))) [
  | inl e ↦ rw (e, cut_back) (let h = cut_le s i in omega arith)
  | inr e ↦ rw (e, cut_back) (omega arith)
]

cut_lead :
    (s : Bytes) (i : ℕ) → (cut_back s i ≡ 0) ⊎ (is_continuation (get_or s (cut_back s i) 0) ≡ false)
unfolding cut_back
cut_lead s zero = inl refl
cut_lead s (suc i) = elim (Bool-cases (is_continuation (get_or s (suc i) 0))) [
  | inl e ↦ rw (e, cut_back) (cut_lead s i)
  | inr e ↦ rw (e, cut_back) (inr e)
]

cut_above : (s : Bytes) (i j : ℕ) → cut_back s i < j → j ≤ i → is_continuation (get_or s j 0) ≡ true
unfolding cut_back
cut_above s zero j lt le = absurd (omega arith)
cut_above s (suc i) j lt le = elim (Bool-cases (is_continuation (get_or s (suc i) 0))) [
  | inr e ↦ let lt' : suc i < j = rw (e, cut_back) at lt in absurd (omega arith)
  | inl e ↦
      let lt' : cut_back s i < j = rw (e, cut_back) at lt in
      elim (Bool-cases (leb j i)) [
        | inl low ↦ cut_above s i j lt' (ground (arith))
        | inr high ↦ let j_is : j ≡ suc i = ground (arith) in rw j_is e
      ]
]

-- `out` is the first `kept` bytes of `s`: all of them, or else at most `max_bytes`, cut before a byte
-- that begins a sequence, with every byte behind it up to `max_bytes` inside the sequence that is cut.
pub record IsCutBefore (s : Bytes) (max_bytes kept : ℕ) : Type 0 where
  pub few : kept ≤ max_bytes
  pub lead : (kept ≡ 0) ⊎ (is_continuation (get_or s kept 0) ≡ false)
  pub inside : (j : ℕ) → kept < j → j ≤ max_bytes → is_continuation (get_or s j 0) ≡ true

-- A text that fits is kept. One that does not is cut at the last place within the limit that does
-- not split a UTF-8 sequence, or at its start.
pub truncate_utf8-IsCutBefore :
    (s : Bytes) (max_bytes : ℕ)
    → ((length s ≤ max_bytes) × (truncate_utf8 s max_bytes ≡ s))
      ⊎ ((max_bytes < length s)
          × ((kept : ℕ) × (truncate_utf8 s max_bytes ≡ take kept s) × IsCutBefore s max_bytes kept))
unfolding truncate_utf8
truncate_utf8-IsCutBefore s max_bytes = elim (Bool-cases (leb (length s) max_bytes)) [
  | inl e ↦ inl (ground (arith), rw e refl)
  | inr e ↦ inr (
    ground (arith),
    (
      cut_back s max_bytes,
      rw e refl,
      record {
        few = cut_le s max_bytes;
        lead = cut_lead s max_bytes;
        inside = cut_above s max_bytes;
      },
    ),
  )
]
