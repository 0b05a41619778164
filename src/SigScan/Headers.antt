-- ===== src/SigScan/Headers.antt =====
-- src/entity_access.cpp, the segments that `FindByAddressCallback` and `CollectLibServerCallback` take
-- from the headers of the loaded objects.
use cs2_bot_identity.Base.{
  ◌==◌, ◌||◌, false, ℕ, ◌<◌, ◌≡◌, refl, ap, inl, inr, Bool, true, not, some, List, [], ◌∷◌, ◌++◌,
  Bool-cases, if◌then◌else◌, if_keeps, length, is_empty, Bytes, bytes_eq, arith, codes,
}
use cs2_bot_identity.Memory.{Memory}
use cs2_bot_identity.SigScan.{
  ModuleSegment, ProgramHeader, PhdrInfo, address, executable_segments, base_name,
}
use cs2_bot_identity.SigScan.Find.{StandsAt, Within}

base_name-slash : (dir s since : Bytes) → base_name since (dir ++ (b'/' ∷ s)) ≡ base_name s s
unfolding base_name
base_name-slash [] s since = refl
base_name-slash (c ∷ dir) s since = base_name-slash dir s (if c == b'/' then _ else since)

pub base_name-server :
    (dir : Bytes)
    → bytes_eq
        (base_name (dir ++ (b'/' ∷ codes "libserver.so")) (dir ++ (b'/' ∷ codes "libserver.so")))
        (codes "libserver.so")
      ≡ true
unfolding base_name bytes_eq
base_name-server dir =
    ap (λ s. bytes_eq s (codes "libserver.so")) (base_name-slash dir (codes "libserver.so") _)

module _ (bytes : Memory) (pattern : Bytes) (wilds : List Bool) where
  -- The pattern stands at the address, inside one of the segments.
  pub data InSegments (a : ℕ) : List ModuleSegment → Type 0 where
    in_first :
        {seg : ModuleSegment} {segs : List ModuleSegment}
        → Within bytes pattern wilds seg a
        → StandsAt bytes pattern wilds a
        → InSegments a (seg ∷ segs)
    in_rest :
        {seg : ModuleSegment} {segs : List ModuleSegment}
        → InSegments a segs
        → InSegments a (seg ∷ segs)

  -- The pattern stands at the address inside what a header maps as executable, where the object is
  -- loaded at `load_address`.
  pub data InHeaders (load_address a : ℕ) : List ProgramHeader → Type 0 where
    in_header :
        {ph : ProgramHeader} {phs : List ProgramHeader}
        → ph.loads ≡ true
        → ph.executable ≡ true
        → Within bytes pattern wilds
            (record { base = address load_address ph.vaddr; size = ph.memsz })
            a
        → StandsAt bytes pattern wilds a
        → InHeaders load_address a (ph ∷ phs)
    in_later :
        {ph : ProgramHeader} {phs : List ProgramHeader}
        → InHeaders load_address a phs
        → InHeaders load_address a (ph ∷ phs)

  -- It stands in what a loaded object maps as executable.
  pub data InObjects (a : ℕ) : List PhdrInfo → Type 0 where
    in_object :
        {info : PhdrInfo} {infos : List PhdrInfo}
        → InHeaders info.load_address a info.headers
        → InObjects a (info ∷ infos)
    in_other :
        {info : PhdrInfo} {infos : List PhdrInfo} → InObjects a infos → InObjects a (info ∷ infos)

  -- It stands in what an object `libserver.so` of the directory maps as executable.
  pub data InServer (dir : Bytes) (a : ℕ) : List PhdrInfo → Type 0 where
    in_server :
        {info : PhdrInfo} {infos : List PhdrInfo}
        → info.name ≡ some (dir ++ (b'/' ∷ codes "libserver.so"))
        → InHeaders info.load_address a info.headers
        → InServer dir a (info ∷ infos)
    in_next :
        {info : PhdrInfo} {infos : List PhdrInfo}
        → InServer dir a infos
        → InServer dir a (info ∷ infos)

  pub segments-InHeaders :
      (load_address a : ℕ) (phs : List ProgramHeader)
      → InSegments a (executable_segments load_address phs)
      → InHeaders load_address a phs
  unfolding executable_segments
  segments-InHeaders load_address a [] h = elim h [ ]
  segments-InHeaders load_address a (ph ∷ phs) h =
      elim (Bool-cases (not ph.loads || (ph.memsz == 0) || not ph.executable)) [
        | inl skipped ↦
            in_later
              (segments-InHeaders load_address a phs (rw (skipped, executable_segments) at h))
        | inr kept ↦
            first (segments-InHeaders load_address a phs) (ground arith) (ground arith)
              (rw (kept, executable_segments) at h)
      ]
    where
      first :
          (InSegments a (executable_segments load_address phs) → InHeaders load_address a phs)
          → ph.loads ≡ true
          → ph.executable ≡ true
          → InSegments a (
              record { base = address load_address ph.vaddr; size = ph.memsz }
              ∷ executable_segments load_address phs)
          → InHeaders load_address a (ph ∷ phs)
      first more loads executable (in_first inside stands) =
          in_header loads executable inside stands
      first more loads executable (in_rest h) = in_later (more h)

  pub InSegments-some :
      {a : ℕ} {segs : List ModuleSegment} → InSegments a segs → is_empty segs ≡ false
  InSegments-some (in_first inside stands) = refl
  InSegments-some (in_rest h) = refl

  pub InHeaders-segments :
      (load_address a : ℕ) (phs : List ProgramHeader)
      → 0 < length pattern
      → InHeaders load_address a phs
      → InSegments a (executable_segments load_address phs)
  unfolding executable_segments
  InHeaders-segments load_address a [] some_pattern h = elim h [ ]
  InHeaders-segments load_address a (ph ∷ phs) some_pattern
        (in_header loads executable inside stands) =
      let (some_base, from, to) = inside in
      let kept : (not ph.loads || (ph.memsz == 0) || not ph.executable) ≡ false = ground (arith) in
      rw (kept, executable_segments) (in_first inside stands)
  InHeaders-segments load_address a (ph ∷ phs) some_pattern (in_later h) =
      let more = InHeaders-segments load_address a phs some_pattern h in
      if_keeps (InSegments a) (not ph.loads || (ph.memsz == 0) || not ph.executable) _ _ more
        (in_rest more)
