-- ===== src/SigScan/Modules.antt =====
-- src/entity_access.cpp, `FindByAddressCallback`, `CollectLibServerCallback` and `scanModule`: what the
-- modules of `ResolveUtilRemove` have to do with the loaded objects.
use cs2_bot_identity.Base.{
  ℕ, ◌<◌, ◌≡◌, refl, ap, subst, ◌∙◌, inl, inr, Bool, true, not, ◌&&◌, Option, none, some, List, [],
  ◌∷◌, ◌++◌, Bool-cases, Option-cases, if◌then◌else◌, if_keeps, length, is_empty, Bytes, bytes_eq,
  codes,
}
use cs2_bot_identity.Memory.{Memory}
use cs2_bot_identity.SigScan.{
  ModuleSegment, ServerModule, PhdrInfo, executable_segments, address_in_module, find_by_address,
  base_name, collect_lib_server, find_pattern, scan_modules, no_module, interface_module,
}
use cs2_bot_identity.SigScan.Find.{Finds, nowhere, here, later, find_pattern-Finds}
use cs2_bot_identity.SigScan.Headers.{
  InSegments, in_first, in_rest, InObjects, in_object, in_other, InServer, in_server, in_next,
  segments-InHeaders, InHeaders-segments, InSegments-some, base_name-server,
}

module _ (bytes : Memory) (pattern : Bytes) (wilds : List Bool) where
  Finds-InSegments :
      {segs : List ModuleSegment} {r : Option ℕ}
      → Finds bytes pattern wilds segs r
      → (a : ℕ) → r ≡ some a
      → InSegments bytes pattern wilds a segs
  Finds-InSegments nowhere a e = cc
  Finds-InSegments (here {seg} {segs} {a = b} inside stands first_one) a e =
      let same : b ≡ a = cc in
      subst (λ x. InSegments bytes pattern wilds x (seg ∷ segs)) same (in_first inside stands)
  Finds-InSegments (later miss f) a e = in_rest (Finds-InSegments f a e)

  Finds-nowhere :
      {segs : List ModuleSegment} {r : Option ℕ}
      → Finds bytes pattern wilds segs r
      → r ≡ none
      → (a : ℕ) → ¬ (InSegments bytes pattern wilds a segs)
  Finds-nowhere nowhere e a h = elim h [ ]
  Finds-nowhere (here inside stands first_one) e a h = cc
  Finds-nowhere (later miss f) e a (in_first inside stands) = miss a inside stands
  Finds-nowhere (later miss f) e a (in_rest h) = Finds-nowhere f e a h

  -- Each module's segments are those of a loaded object.
  pub data OfObjects (infos : List PhdrInfo) : List ServerModule → Type 0 where
    no_objects : OfObjects infos []
    one_object :
        {m : ServerModule} {ms : List ServerModule}
        → ((a : ℕ)
            → InSegments bytes pattern wilds a m.segments
            → InObjects bytes pattern wilds a infos)
        → OfObjects infos ms
        → OfObjects infos (m ∷ ms)

  pub scan_modules-InObjects :
      (infos : List PhdrInfo) (ms : List ServerModule) (a : ℕ) (path : Bytes)
      → 0 < length pattern
      → length pattern ≡ length wilds
      → OfObjects infos ms
      → scan_modules bytes ms pattern wilds ≡ some (a, path)
      → InObjects bytes pattern wilds a infos
  unfolding scan_modules
  scan_modules-InObjects infos [] a path some_pattern same o e = cc
  scan_modules-InObjects infos (m ∷ ms) a path some_pattern same (one_object inside o) e =
      elim (Option-cases (find_pattern bytes m.segments pattern wilds)) [
        | inl miss ↦
            let e' = rw (miss, scan_modules) at e in
            scan_modules-InObjects infos ms a path some_pattern same o e'
        | inr (b, hit) ↦
            let e' = rw (hit, scan_modules) at e in
            let at_a : b ≡ a = cc in
            inside a (
              Finds-InSegments (find_pattern-Finds bytes pattern wilds m.segments some_pattern same)
                a (hit ∙ ap some at_a))
      ]

  OfObjects-other :
      {info : PhdrInfo} {infos : List PhdrInfo} {ms : List ServerModule}
      → OfObjects infos ms
      → OfObjects (info ∷ infos) ms
  OfObjects-other no_objects = no_objects
  OfObjects-other (one_object inside o) =
      one_object (λ a h. in_other (inside a h)) (OfObjects-other o)

  collected :
      (info : PhdrInfo) (infos : List PhdrInfo) (name : Option Bytes) (more : List ServerModule)
      → OfObjects (info ∷ infos) more
      → OfObjects (info ∷ infos) (elim name [
        | none ↦ more
        | some path ↦
            let segments = executable_segments info.load_address info.headers in
            if bytes_eq (base_name path path) (codes "libserver.so") && not (is_empty segments)
            then record { path = path; segments = segments } ∷ more
            else more
      ])
  collected info infos none more o = o
  collected info infos (some path) more o =
      if_keeps (OfObjects (info ∷ infos)) _ _ more
        (one_object (λ a h. in_object (segments-InHeaders bytes pattern wilds _ a info.headers h))
          o)
        o

  pub collect_lib_server-OfObjects :
      (infos : List PhdrInfo) → OfObjects infos (collect_lib_server infos)
  unfolding collect_lib_server
  collect_lib_server-OfObjects [] = no_objects
  collect_lib_server-OfObjects (info ∷ infos) =
      collected info infos info.name (collect_lib_server infos)
        (OfObjects-other (collect_lib_server-OfObjects infos))

  no_segment :
      (a : ℕ) (segs : List ModuleSegment)
      → is_empty segs ≡ true
      → ¬ (InSegments bytes pattern wilds a segs)
  no_segment a [] e h = elim h [ ]
  no_segment a (seg ∷ segs) e h = cc

  append_empty : (xs ys : List ModuleSegment) → is_empty xs ≡ true → xs ++ ys ≡ ys
  append_empty [] ys e = refl
  append_empty (x ∷ xs) ys e = cc

  find_by_address-InObjects :
      (v : ℕ) (infos : List PhdrInfo) (result : ServerModule)
      → is_empty result.segments ≡ true
      → (a : ℕ) → InSegments bytes pattern wilds a (find_by_address v result infos).segments
      → InObjects bytes pattern wilds a infos
  unfolding find_by_address
  find_by_address-InObjects v [] result e = λ a h. absurd (no_segment a result.segments e h)
  find_by_address-InObjects v (info ∷ infos) result e =
      let segments = executable_segments info.load_address info.headers in
      let joined : result.segments ++ segments ≡ segments =
        append_empty result.segments segments e in
      elim (Bool-cases (address_in_module info.load_address info.headers v)) [
        | inr outside ↦
            rw outside (λ a h. in_other (find_by_address-InObjects v infos result e a h))
        | inl inside ↦ rw inside (elim (Bool-cases (is_empty (result.segments ++ segments))) [
          | inl empty ↦ rw empty (λ a h. in_other (find_by_address-InObjects v infos _ empty a h))
          | inr usable ↦ rw usable (λ a h. in_object (
              segments-InHeaders bytes pattern wilds _ a info.headers
                (subst (InSegments bytes pattern wilds a) joined h)))
        ])
      ]

  -- A module of the list has the pattern in one of its segments.
  pub data InModules (a : ℕ) : List ServerModule → Type 0 where
    in_module :
        {m : ServerModule} {ms : List ServerModule}
        → InSegments bytes pattern wilds a m.segments
        → InModules a (m ∷ ms)
    in_more : {m : ServerModule} {ms : List ServerModule} → InModules a ms → InModules a (m ∷ ms)

  pub scan_modules-none :
      (ms : List ServerModule) (a : ℕ)
      → 0 < length pattern
      → length pattern ≡ length wilds
      → scan_modules bytes ms pattern wilds ≡ none
      → ¬ (InModules a ms)
  unfolding scan_modules
  scan_modules-none [] a some_pattern same e h = elim h [ ]
  scan_modules-none (m ∷ ms) a some_pattern same e h =
      elim (Option-cases (find_pattern bytes m.segments pattern wilds)) [
        | inr (b, hit) ↦ let e' = rw (hit, scan_modules) at e in cc
        | inl miss ↦
            missed
              (λ more. scan_modules-none ms a some_pattern same (rw (miss, scan_modules) at e) more)
              miss h
      ]
    where
      missed :
          ¬ (InModules a ms)
          → find_pattern bytes m.segments pattern wilds ≡ none
          → ¬ (InModules a (m ∷ ms))
      missed others miss (in_module inside) =
          Finds-nowhere (find_pattern-Finds bytes pattern wilds m.segments some_pattern same) miss a
            inside
      missed others miss (in_more more) = others more

  pub InServer-modules :
      (dir : Bytes) (a : ℕ) (infos : List PhdrInfo)
      → 0 < length pattern
      → InServer bytes pattern wilds dir a infos
      → InModules a (collect_lib_server infos)
  unfolding collect_lib_server
  InServer-modules dir a [] some_pattern h = elim h [ ]
  InServer-modules dir a (info ∷ infos) some_pattern (in_server named inside) =
      let there =
        InHeaders-segments bytes pattern wilds info.load_address a info.headers some_pattern
          inside in
      let usable = InSegments-some bytes pattern wilds there in
      let right = base_name-server dir in
      rw (named, collect_lib_server) (rw (right, usable) (in_module there))
  InServer-modules dir a (info ∷ infos) some_pattern (in_next h) =
      let more = InServer-modules dir a infos some_pattern h in
      elim (Option-cases info.name) [
        | inl unnamed ↦ rw (unnamed, collect_lib_server) more
        | inr (path, named) ↦
            rw (named, collect_lib_server)
              (if_keeps (InModules a) _ _ (collect_lib_server infos) (in_more more) more)
      ]

  pub interface_module-OfObjects :
      (infos : List PhdrInfo) (server_interface : ℕ)
      → OfObjects infos (interface_module bytes infos server_interface)
  unfolding interface_module
  interface_module-OfObjects infos server_interface =
      if_keeps (OfObjects infos) _ [] _ no_objects
        (one_object (find_by_address-InObjects _ infos no_module refl) no_objects)
