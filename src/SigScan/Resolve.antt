-- ===== src/SigScan/Resolve.antt =====
-- src/entity_access.cpp, `ResolveUtilRemove`: what it may resolve to.
use cs2_bot_identity.Base.{ℕ, ◌≡◌, ◌≢◌, refl, Bool, Option, none, some, List, [], ◌∷◌, Bytes, arith}
use cs2_bot_identity.Memory.{Memory}
use cs2_bot_identity.SigScan.{
  Signature, no_fuel, refused, parsed, parse_sig_string, PhdrInfo, collect_lib_server, scan_modules,
  lea_target, UtilRemove, nothing_resolved, interface_module, resolved, first_of,
  resolve_util_remove,
}
use cs2_bot_identity.SigScan.Parse.{IsAligned, parse_sig_string-IsAligned}
use cs2_bot_identity.SigScan.Headers.{InObjects, InServer}
use cs2_bot_identity.SigScan.Modules.{
  scan_modules-InObjects, collect_lib_server-OfObjects, interface_module-OfObjects,
  scan_modules-none, InServer-modules,
}

-- What the three variables hold after `ResolveUtilRemove`: nothing, or a hit of the pattern in an
-- executable segment, and what the `lea` behind it points to. Nothing is left only where no
-- `libserver.so` has the pattern in an executable segment.
pub data Resolves (bytes : Memory) (infos : List PhdrInfo) (r : UtilRemove)
    : Signature → Type 0 where
  not_parsed : r ≡ nothing_resolved → Resolves bytes infos r refused
  not_found :
      {pattern : Bytes} {wilds : List Bool}
      → r ≡ nothing_resolved
      → ((dir : Bytes) (a : ℕ) → ¬ (InServer bytes pattern wilds dir a infos))
      → Resolves bytes infos r (parsed pattern wilds)
  found :
      {pattern : Bytes} {wilds : List Bool}
      → InObjects bytes pattern wilds r.target infos
      → r.ent_sys_global ≡ lea_target bytes r.target pattern
      → Resolves bytes infos r (parsed pattern wilds)

module _ (bytes : Memory) (infos : List PhdrInfo) where
  hit-Resolves :
      (pattern : Bytes) (wilds : List Bool) (r : Option (ℕ × Bytes))
      → ((a : ℕ) (path : Bytes) → r ≡ some (a, path) → InObjects bytes pattern wilds a infos)
      → (r ≡ none → (dir : Bytes) (a : ℕ) → ¬ (InServer bytes pattern wilds dir a infos))
      → Resolves bytes infos (resolved bytes pattern r) (parsed pattern wilds)
  hit-Resolves pattern wilds none h missed = not_found refl (missed refl)
  hit-Resolves pattern wilds (some (a, path)) h missed = found (h a path refl) refl

  first_of-InObjects :
      (pattern : Bytes) (wilds : List Bool) (r s : Option (ℕ × Bytes))
      → ((a : ℕ) (path : Bytes) → r ≡ some (a, path) → InObjects bytes pattern wilds a infos)
      → ((a : ℕ) (path : Bytes) → s ≡ some (a, path) → InObjects bytes pattern wilds a infos)
      → (a : ℕ) (path : Bytes) → first_of bytes r s ≡ some (a, path)
      → InObjects bytes pattern wilds a infos
  first_of-InObjects pattern wilds none s hr hs = hs
  first_of-InObjects pattern wilds (some hit) s hr hs = hr

  first_of-none : (r s : Option (ℕ × Bytes)) → first_of bytes r s ≡ none → s ≡ none
  first_of-none none s e = e
  first_of-none (some hit) s e = cc

  -- Whatever signature is configured and whatever objects are loaded: a signature that does not parse
  -- leaves `UTIL_Remove` and the other variables cleared. One that parses resolves it to a place in
  -- what a header of a loaded object maps as executable, where every byte of the signature that is
  -- not wild stands, and the entity system's address to what the signature's `lea` points to; or it
  -- leaves the variables cleared, and then there is no such place in any `libserver.so` that is loaded.
  pub resolve_util_remove-Resolves :
      (sig : Bytes) (server_interface : ℕ)
      → Resolves bytes infos
          (resolve_util_remove bytes infos sig server_interface)
          (parse_sig_string sig)
  unfolding resolve_util_remove
  resolve_util_remove-Resolves sig server_interface =
      resolves (parse_sig_string sig) (parse_sig_string-IsAligned sig).0
        (parse_sig_string-IsAligned sig).1
    where
      resolves :
          (s : Signature)
          → IsAligned s
          → ((wilds : List Bool) → s ≢ parsed [] wilds)
          → Resolves bytes infos
              (elim s [
                | no_fuel ↦ nothing_resolved
                | refused ↦ nothing_resolved
                | parsed pattern wilds ↦ resolved bytes pattern (
                    first_of bytes
                      (scan_modules bytes
                        (interface_module bytes infos server_interface)
                        pattern
                        wilds)
                      (scan_modules bytes (collect_lib_server infos) pattern wilds))
              ])
              s
      resolves no_fuel h ne = absurd h
      resolves refused h ne = not_parsed refl
      resolves (parsed [] wilds) h ne = absurd (ne wilds refl)
      resolves (parsed (v ∷ pattern) wilds) (same, b) ne =
          hit-Resolves (v ∷ pattern) wilds _
            (first_of-InObjects (v ∷ pattern) wilds
              (scan_modules bytes (interface_module bytes infos server_interface) (v ∷ pattern)
                wilds)
              (scan_modules bytes (collect_lib_server infos) (v ∷ pattern) wilds)
              (λ a path e.
                scan_modules-InObjects bytes (v ∷ pattern) wilds infos _ a path (omega arith) same
                  (interface_module-OfObjects bytes (v ∷ pattern) wilds infos server_interface) e)
              (λ a path e.
                scan_modules-InObjects bytes (v ∷ pattern) wilds infos _ a path (omega arith) same
                  (collect_lib_server-OfObjects bytes (v ∷ pattern) wilds infos) e))
            (λ e dir a there.
              scan_modules-none bytes (v ∷ pattern) wilds (collect_lib_server infos) a (omega arith)
                same
                (first_of-none
                  (scan_modules bytes (interface_module bytes infos server_interface) (v ∷ pattern)
                    wilds)
                  _ e)
                (InServer-modules bytes (v ∷ pattern) wilds dir a infos (omega arith) there))
