-- ===== src/MapGate/Keeps.antt =====
-- src/plugin.cpp, `ApplyMapGate` to `HintMapGate`: the gate changes the roster by letting go only.
use cs2_bot_identity.Base.{
  ◌||◌, Bool, true, false, if◌then◌else◌, Bytes, is_empty, bytes_eq, Bool-cases, Option-cases, inl,
  inr, if_keeps, Option_keeps,
}
use cs2_bot_identity.World.{World}
use cs2_bot_identity.MapGate.{
  release_managed_slots, apply_map_gate, poll_map_gate, hint_map_gate, build_map_identity,
  map_name_matches_blacklist,
}

-- What `ReleaseManagedSlots` keeps, and what neither the name of the map nor the suspension matters
-- to, the gate keeps.
module _ {ℓ} (P : World → Type ℓ)
    (noted : (w : World) (map_name : Bytes) (suspended : Bool)
      → P w
      → P (record w { gate_map = map_name; map_suspended = suspended }))
    (released : (w : World) → P w → P (release_managed_slots w)) where
  pub apply_gate_keeps : (w : World) (map_name : Bytes) → P w → P (apply_map_gate w map_name)
  unfolding apply_map_gate
  apply_gate_keeps w map_name h =
      let named = record w { gate_map = map_name } in
      let named_h = noted w map_name w.map_suspended h in
      elim (Bool-cases (is_empty map_name || bytes_eq w.gate_map map_name)) [
        | inl e ↦ rw e h
        | inr e ↦ elim (Option-cases (map_name_matches_blacklist map_name w.map_blacklist)) [
          | inl f ↦ rw (e, f) (noted w map_name false h)
          | inr (token, f) ↦
              let let_go = if w.map_suspended then named else release_managed_slots named in
              let kept =
                if_keeps P w.map_suspended named (release_managed_slots named) named_h
                  (released named named_h) in
              rw (e, f) (noted let_go let_go.gate_map true kept)
        ]
      ]

  pub poll_keeps : (map_name addon : Bytes) (w : World) → P w → P (poll_map_gate map_name addon w)
  unfolding poll_map_gate
  poll_keeps map_name addon w h =
      let id = build_map_identity map_name addon in
      if_keeps P (is_empty id) w (apply_map_gate w id) h (apply_gate_keeps w id h)

  pub hint_keeps : (w : World) (map_name : Bytes) → P w → P (hint_map_gate w map_name)
  unfolding hint_map_gate
  hint_keeps w map_name h =
      Option_keeps P (map_name_matches_blacklist map_name w.map_blacklist) {x = w}
        {f = λ token. apply_map_gate w map_name} h (λ token. apply_gate_keeps w map_name h)
