-- ===== src/ControllerReap/Queue.antt =====
-- src/controller_reap.cpp, `g_Pending`: each handle is queued once, and draining keeps the order.
use native.Mathlib.Omega.{arith}
use cs2_bot_identity.Base.{
  ℕ, ◌+◌, ◌%◌, ◌^◌, ◌≡◌, refl, ◌==◌, ℤ, true, false, not, ◌||◌, List, [], ◌∷◌, ◌++◌, some,
  Bool-cases, Option-cases, inl, inr,
}
use mathlib.Core.Path.{sym, subst}
use cs2_bot_identity.BotInfo.{max_slots}
use cs2_bot_identity.SscOps.{get_entity_index}
use cs2_bot_identity.EntityAccess.{Engine, resolve_player_controller, is_entity_being_deleted}
use cs2_bot_identity.World.{World, PendingControllerRemoval}
use cs2_bot_identity.ControllerReap.{
  Outside, holds_handle, queue_controller_removal_for_client, drain_items, drain_item, drain_live,
  is_live_item, drain_pending_controller_removals, referenced_from, leftover_user_id,
}

-- No two items have one handle.
pub data IsOnce : List PendingControllerRemoval → Type 0 where
  empty : IsOnce []
  added :
      {item : PendingControllerRemoval} {items : List PendingControllerRemoval}
      → holds_handle item.handle items ≡ false
      → IsOnce items
      → IsOnce (item ∷ items)

holds-append :
    (h : ℕ) (items : List PendingControllerRemoval) (item : PendingControllerRemoval)
    → holds_handle h (items ++ item ∷ []) ≡ (holds_handle h items || (item.handle == h))
unfolding holds_handle
holds-append h [] item = ground (arith)
holds-append h (i ∷ items) item = ground (arith, holds-append h items item)

append-IsOnce :
    (items : List PendingControllerRemoval) (item : PendingControllerRemoval)
    → IsOnce items
    → holds_handle item.handle items ≡ false
    → IsOnce (items ++ item ∷ [])
unfolding holds_handle
append-IsOnce [] item o h = added refl empty
append-IsOnce (i ∷ items) item (added fresh o) h =
    added (ground (arith, holds-append i.handle items item))
      (append-IsOnce items item o (ground (arith)))

-- Where each handle is queued at most once, it still is after a controller is queued for removal.
pub queue-IsOnce :
    (w : World) (client : ℕ) (slot : ℤ)
    → IsOnce w.pending
    → IsOnce (queue_controller_removal_for_client w client slot).0.pending
unfolding queue_controller_removal_for_client
queue-IsOnce w client slot o =
    let e = w.engine in
    elim (Bool-cases ((client == 0) || not e.util_remove_target)) [
      | inl refused ↦ rw refused o
      | inr go ↦
          elim (Option-cases
            (resolve_player_controller e (get_entity_index e.offsets (e.heap client)))) [
              | inl none_e ↦ rw (go, none_e) o
              | inr (controller, found) ↦ elim (Bool-cases (is_entity_being_deleted e controller)) [
                | inl deleting ↦ rw (go, found, deleting) o
                | inr stays ↦
                    elim (Bool-cases (holds_handle (e.ref_handle controller % 2 ^ 32) w.pending)) [
                      | inl twice ↦ rw (go, found, stays, twice) o
                      | inr fresh ↦ rw (go, found, stays, fresh) (append-IsOnce w.pending _ o fresh)
                    ]
              ]
            ]
    ]

-- An item that stays has waited for one round, and keeps its handle.
record Waits (old new : PendingControllerRemoval) : Type 0 where
  handle_same : new.handle ≡ old.handle
  waited : (new.referenced_frames == 0) ≡ false
  first : (old.referenced_frames == 0) ≡ true

data AllWaited : List PendingControllerRemoval → Type 0 where
  none_left : AllWaited []
  waited_then :
      {item : PendingControllerRemoval} {items : List PendingControllerRemoval}
      → (item.referenced_frames == 0) ≡ false
      → AllWaited items
      → AllWaited (item ∷ items)

abbrev waited_once : PendingControllerRemoval → PendingControllerRemoval
waited_once item = record item { referenced_frames = item.referenced_frames + 1 }

module _ (outside : Outside) where
  drain_live-Waits :
      (e : Engine) (item new : PendingControllerRemoval)
      → (drain_live outside e item).1 ≡ some new
      → Waits item new
  unfolding drain_live
  drain_live-Waits e item new h =
      elim (Option-cases (referenced_from outside e item.controller max_slots 0)) [
        | inl none_e ↦ let h' = rw (none_e, drain_live) at h in cc
        | inr (user_id, some_e) ↦ elim (Bool-cases (user_id == leftover_user_id)) [
          | inl left ↦ let h' = rw (some_e, left, drain_live) at h in cc
          | inr live ↦ elim (Bool-cases (not (user_id == item.user_id))) [
            | inl rebound ↦ let h' = rw (some_e, live, rebound, drain_live) at h in cc
            | inr same ↦ elim (Bool-cases (item.referenced_frames == 0)) [
              | inr again ↦ let h' = rw (some_e, live, same, again, drain_live) at h in cc
              | inl once ↦
                  let h' : some (waited_once item) ≡ some new =
                    rw (some_e, live, same, once, drain_live) at h in
                  let new_is : waited_once item ≡ new = cc in
                  subst (Waits item) new_is
                    (record { handle_same = refl; waited = ground (arith); first = once })
            ]
          ]
        ]
      ]

  drain_item-Waits :
      (e : Engine) (item new : PendingControllerRemoval)
      → (drain_item outside e item).1 ≡ some new
      → Waits item new
  unfolding drain_item
  drain_item-Waits e item new h = elim (Bool-cases (is_live_item outside e item)) [
    | inl live ↦ drain_live-Waits e item new (rw live at h)
    | inr dead ↦ let h' = rw dead at h in cc
  ]

  -- Every item that a drain leaves has waited.
  drain_items-AllWaited :
      (e : Engine) (items : List PendingControllerRemoval)
      → AllWaited (drain_items outside e items).1
  unfolding drain_items
  drain_items-AllWaited e [] = none_left
  drain_items-AllWaited e (item ∷ items) =
      let rest = drain_items-AllWaited (drain_item outside e item).0 items in
      elim (Option-cases (drain_item outside e item).1) [
        | inl gone ↦ rw gone rest
        | inr (new, stays) ↦ rw stays (waited_then (drain_item-Waits e item new stays).waited rest)
      ]

  drain_items-gone :
      (e : Engine) (items : List PendingControllerRemoval)
      → AllWaited items
      → (drain_items outside e items).1 ≡ []
  unfolding drain_items
  drain_items-gone e [] none_left = refl
  drain_items-gone e (item ∷ items) (waited_then waited rest) =
      let rest_gone = drain_items-gone (drain_item outside e item).0 items rest in
      elim (Option-cases (drain_item outside e item).1) [
        | inl gone ↦ rw gone rest_gone
        | inr (new, stays) ↦
            let first = (drain_item-Waits e item new stays).first in absurd (ground (arith))
      ]

  drain-AllWaited : (w : World) → AllWaited (drain_pending_controller_removals outside w).pending
  unfolding drain_pending_controller_removals
  drain-AllWaited w = elim (Bool-cases (not w.engine.server_alive)) [
    | inl e ↦ rw e none_left
    | inr e ↦ elim (Bool-cases (not w.engine.util_remove_target)) [
      | inl f ↦ rw (e, f) none_left
      | inr f ↦ rw (e, f) (drain_items-AllWaited w.engine w.pending)
    ]
  ]

  drain-gone :
      (w : World) → AllWaited w.pending → (drain_pending_controller_removals outside w).pending ≡ []
  unfolding drain_pending_controller_removals
  drain-gone w h = elim (Bool-cases (not w.engine.server_alive)) [
    | inl e ↦ rw e refl
    | inr e ↦ elim (Bool-cases (not w.engine.util_remove_target)) [
      | inl f ↦ rw (e, f) refl
      | inr f ↦ rw (e, f) (drain_items-gone w.engine w.pending h)
    ]
  ]

-- Whatever `ChangeTeam` and `UTIL_Remove` do, and whatever changes between the two calls as long as
-- the queue itself does not, two calls of `DrainPendingControllerRemovals` leave nothing pending: a
-- controller that a client still refers to waits for one call at most.
pub drain_twice-empty :
    (outside : Outside) (w v : World)
    → v.pending ≡ (drain_pending_controller_removals outside w).pending
    → (drain_pending_controller_removals outside v).pending ≡ []
drain_twice-empty outside w v same =
    drain-gone outside v (subst AllWaited (sym same) (drain-AllWaited outside w))
