-- ===== src/Plugin/Disconnect.antt =====
-- src/plugin.cpp, `Hook_ClientDisconnect_Pre`: a bot that leaves gives its slot and identity back.
use cs2_bot_identity.Base.{
  ℕ, ◌%◌, ◌^◌, ◌==◌, ◌≡◌, refl, sym, ap, ◌∙◌, subst, ℤ, Bool, true, false, not, ◌||◌, Bool-cases,
  Option-cases, inl, inr, arith,
}
use cs2_bot_identity.IdentityManager.{is_managed, unmark}
use cs2_bot_identity.IdentityManager.Managed.{unmark-unmanaged, is_managed-bound}
use cs2_bot_identity.SscOps.{get_entity_index}
use cs2_bot_identity.EntityAccess.{
  resolve_player_controller, is_entity_being_deleted, resolve_client_by_slot,
}
use cs2_bot_identity.World.{World}
use cs2_bot_identity.Disguise.{restore_identity}
use cs2_bot_identity.ControllerReap.{Outside, holds_handle, queue_controller_removal_for_client}
use cs2_bot_identity.VoteWindow.{reset_vote_transaction_slot}
use cs2_bot_identity.MapGate.Release.{restore-roster}
use cs2_bot_identity.Plugin.{
  on_client_disconnect, disconnect_managed, is_targeted_client_removal_reason, to_spectator,
}
use cs2_bot_identity.Plugin.Connect.{IsSound, unmark-IsSound}
use cs2_bot_identity.Plugin.Invariant.{drop_slot-rest}

queue-roster :
    (w : World) (client : ℕ) (slot : ℤ)
    → (queue_controller_removal_for_client w client slot).0.roster ≡ w.roster
unfolding queue_controller_removal_for_client
queue-roster w client slot =
    let e = w.engine in
    elim (Bool-cases ((client == 0) || not e.util_remove_target)) [
      | inl refused ↦ rw refused refl
      | inr go ↦
          elim (Option-cases
            (resolve_player_controller e (get_entity_index e.offsets (e.heap client)))) [
              | inl none_e ↦ rw (go, none_e) refl
              | inr (controller, found) ↦ elim (Bool-cases (is_entity_being_deleted e controller)) [
                | inl deleting ↦ rw (go, found, deleting) refl
                | inr stays ↦
                    elim (Bool-cases (holds_handle (e.ref_handle controller % 2 ^ 32) w.pending)) [
                      | inl twice ↦ rw (go, found, stays, twice) refl
                      | inr fresh ↦ rw (go, found, stays, fresh) refl
                    ]
              ]
            ]
    ]

disconnect-roster :
    (outside : Outside) (w : World) (slot : ℤ) (kick_removal : Bool)
    → (disconnect_managed outside w slot kick_removal).roster ≡ unmark w.roster slot
unfolding disconnect_managed
disconnect-roster outside w slot true =
    let moved = to_spectator outside slot (reset_vote_transaction_slot w slot) in
    ap (λ r. unmark r slot)
      (queue-roster (restore_identity moved slot) (resolve_client_by_slot moved.engine slot) slot
        ∙ restore-roster moved slot
        ∙ (drop_slot-rest w slot).0)
disconnect-roster outside w slot false =
    ap (λ r. unmark r slot)
      (restore-roster (reset_vote_transaction_slot w slot) slot ∙ (drop_slot-rest w slot).0)

-- Whatever `ChangeTeam` does, a client that disconnects while the plugin is at work leaves a
-- sound roster sound and its slot not managed, for every reason of the disconnection.
pub on_client_disconnect-IsSound :
    (outside : Outside) (w : World) (slot : ℤ) (reason : ℕ)
    → IsSound w.roster
    → w.plugin_active ≡ true
    → w.map_suspended ≡ false
    → let after = on_client_disconnect outside w slot reason in
      IsSound after.roster × (is_managed after.roster.manager slot ≡ false)
unfolding on_client_disconnect
on_client_disconnect-IsSound outside w slot reason v active open_map =
    elim (Bool-cases (is_managed w.roster.manager slot)) [
      | inr free ↦
          let out : (not w.plugin_active
                || w.map_suspended
                || not (is_managed w.roster.manager slot))
              ≡ true =
            ground (arith) in
          rw out (v, free)
      | inl managed ↦
          let ours : (not w.plugin_active
                || w.map_suspended
                || not (is_managed w.roster.manager slot))
              ≡ false =
            ground (arith) in
          let (n, lt, slot_is) = is_managed-bound w.roster.manager slot managed in
          let r_e = disconnect-roster outside w slot (is_targeted_client_removal_reason reason) in
          rw (ours, r_e)
            (
              unmark-IsSound w.roster slot v,
              subst (λ s. is_managed (unmark w.roster s).manager s ≡ false) (sym slot_is)
                  (unmark-unmanaged w.roster n),
            )
    ]
