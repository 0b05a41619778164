-- ===== src/Plugin/Hooks.antt =====
-- src/plugin.cpp: what each hook does to the roster, the connection of a client apart.
use cs2_bot_identity.Base.{
  ℕ, ◌-◌, ◌==◌, ◌≡◌, refl, sym, Bool, ◌∙◌, subst, ℤ, pos, negsuc, true, not, ◌&&◌, ◌||◌, List, [],
  ◌∷◌, Bytes, bytes_eq, codes, is_empty, ltb, if◌then◌else◌, Bool-cases, inl, inr, if_keeps,
  Option_keeps, for_slots, for_slots_keeps, arith,
}
use cs2_bot_identity.BotInfo.{max_slots}
use cs2_bot_identity.IdentityManager.{is_managed}
use cs2_bot_identity.World.{World, Draws, vote_transaction_active}
use cs2_bot_identity.VoteTransaction.{disguise_pending}
use cs2_bot_identity.VoteWindow.{
  begin_vote_transaction, begin_vote_transaction_for_slot, hold_tick, tick_vote_transaction,
  force_end_vote_transaction, close_window, reset_vote_transaction, set_depth, unschedule,
}
use cs2_bot_identity.ControllerReap.{
  Outside, clear_pending_controller_removals, drain_pending_controller_removals,
}
use cs2_bot_identity.MapGate.{poll_map_gate, hint_map_gate, apply_map_gate}
use cs2_bot_identity.Plugin.{
  on_level_init, unload, on_client_put_in_server, on_client_disconnect, to_spectator, kick_named,
  move_all_to_spectator, dispatch_kick, dispatch_con_command_pre, dispatch_con_command_post,
  apply_pending_disguises, settle_population, game_frame, jitter_pings, begin_kick, leave_kick,
  may_open_window, deepen_population, schedule_end,
}
use cs2_bot_identity.Plugin.Commands.{
  Command, is_map_change_command, is_kick_command, is_bot_add_command, is_bot_kick_group_target,
  named_bot_kick,
}
use cs2_bot_identity.Plugin.Connect.{IsSound}
use cs2_bot_identity.Plugin.Disconnect.{on_client_disconnect-IsSound}
use cs2_bot_identity.Plugin.Rosters.{
  Has, begin-roster, begin_for-roster, schedule-roster, hold_tick-roster, drain-roster, reap-roster,
  jitter-roster,
}
use cs2_bot_identity.MapGate.Keeps.{apply_gate_keeps, poll_keeps, hint_keeps}
use cs2_bot_identity.Plugin.Sound.{
  release_managed-IsSound, Sound, wear-IsSound, disguise_pending-IsSound, restore_player-IsSound,
}

-- A call that leaves the roster alone keeps it sound.
by_roster : (w u : World) → u.roster ≡ w.roster → Sound w → Sound u
by_roster w u same v = subst IsSound (sym same) v

noted : (w : World) (map_name : Bytes) (suspended : Bool) → Sound w → Sound w
noted w map_name suspended v = v

close-IsSound : (draws : ℕ → Draws) (w : World) → Sound w → Sound (close_window draws w)
unfolding close_window
close-IsSound draws w v = restore_player-IsSound draws (set_depth 0 (unschedule w)) v

tick-IsSound : (draws : ℕ → Draws) (w : World) → Sound w → Sound (tick_vote_transaction draws w)
unfolding tick_vote_transaction reset_vote_transaction
tick-IsSound draws w v = if_keeps Sound (w.vote.depth == 0 && not w.vote.end_scheduled) w _ v (
    if_keeps Sound (not w.engine.server_alive) (reset_vote_transaction w) _ v (
      if_keeps Sound (not w.vote.end_scheduled) w _ v (
        if_keeps Sound (ltb 1 w.vote.hold_frames_remaining) (hold_tick w) (close_window draws w)
          (by_roster w (hold_tick w) (hold_tick-roster w) v) (close-IsSound draws w v))))

force-IsSound :
    (draws : ℕ → Draws) (w : World) → Sound w → Sound (force_end_vote_transaction draws w)
unfolding force_end_vote_transaction
force-IsSound draws w v =
    if_keeps Sound (w.vote.depth == 0 && not w.vote.end_scheduled) w (close_window draws w) v
      (close-IsSound draws w v)

pub level_init-IsSound :
    (new_map map_name addon : Bytes) (w : World)
    → Sound w
    → Sound (on_level_init new_map map_name addon w)
unfolding on_level_init
level_init-IsSound new_map map_name addon w v =
    poll_keeps Sound noted release_managed-IsSound map_name addon (apply_map_gate w new_map)
      (apply_gate_keeps Sound noted release_managed-IsSound w new_map v)

pub unload-IsSound : (w : World) → Sound w → Sound (unload w)
unfolding unload reset_vote_transaction clear_pending_controller_removals
unload-IsSound w v = v

pub put_in_server-IsSound :
    (w : World) (slot : ℤ) (draws : Draws) → Sound w → Sound (on_client_put_in_server w slot draws)
unfolding on_client_put_in_server is_managed
put_in_server-IsSound w (negsuc n) draws v =
    let out : (not w.plugin_active
          || w.map_suspended
          || not (is_managed w.roster.manager (negsuc n)))
        ≡ true =
      ground (arith) in
    rw out v
put_in_server-IsSound w (pos n) draws v =
    elim (Bool-cases
      (not w.plugin_active || w.map_suspended || not (is_managed w.roster.manager (pos n)))) [
        | inl out ↦ rw out v
        | inr ours ↦ rw ours (wear-IsSound w n draws v (ground (arith)))
      ]

module _ (outside : Outside) where
  pub disconnect-IsSound :
      (w : World) (slot : ℤ) (reason : ℕ)
      → Sound w
      → Sound (on_client_disconnect outside w slot reason)
  unfolding on_client_disconnect
  disconnect-IsSound w slot reason v = elim (Bool-cases (not w.plugin_active || w.map_suspended)) [
    | inl out ↦
        let idle : (not w.plugin_active
              || w.map_suspended
              || not (is_managed w.roster.manager slot))
            ≡ true =
          ground (arith) in
        rw idle v
    | inr ours ↦
        (on_client_disconnect-IsSound outside w slot reason v (ground (arith)) (ground (arith))).0
  ]

  begin_kick-roster : (w : World) → (begin_kick outside w).roster ≡ w.roster
  begin_kick-roster w =
      if_keeps (Has w.roster) (may_open_window outside w)
        (deepen_population outside (begin_vote_transaction w)) w (begin-roster w) refl

  kick_named-roster : (w : World) (slot : ℤ) → (kick_named outside w slot).roster ≡ w.roster
  unfolding kick_named
  kick_named-roster w slot =
      let moved = to_spectator outside slot w in
      if_keeps (Has w.roster) (may_open_window outside moved)
        (deepen_population outside (begin_vote_transaction_for_slot moved slot)) moved
        (begin_for-roster moved slot) refl

  move_all-roster : (w : World) → (move_all_to_spectator outside w).roster ≡ w.roster
  unfolding move_all_to_spectator
  move_all-roster w =
      for_slots_keeps (Has w.roster) (λ n. to_spectator outside (pos n)) (λ n u h. h) max_slots 0 w
        refl

  kick-roster : (w : World) (c : Command) → (dispatch_kick outside w c).roster ≡ w.roster
  unfolding dispatch_kick
  kick-roster w c =
      let (slot, target) = named_bot_kick w.roster c in
      let is_bot_kick = bytes_eq c.name (codes "bot_kick") in
      let unnamed =
        if is_bot_kick && (is_empty target || bytes_eq target (codes "all"))
        then begin_kick outside (move_all_to_spectator outside w)
        else begin_kick outside w in
      let refused = is_bot_kick && not (is_empty target) && not (is_bot_kick_group_target target) in
      Option_keeps (Has w.roster) slot {x = if refused then w else unnamed}
        {f = λ n. kick_named outside w (pos n)}
        (if_keeps (Has w.roster) refused w unnamed refl (
          if_keeps (Has w.roster)
            (is_bot_kick && (is_empty target || bytes_eq target (codes "all")))
            (begin_kick outside (move_all_to_spectator outside w)) (begin_kick outside w)
            (begin_kick-roster (move_all_to_spectator outside w) ∙ move_all-roster w)
            (begin_kick-roster w)))
        (λ n. kick_named-roster w (pos n))

  pub pre-IsSound :
      (draws : ℕ → Draws) (w : World) (c : Command)
      → Sound w
      → Sound (dispatch_con_command_pre outside draws w c)
  unfolding dispatch_con_command_pre
  pre-IsSound draws w c v = if_keeps Sound (not w.plugin_active || w.map_suspended) w _ v (
      if_keeps Sound (bytes_eq c.name (codes "callvote")) (begin_vote_transaction w) _
        (by_roster w (begin_vote_transaction w) (begin-roster w) v)
        (if_keeps Sound (is_kick_command c.name) (dispatch_kick outside w c) _
          (by_roster w (dispatch_kick outside w c) (kick-roster w c) v)
          (if_keeps Sound (is_bot_add_command c.name && vote_transaction_active w)
            (force_end_vote_transaction draws w) w (force-IsSound draws w v) v)))

  settle-roster : (w : World) → (settle_population outside w).roster ≡ w.roster
  unfolding settle_population
  settle-roster w =
      let once = drain_pending_controller_removals outside w in
      reap-roster outside (drain_pending_controller_removals outside once)
      ∙ drain-roster outside once
      ∙ drain-roster outside w

  leave_kick-roster : (w : World) → (leave_kick outside w).roster ≡ w.roster
  leave_kick-roster w =
      let left = record w { population_command_depth = w.population_command_depth - 1 } in
      if_keeps (Has w.roster) (w.population_command_depth == 0) w _ refl (
        if_keeps (Has w.roster) (left.population_command_depth == 0) (schedule_end outside left)
          left (schedule-roster left left.features.vote_transaction_hold_frames) refl)

  pending-IsSound :
      (draws : ℕ → Draws) (w : World) → Sound w → Sound (apply_pending_disguises outside draws w)
  unfolding apply_pending_disguises
  pending-IsSound draws w v =
      if_keeps Sound w.map_suspended w (for_slots max_slots 0 (disguise_pending draws) w) v (
        for_slots_keeps Sound (disguise_pending draws) (disguise_pending-IsSound draws) max_slots 0
          w v)

  hinted-IsSound :
      (arguments : List Bytes) (w : World)
      → Sound w
      → Sound (elim arguments [ [] ↦ w | first ∷ others ↦ hint_map_gate w first ])
  hinted-IsSound [] w v = v
  hinted-IsSound (first ∷ others) w v = hint_keeps Sound noted release_managed-IsSound w first v

  pub post-IsSound :
      (map_name addon : Bytes) (draws : ℕ → Draws) (w : World) (c : Command)
      → Sound w
      → Sound (dispatch_con_command_post outside map_name addon draws w c)
  unfolding dispatch_con_command_post
  post-IsSound map_name addon draws w c v =
      let pended = apply_pending_disguises outside draws w in
      if_keeps Sound (is_map_change_command c.name) _ _
        (poll_keeps Sound noted release_managed-IsSound map_name addon _
          (hinted-IsSound c.arguments w v))
        (if_keeps Sound w.map_suspended w _ v (
          if_keeps Sound (bytes_eq c.name (codes "callvote")) _ _
            (if_keeps Sound (vote_transaction_active w) (schedule_end outside w) w
              (by_roster w (schedule_end outside w)
                (schedule-roster w w.features.vote_transaction_hold_frames) v)
              v)
            (if_keeps Sound (is_kick_command c.name)
              (settle_population outside (leave_kick outside w)) _
              (by_roster w (settle_population outside (leave_kick outside w))
                (settle-roster (leave_kick outside w) ∙ leave_kick-roster w) v)
              (if_keeps Sound (is_bot_add_command c.name) (settle_population outside pended) w
                (by_roster pended (settle_population outside pended) (settle-roster pended)
                  (pending-IsSound draws w v))
                v))))

  pub frame-IsSound :
      (map_name addon : Bytes) (draws : ℕ → Draws) (rands : ℕ → ℕ) (now : ℕ) (w : World)
      → Sound w
      → Sound (game_frame outside map_name addon draws rands now w)
  unfolding game_frame
  frame-IsSound map_name addon draws rands now w v =
      let gated = poll_map_gate map_name addon w in
      let ticked = tick_vote_transaction draws gated in
      let drained = drain_pending_controller_removals outside ticked in
      let gated-IsSound = poll_keeps Sound noted release_managed-IsSound map_name addon w v in
      let drained-IsSound =
        by_roster ticked drained (drain-roster outside ticked)
          (tick-IsSound draws gated gated-IsSound) in
      if_keeps Sound (not w.plugin_active) w _ v (
        if_keeps Sound gated.map_suspended gated _ gated-IsSound (
          if_keeps Sound drained.features.enable_fake_ping (jitter_pings rands now drained) drained
            (by_roster drained (jitter_pings rands now drained) (jitter-roster rands now drained)
              drained-IsSound)
            drained-IsSound))
