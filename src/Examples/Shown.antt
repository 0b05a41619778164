-- ===== src/Examples/Shown.antt =====
-- `ApplyDisguise`, `RestoreIdentity` and the connection of a bot, of src/plugin.cpp, for slot 0.
use cs2_bot_identity.Base.{
  arith, bytes_eq, codes, get_elem?, inl, pos, refl, some, subst, suc, true, zero, ◌<◌, ◌^◌, ◌≡◌,
}
use cs2_bot_identity.Memory.{IsBytes, read_le}
use cs2_bot_identity.SscOps.{linux_offsets, read_steam_id, get_entity_index}
use cs2_bot_identity.VoteMarkers.Client.{IsDisguised}
use cs2_bot_identity.EntityAccess.{
  resolve_client_by_slot, resolve_player_controller, resolve_entity_instance, is_slot_active,
}
use cs2_bot_identity.BotInfo.Pool.{
  get_free, count_free, count_from, is_free, is_assignable, is_name_in_use, is_steam_id_in_use,
  any_other, pick_from,
}
use cs2_bot_identity.IdentityManager.{is_managed}
use cs2_bot_identity.Plugin.{on_client_connected}
use cs2_bot_identity.Plugin.Disguised.{Passes, Admits, AreWide, on_client_connected-Passes}
use cs2_bot_identity.Disguise.{apply_disguise, restore_identity}
use cs2_bot_identity.Disguise.Published.{Publishes, refuses, apply_disguise-Publishes}
use cs2_bot_identity.Disguise.Bytes.{IsSpaced, IsBot}
use cs2_bot_identity.Disguise.Shown.{IsApart, apply_disguise-IsDisguised, restore_identity-IsBot}
use cs2_bot_identity.Examples.Data.{world, engine, draws, ann, bob, bots, roster-IsSound}
use cs2_bot_identity.Examples.Vote.{linux-IsLaidOut}

linux-IsSpaced : IsSpaced linux_offsets
linux-IsSpaced = record {
  laid = linux-IsLaidOut;
  fake_steam_id = inl (omega arith);
  fake_mirror = inl (omega arith);
  ids = inl (omega arith);
}

client-IsBytes : IsBytes (engine.heap 100)
client-IsBytes i = ground (arith)

controller-IsApart : IsApart engine 100
unfolding resolve_player_controller resolve_entity_instance bytes_eq get_entity_index read_le
controller-IsApart c e same =
    let found : some 200 ≡ some c = e in let c_is : 200 ≡ c = cc in omega arith

apply_disguise-IsDisguised_example :
    IsDisguised linux_offsets ((apply_disguise world (pos 0) 0 draws).engine.heap 100)
    × (read_steam_id linux_offsets ((apply_disguise world (pos 0) 0 draws).engine.heap 100) ≡ 7)
    × (get_elem? (apply_disguise world (pos 0) 0 draws).roster.bots 0
        ≡ some (record ann { slot = pos 0; applied = true }))
unfolding resolve_client_by_slot
apply_disguise-IsDisguised_example =
    apply_disguise-IsDisguised world (pos 0) 0 draws ann refl refl refl refl (omega arith) (λ e. cc)
      linux-IsSpaced client-IsBytes controller-IsApart

restore_identity-IsBot_example :
    IsBot linux_offsets ((restore_identity world (pos 0)).engine.heap 100)
unfolding resolve_client_by_slot
restore_identity-IsBot_example =
    restore_identity-IsBot world (pos 0) (λ e. cc) linux-IsSpaced client-IsBytes controller-IsApart

apply_disguise-Publishes_example :
    Publishes
      (λ i. 0)
      0
      (omega arith)
      ann
      (apply_disguise world (pos 0) 0 draws)
      (refuses world (pos 0) ann)
apply_disguise-Publishes_example =
    apply_disguise-Publishes world (λ i. 0) 0 (omega arith) 0 draws ann refl refl

finds : (get_free (is_slot_active engine) draws.pick bots).0 ≡ some 1
unfolding get_free count_free count_from is_free is_assignable is_name_in_use is_steam_id_in_use
    any_other pick_from is_slot_active
finds = refl

every_entry : AreWide bots
every_entry zero b at = let e : ann ≡ b = cc in subst (λ c. c.steam_id < 256 ^ 8) e (omega arith)
every_entry (suc zero) b at =
    let e : bob ≡ b = cc in subst (λ c. c.steam_id < 256 ^ 8) e (omega arith)
every_entry (suc (suc i)) b at = cc

admitted : Admits world 0 (codes "BOT Ann")
unfolding resolve_client_by_slot is_managed bytes_eq is_slot_active
admitted = record {
  active = refl;
  open_map = refl;
  closed = refl;
  inside = omega arith;
  free = refl;
  plays = refl;
  there = λ e. cc;
  spaced = linux-IsSpaced;
  bytes = client-IsBytes;
  apart = controller-IsApart;
  sound = roster-IsSound;
  wide = every_entry;
  others = λ m h. refl;
}

on_client_connected-Passes_example :
    Passes world 0 100 (on_client_connected world (pos 0) (codes "BOT Ann") 0 true draws)
unfolding resolve_client_by_slot
on_client_connected-Passes_example =
    on_client_connected-Passes world 0 (codes "BOT Ann") draws admitted 1 finds
