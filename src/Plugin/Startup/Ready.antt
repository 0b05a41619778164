-- ===== src/Plugin/Startup/Ready.antt =====
-- src/plugin.cpp, `BotIdentityPlugin::Load`: it returns whatever the files hold, and leaves a sound
-- state.
use cs2_bot_identity.Base.{
  ℕ, ◌≡◌, refl, sym, subst, ℤ, pos, Bool, true, false, not, ◌&&◌, ◌||◌, Option, none, some, Bytes,
  bytes_eq, codes, is_empty, if_keeps, for_slots_keeps,
}
use cs2_bot_identity.BotInfo.{max_slots}
use cs2_bot_identity.IdentityManager.{is_managed, initial}
use cs2_bot_identity.IdentityManager.Initial.{
  IsIdleList, initial-IsLinked, initial-unmanaged, idle-IsUnique,
}
use cs2_bot_identity.Loader.{Config, Outcome, unfinished, returned, load, load_features}
use cs2_bot_identity.Loader.Limits.{IsConfigured, Returns, load-Returns}
use cs2_bot_identity.Loader.Bots.{BotList, load_bots}
use cs2_bot_identity.Loader.Bots.Limits.{load_bots-Returns, IsLoaded-IsIdleList}
use cs2_bot_identity.Loader.Language.{BotListSelection, select_bot_list}
use cs2_bot_identity.Loader.Language.Choice.{IsChoice, select_bot_list-IsChoice}
use cs2_bot_identity.World.{World}
use cs2_bot_identity.VoteWindow.{reset_vote_transaction}
use cs2_bot_identity.MapGate.{release_one, release_managed_slots}
use cs2_bot_identity.MapGate.Keeps.{poll_keeps}
use cs2_bot_identity.Plugin.Connect.{IsSound}
use cs2_bot_identity.Plugin.Startup.{
  Host, open_region, plugin_file, fall_back, after_first, second_list, load_bot_list, load_engine,
  config_of, put_config, list_of, activate, load_lists, after_config, start_up,
}

-- A state to start from: the list is idle, no slot is managed, and the configuration is a valid one.
pub record IsFresh (w : World) : Type 0 where
  pub idle : IsIdleList w.roster.bots
  pub unmanaged : w.roster.manager ≡ initial
  pub configured : IsConfigured (config_of w)

-- What `Load` leaves.
pub record IsReady (w : World) : Type 0 where
  pub sound : IsSound w.roster
  pub unmanaged : (slot : ℤ) → is_managed w.roster.manager slot ≡ false
  pub configured : IsConfigured (config_of w)
  pub active : w.plugin_active ≡ true

-- The outcome of a loader is one with `P`, whatever it returned.
abbrev Leaves : {S : Type 0} → (S → Type 0) → Outcome S → Type 0
Leaves P o = Returns P P o

Returns-Leaves :
    {S : Type 0} (P Q R : S → Type 0) (o : Outcome S)
    → ((s : S) → P s → R s)
    → ((s : S) → Q s → R s)
    → Returns P Q o
    → Leaves R o
Returns-Leaves P Q R unfinished f g h = h
Returns-Leaves P Q R (returned false s) f g h = f s h
Returns-Leaves P Q R (returned true s) f g h = g s h

abbrev HasIdle : BotList → Type 0
HasIdle l = IsIdleList l.bots

load_bots-Leaves :
    (file : Option Bytes) (l : BotList) → HasIdle l → Leaves HasIdle (load_bots file l)
unfolding load_bots
load_bots-Leaves none l h = h
load_bots-Leaves (some json) l h =
    Returns-Leaves _ _ HasIdle (load_bots (some json) l) (λ l' e. subst HasIdle (sym e) h)
      IsLoaded-IsIdleList (load_bots-Returns json l)

load-Leaves :
    (flair_millis : Bytes → Bytes → ℕ) (file : Option Bytes) (c : Config)
    → IsConfigured c
    → Leaves IsConfigured (load flair_millis file c)
unfolding load
load-Leaves flair_millis none c h = h
load-Leaves flair_millis (some json) c h =
    Returns-Leaves _ _ IsConfigured (load flair_millis (some json) c)
      (λ c' e. subst IsConfigured (sym e) h) (λ c' g. g) (load-Returns flair_millis json c)

-- A result with `P`.
abbrev pub Gives : {S : Type 0} → (S → Type 0) → Option S → Type 0
Gives {S} P o = (s : S) × (o ≡ some s) × P s

load_bot_list-Gives :
    (h : Host) (sel : BotListSelection) (l : BotList)
    → HasIdle l
    → Gives HasIdle (load_bot_list h sel l)
unfolding load_bot_list after_first
load_bot_list-Gives h sel l idle =
    first (load_bots (h.files sel.absolute_path) l)
      (load_bots-Leaves (h.files sel.absolute_path) l idle)
  where
    second : (o : Outcome BotList) → Leaves HasIdle o → Gives HasIdle (second_list o)
    second unfinished e = absurd e
    second (returned false l') e = (l', refl, e)
    second (returned true l') e = (l', refl, e)

    again :
        (loaded : Bool) (l' : BotList)
        → HasIdle l'
        → Gives HasIdle (after_first h sel (returned loaded l'))
    again loaded l' e =
        let file = h.files (fall_back h.base_dir sel).absolute_path in
        if_keeps (Gives HasIdle)
          ((not loaded || is_empty l'.bots) && not (bytes_eq sel.matched (codes "default")))
          (second_list (load_bots file l')) (some l')
          (second (load_bots file l') (load_bots-Leaves file l' e)) (l', refl, e)

    first : (o : Outcome BotList) → Leaves HasIdle o → Gives HasIdle (after_first h sel o)
    first unfinished e = absurd e
    first (returned false l') e = again false l' e
    first (returned true l') e = again true l' e

released-IsReady : (w : World) → IsReady w → IsReady (release_managed_slots w)
unfolding release_managed_slots reset_vote_transaction release_one
released-IsReady w r =
    for_slots_keeps IsReady release_one (λ n u s. rw (s.unmanaged (pos n), release_one) s) max_slots
      0 (reset_vote_transaction w)
      (record {
        sound = r.sound;
        unmanaged = r.unmanaged;
        configured = r.configured;
        active = r.active;
      })

activate-IsReady :
    (h : Host) (w : World) (l : BotList) → IsFresh w → HasIdle l → IsReady (activate h w l)
unfolding activate
activate-IsReady h w l fresh idle =
    let stocked : World = record w {
      roster = record w.roster { bots = l.bots };
      plugin_active = true;
    } in
    poll_keeps IsReady
      (λ u map_name suspended r. record {
        sound = r.sound;
        unmanaged = r.unmanaged;
        configured = r.configured;
        active = r.active;
      })
      released-IsReady h.map_name h.addon stocked
      (record {
        sound =
            subst (λ m. IsSound (record { bots = l.bots; manager = m })) (sym fresh.unmanaged)
              (record {
                linked = initial-IsLinked l.bots idle;
                unique = idle-IsUnique l.bots idle;
              });
        unmanaged = λ slot. rw fresh.unmanaged (initial-unmanaged slot);
        configured = fresh.configured;
        active = refl;
      })

load_lists-Gives : (h : Host) (w : World) → IsFresh w → Gives IsReady (load_lists h w)
unfolding load_lists
load_lists-Gives h w fresh =
    chosen (select_bot_list h.files h.base_dir) (select_bot_list-IsChoice h.files h.base_dir)
  where
    chosen :
        (o : Option BotListSelection)
        → IsChoice h.base_dir o
        → Gives IsReady (elim o [
          | none ↦ none
          | some sel ↦ elim (load_bot_list h sel (list_of w)) [
            | none ↦ none
            | some l ↦ some (activate h w l)
          ]
        ])
    chosen none e = absurd e
    chosen (some sel) e =
        let (l, l_is, idle) = load_bot_list-Gives h sel (list_of w) fresh.idle in
        (activate h w l, rw l_is refl, activate-IsReady h w l fresh idle)

-- `Load` returns whatever the files hold and whatever is loaded into the process. Started from a fresh
-- state, it leaves the plugin at work with a sound roster of at most 256 identities, no slot managed,
-- a hold between 1 and 32 frames, and a blacklist with no token that is empty or has a blank at an
-- end.
pub start_up-IsReady : (h : Host) (w : World) → IsFresh w → Gives IsReady (start_up h w)
unfolding start_up after_config load_engine
start_up-IsReady h w fresh =
    configured (load_features h.flair_millis file (config_of engaged))
      (load-Leaves h.flair_millis file (config_of engaged) fresh.configured)
  where
    engaged : World
    engaged = load_engine h (record w { shm_view = open_region w.shm_view h.mapping })

    file : Option Bytes
    file = plugin_file h (codes "config.json")

    configured :
        (o : Outcome Config) → Leaves IsConfigured o → Gives IsReady (after_config h engaged o)
    configured unfinished e = absurd e
    configured (returned false c) e =
        load_lists-Gives h (put_config c engaged)
          (record { idle = fresh.idle; unmanaged = fresh.unmanaged; configured = e })
    configured (returned true c) e =
        load_lists-Gives h (put_config c engaged)
          (record { idle = fresh.idle; unmanaged = fresh.unmanaged; configured = e })
