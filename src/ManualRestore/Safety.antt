-- ===== src/ManualRestore/Safety.antt =====
-- dploydb/manual_restore.py never restores the database after the hook that sends traffic to the
-- selected release may have run: for every behaviour of the outside, failures included.
pub mod Watch
use dploy_db.Base.{
  ℕ, ◌≡◌, refl, Bool, true, false, not, ◌&&◌, ◌||◌, Option, none, some, List, [], ◌∷◌, sym,
  if◌then◌else◌, arith,
}
use dploy_db.Command.{
  TrafficAction, activate_old, activate_new, disable_maintenance, TrafficHookResult, passed,
  hook_may_have_run,
}
use dploy_db.Errors.{DployDbError}
use dploy_db.Raised.{Raised, dploydb, base_exception, Outcome, returned, raised}
use dploy_db.World.{
  World, Environment, RestoreContext, BackupArtifact, Call, silent, ran, hook, restore, Action,
  verify_sqlite, check_health, restart, acquire_lock, record_owner, release_lock,
}
use dploy_db.Exec.{Exec}
use dploy_db.Exec.Keeps.{
  Keeps, Post, Triple, Triple-bind, Triple-ask, Triple-gets, Triple-modify_restore, Triple-if,
  Triple-try, Triple-weaken, Triple-raise, Keeps-bind, Keeps-gets, Keeps-raise, Keeps-pure,
  Keeps-try, Keeps-when, keeps_rules,
}
use dploy_db.Calls.{ran_entry, hook_entry, run_hook, restore_database}
use dploy_db.Deploy.Journal.{is_database_restore}
use dploy_db.Deploy.Steps.{hook_facts}
use dploy_db.Deploy.Calm.{is_restore, Keeps-require_some}
use dploy_db.ManualRestore.{RestoreSelection, normalize_restore, needs_recovery_error}
use dploy_db.ManualRestore.Run.{
  ManualRestoreResult, replace_database, select_traffic, selection_failed, restore_forward,
  put_back, undo_restore, undo_failed, rollback_manual_restore, finish_and_raise, rollback_raised,
  roll_back_restore, settle_restore, restore_failed, run_manual_restore, restore_from_backup,
  configured_restore_failed, locked_restore, restore_configured_release, record_restore_hook, stage,
}
use dploy_db.ManualRestore.Keeps.{
  Steady, is_old_target, Keeps-run, Keeps-run_hook, Keeps-inject, Keeps-progress,
  Keeps-open_verified, Keeps-stage, Keeps-event, Keeps-record_restore_hook,
}
use dploy_db.ManualRestore.Keeps.Steps.{
  Keeps-finish_restore_failure, Keeps-prepare_restore, Keeps-expose, Keeps-stop_selected,
  Keeps-require_restore_hook, Keeps-start_selected, Keeps-require_clean, Keeps-preview,
  Keeps-create_operation, Keeps-release_and_raise,
}
use dploy_db.ManualRestore.Safety.Watch.{
  Armed, Fired, Guarded, Guarded-Steady, Recorded, Unexposed, carried, covered, exposed_in,
  guard_cons, hidden, kept, may_expose, not_exposing, not_restore, restored_unexposed,
  restores_before_exposure,
}

-- The parts of a restore that run before the exposure.
module _ (env : Environment) (id : ℕ) (selection : RestoreSelection) where
  Keeps-restore_database : (b : BackupArtifact) → Keeps (Guarded Unexposed) (restore_database env b)
  unfolding restore_database
  Keeps-restore_database b =
      Triple-ask _ (ran_entry restore) (λ w _ p _. restored_unexposed w true p)
        (λ w _ p. restored_unexposed w false p)

  Keeps-replace_database : Keeps (Guarded Unexposed) (replace_database env id selection)
  unfolding replace_database
  Keeps-replace_database = Keeps-bind _ _ (Keeps-stage env _ hidden id _ _ _ _) λ _.
      Keeps-bind _ _ (Keeps-gets _) λ c. Keeps-bind _ _ (Keeps-require_some _) λ b.
        Keeps-bind _ _ (Keeps-restore_database b) λ r.
          Triple-bind (λ _. Guarded Unexposed) _ _ (Triple-modify_restore _ (λ w h. h))
            λ _. Keeps-bind _ _ (Keeps-progress env _ hidden _ (λ c. (refl, refl, refl))) λ _.
              Keeps-bind _ _ (Keeps-event env _ hidden id _) λ _.
                Keeps-bind _ _ (Keeps-inject env _ hidden _)
                  λ _. Keeps-start_selected env _ hidden id selection

  Keeps-put_back :
      (o : Option BackupArtifact) → Keeps (Guarded Unexposed) (put_back env id selection o)
  unfolding put_back
  Keeps-put_back none = Keeps-raise _
  Keeps-put_back (some b) = Keeps-bind _ _ (Keeps-restore_database b) (λ _. Keeps-pure tt)

  Keeps-undo_restore : Keeps (Guarded Unexposed) (undo_restore env id selection)
  unfolding undo_restore
  Keeps-undo_restore = Keeps-bind _ _ (Keeps-gets _) λ c.
      Keeps-bind _ _ (Keeps-when _ _ (Keeps-stop_selected env _ hidden id selection)) λ _.
        Keeps-bind _ _ (Keeps-when _ _ (Keeps-put_back _)) λ _.
          Keeps-bind _ _ (Keeps-when _ _ (Keeps-run env _ hidden restart refl)) λ _.
            Keeps-bind _ _ (Keeps-run_hook env _ hidden activate_new refl) λ r.
              Keeps-bind _ _ (Keeps-require_restore_hook env _ hidden id selection r _) λ _.
                Keeps-bind _ _ (Keeps-run_hook env _ hidden disable_maintenance refl) λ r.
                  Keeps-bind _ _ (Keeps-require_restore_hook env _ hidden id selection r _) λ _.
                    Keeps-bind _ _ (Keeps-run env _ hidden check_health refl)
                      λ _. Keeps-run env _ hidden verify_sqlite refl

  Keeps-undo_failed : (e : Raised) → Keeps (Guarded Unexposed) (undo_failed env id selection e)
  unfolding undo_failed
  Keeps-undo_failed (base_exception t) = Keeps-raise _
  Keeps-undo_failed _ = Keeps-bind _ _ (Keeps-gets _) (λ c. Keeps-raise _)

  Keeps-rollback : Keeps (Guarded Unexposed) (rollback_manual_restore env id selection)
  unfolding rollback_manual_restore
  Keeps-rollback =
      Keeps-bind _ _ (Keeps-try _ _ Keeps-undo_restore Keeps-undo_failed)
        λ _. Keeps-bind _ _ (Keeps-gets _) (λ c. Keeps-pure _)

  fire_hook :
      Triple (Guarded Armed) (run_hook env activate_old) (λ r. Guarded (Fired r)) (Guarded Recorded)
  unfolding run_hook restores_before_exposure exposed_in is_database_restore may_expose
  fire_hook =
      Triple-ask _ (hook_entry activate_old) (λ w r h _. ground arith) (λ w _ h. ground arith)

  -- A hook that cannot have run leaves nothing exposed.
  failed_selection :
      (r : TrafficHookResult)
      → Triple
          (Guarded (Fired r))
          (selection_failed env id selection r)
          (λ _. Guarded Recorded)
          (Guarded Recorded)
  unfolding selection_failed
  failed_selection r =
      Triple-bind (λ _. Guarded Recorded) _ _ (Triple-modify_restore _ (λ w h. (h.0, h.1.1)))
        λ _. Keeps-bind _ _ (Keeps-gets _) λ c. Keeps-raise _

  Armed-Recorded : (a s : Bool) → Armed a s → Recorded a s
  Armed-Recorded a s (none_yet, tried) = λ _. none_yet

  Fired-Recorded : (r : TrafficHookResult) (a s : Bool) → Fired r a s → Recorded a s
  Fired-Recorded r a s (tried, _) = ground arith

  exposure :
      Triple
        (Guarded Unexposed)
        (select_traffic env id selection)
        (λ _. Guarded Recorded)
        (Guarded Recorded)
  unfolding select_traffic
  exposure =
      Triple-bind (λ _. Guarded Armed) _ _ (Triple-modify_restore _ (λ w h. (h.0, (h.1, refl))))
        λ _.
          Triple-bind (λ _. Guarded Armed) _ _
            (kept Armed Recorded Armed-Recorded
              (Keeps-stage env _ (Guarded-Steady Armed) id _ _ _ _))
            λ _.
              Triple-bind (λ r. Guarded (Fired r)) _ _ fire_hook
                λ r.
                  Triple-bind (λ _. Guarded (Fired r)) _ _
                    (kept (Fired r) Recorded (Fired-Recorded r)
                      (Keeps-record_restore_hook env _ (Guarded-Steady (Fired r)) id r))
                    λ _. Triple-if _ _ _ (λ _. failed_selection r) (λ _. passed_selection r)
    where
      passed_selection :
          (r : TrafficHookResult)
          → Triple
              (Guarded (Fired r))
              (stage env id "manual_restore_traffic_target_selected" (hook_facts r) true true)
              (λ _. Guarded Recorded)
              (Guarded Recorded)
      passed_selection r =
          Triple-weaken (Guarded Recorded) (λ _. Guarded Recorded) (Guarded Recorded)
            (λ w h. (h.0, Fired-Recorded r _ _ h.1)) (λ a w h. h) (λ w h. h)
            (Keeps-stage env _ covered id _ _ _ _)

  before :
      {A : Type 0} {m : Exec A}
      → Keeps (Guarded Unexposed) m
      → Triple (Guarded Unexposed) m (λ _. Guarded Unexposed) (Guarded Recorded)
  before k = kept Unexposed Recorded (λ a s h _. h) k

  forward :
      Triple
        (Guarded Unexposed)
        (restore_forward env id selection)
        (λ _. Guarded Recorded)
        (Guarded Recorded)
  unfolding restore_forward
  forward =
      Triple-bind (λ _. Guarded Unexposed) _ _
        (before (Keeps-prepare_restore env _ hidden id selection))
        λ _.
          Triple-bind (λ _. Guarded Unexposed) _ _ (before Keeps-replace_database)
            λ _.
              Triple-bind (λ _. Guarded Recorded) _ _ exposure
                λ _. Keeps-expose env _ covered id selection

  -- The handler has read the context `c`, and nothing has changed it since.
  abbrev Seen : RestoreContext → World → Type 0
  Seen c w = Guarded Recorded w × (w.restoring ≡ c)

  Keeps-finish_and_raise :
      (P : World → Type 0) (s : Steady P) (e : DployDbError)
      → Keeps P (finish_and_raise env id selection e)
  unfolding finish_and_raise
  Keeps-finish_and_raise P s e =
      Keeps-bind _ _ (Keeps-finish_restore_failure env P s id e) (λ _. Keeps-raise _)

  Keeps-rollback_raised :
      (e : Raised) → Keeps (Guarded Unexposed) (rollback_raised env id selection e)
  unfolding rollback_raised
  Keeps-rollback_raised (dploydb e) =
      Keeps-bind _ _ (Keeps-finish_restore_failure env _ hidden id e) (λ _. Keeps-raise _)
  Keeps-rollback_raised _ = Keeps-raise _

  Keeps-roll_back : Keeps (Guarded Unexposed) (roll_back_restore env id selection)
  unfolding roll_back_restore
  Keeps-roll_back =
      Keeps-bind _ _ (Keeps-try _ _ Keeps-rollback Keeps-rollback_raised)
        (λ e. Keeps-finish_and_raise _ hidden e)

  no_attempt : (a b c : Bool) → (a || b || c) ≡ false → b ≡ false
  no_attempt a b c h = ground arith

  -- Only a context without an attempt leads to a rollback.
  brought_back :
      (c : RestoreContext)
      → c.traffic_activation_attempted ≡ false
      → Triple
          (Seen c)
          (roll_back_restore env id selection)
          (λ _. Guarded Recorded)
          (Guarded Recorded)
  brought_back c untried =
      Triple-weaken (Guarded Unexposed) (λ _. Guarded Unexposed) (Guarded Unexposed)
        (λ w h. (h.0.0, h.0.1 (rw h.1 untried))) (λ a w h. (h.0, λ _. h.1)) (λ w h. (h.0, λ _. h.1))
        Keeps-roll_back

  settled :
      (c : RestoreContext) (o : Option DployDbError) (raw : Raised)
      → Triple
          (Seen c)
          (settle_restore env id selection c o raw)
          (λ _. Guarded Recorded)
          (Guarded Recorded)
  unfolding settle_restore
  settled c none raw = Triple-raise _ (λ w h. h.0)
  settled c (some e) raw =
      Triple-if
        (e.payload.recovery_required || c.traffic_activation_attempted
          || c.normal_traffic_may_be_enabled)
        (finish_and_raise env id selection (needs_recovery_error c))
        (roll_back_restore env id selection)
        (λ _.
          Triple-weaken (Guarded Recorded) (λ _. Guarded Recorded) (Guarded Recorded) (λ w h. h.0)
            (λ a w h. h) (λ w h. h) (Keeps-finish_and_raise _ covered (needs_recovery_error c)))
        (λ calm. brought_back c (
          no_attempt e.payload.recovery_required c.traffic_activation_attempted
            c.normal_traffic_may_be_enabled calm))

  whole :
      Triple
        (Guarded Unexposed)
        (run_manual_restore env id selection)
        (λ _. Guarded Recorded)
        (Guarded Recorded)
  unfolding run_manual_restore restore_failed
  whole =
      Triple-try (Guarded Recorded) _ _ forward
        λ raw. Triple-bind Seen _ _ (Triple-gets _ (λ w h. (h, refl))) λ c. settled c _ raw

  opened_restore :
      Triple
        (Guarded Unexposed)
        (restore_from_backup env id selection)
        (λ _. Guarded Recorded)
        (Guarded Recorded)
  unfolding restore_from_backup
  opened_restore =
      Triple-bind (λ _. Guarded Unexposed) _ _ (before (Keeps-open_verified env _ hidden _))
        λ b.
          Triple-bind (λ _. Guarded Unexposed) _ _ (Triple-modify_restore _ (λ w h. h)) λ _. whole

module _ (env : Environment) where
  Keeps-configured_restore_failed :
      (id : ℕ) (e : Raised) → Keeps (Guarded Recorded) (configured_restore_failed env id e)
  unfolding configured_restore_failed
  Keeps-configured_restore_failed id (dploydb e) =
      Keeps-bind _ _ (Keeps-finish_restore_failure env _ covered id e) (λ _. Keeps-raise _)
  Keeps-configured_restore_failed id (base_exception t) = Keeps-raise _
  Keeps-configured_restore_failed id _ =
      Keeps-bind _ _ (Keeps-gets _)
        λ c. Keeps-bind _ _ (Keeps-finish_restore_failure env _ covered id _) (λ _. Keeps-raise _)

  early :
      {A : Type 0} {m : Exec A}
      → Keeps (Guarded Unexposed) m
      → Triple (Guarded Unexposed) m (λ _. Guarded Unexposed) (Guarded Recorded)
  early k = kept Unexposed Recorded (λ a s h _. h) k

  locked :
      (id : ℕ)
      → Triple
          (Guarded Unexposed)
          (locked_restore env id)
          (λ _. Guarded Recorded)
          (Guarded Recorded)
  unfolding locked_restore
  locked id = Triple-bind _ _ _ (early (Keeps-require_clean env _ hidden)) λ _.
      Triple-bind _ _ _ (early (Keeps-preview env _ hidden id)) λ selection.
        Triple-bind _ _ _ (early (Keeps-create_operation env _ hidden _ _ _)) λ o.
          Triple-bind _ _ _ (early (Keeps-run env _ hidden record_owner refl)) λ _.
            Triple-bind (λ _. Guarded Unexposed) _ _ (Triple-modify_restore _ (λ w h. h))
              λ _.
                Triple-try (Guarded Recorded) _ _ (opened_restore env o.operation_id selection)
                  (Keeps-configured_restore_failed o.operation_id)

  restored :
      (id : ℕ)
      → Triple
          (Guarded Unexposed)
          (restore_configured_release env id)
          (λ _. Guarded Recorded)
          (Guarded Recorded)
  unfolding restore_configured_release
  restored id = Triple-bind _ _ _ (early (Keeps-run env _ hidden acquire_lock refl)) λ _.
      Triple-bind (λ _. Guarded Recorded) _ _
        (Triple-try (Guarded Recorded) _ _ (locked id) (Keeps-release_and_raise env _ covered))
        λ r. Keeps-bind _ _ (Keeps-run env _ covered release_lock refl) (λ _. Keeps-pure r)

at_the_end :
    {A : Type 0} (x : Outcome A × World)
    → Post (λ _. Guarded Recorded) (Guarded Recorded) x
    → restores_before_exposure x.1.journal ≡ true
at_the_end (returned a, w) h = h.0
at_the_end (raised e, w) h = h.0

-- Whatever the outside answers and wherever the run fails: a manual restore that starts with a journal
-- without an exposure never restores the database, forward or in its rollback, after the hook that
-- sends traffic to the selected release may have run.
pub restore_configured_release-restores_before_exposure :
    (env : Environment) (id : ℕ) (w : World)
    → restores_before_exposure w.journal ≡ true
    → exposed_in w.journal ≡ false
    → restores_before_exposure (restore_configured_release env id w).1.journal ≡ true
restore_configured_release-restores_before_exposure env id w safe fresh =
    at_the_end (restore_configured_release env id w) ((restored env id).at w (safe, fresh))
