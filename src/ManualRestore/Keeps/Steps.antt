-- ===== src/ManualRestore/Keeps/Steps.antt =====
-- dploydb/manual_restore.py: the steps that keep each steady fact.
use dploy_db.Base.{ℕ, String, refl, true, false, Option, none, some}
use dploy_db.Command.{enable_maintenance, disable_maintenance, TrafficHookResult}
use dploy_db.Errors.{DployDbError}
use dploy_db.Models.State.{OperationStatus, in_progress}
use dploy_db.Models.Manifest.{ProductionApplicationHandle, ReleaseManifest, ReleasePointers}
use dploy_db.Models.Operation.{Evidence, OperationManifest}
use dploy_db.Raised.{Raised}
use dploy_db.World.{World, Environment, restart, verify_sqlite, check_health, release_lock}
use dploy_db.Exec.Keeps.{
  Keeps, Keeps-pure, Keeps-raise, Keeps-bind, Keeps-gets, Keeps-try, keeps_rules,
}
use dploy_db.Exec.Quiet.{Keeps-silent_call}
use dploy_db.Operations
use dploy_db.Operations.Quiet as Trail
use dploy_db.Operations.Reads as Reading
use dploy_db.Deploy.Calm.{Keeps-require_some}
use dploy_db.Deploy.Release.{
  owner_left, refuse_latest, require_clean, release_and_raise, keep_original,
}
use dploy_db.ManualRestore.{
  RestoreSelection, require_selected, require_protected, select_applications, select_backup,
  preview_configured_restore,
}
use dploy_db.ManualRestore.Run.{
  restore_maintenance_failed, restore_maintenance_passed, enable_restore_maintenance, mark_failed,
  fail_in_progress, finish_restore_failure, prepare_restore, stop_selected, start_selected,
  require_restore_hook, expose,
}
use dploy_db.ManualRestore.Keeps.{
  Steady, Keeps-activate_release, Keeps-event, Keeps-inject, Keeps-inspect_application,
  Keeps-make_backup, Keeps-open_verified, Keeps-progress, Keeps-read_history, Keeps-read_manifest,
  Keeps-record_restore_hook, Keeps-run, Keeps-run_hook, Keeps-stage, Keeps-stop_current,
  Keeps-transition, reads, unaware,
}

module _ (env : Environment) (P : World → Type 0) (s : Steady P) where
  Keeps-restore_maintenance_failed :
      (id : ℕ) (r : TrafficHookResult) → Keeps P (restore_maintenance_failed env id r)
  unfolding restore_maintenance_failed
  Keeps-restore_maintenance_failed id r =
      Keeps-bind _ _ (Keeps-run_hook env P s disable_maintenance refl)
        λ c. search (keeps_rules, (Keeps-record_restore_hook env P s)) depth 9

  Keeps-restore_maintenance_passed :
      (id : ℕ) (r : TrafficHookResult) → Keeps P (restore_maintenance_passed env id r)
  unfolding restore_maintenance_passed
  Keeps-restore_maintenance_passed id r =
      Keeps-bind _ _ (Keeps-progress env P s _ (λ c. (refl, refl, refl)))
        (λ _. Keeps-stage env P s id _ _ _ _)

  Keeps-enable_restore_maintenance : (id : ℕ) → Keeps P (enable_restore_maintenance env id)
  unfolding enable_restore_maintenance
  Keeps-enable_restore_maintenance id =
      Keeps-bind _ _ (Keeps-run_hook env P s enable_maintenance refl) λ r.
        search
          (
            keeps_rules,
            (Keeps-record_restore_hook env P s),
            Keeps-restore_maintenance_failed,
            Keeps-restore_maintenance_passed,
          )
          depth 9

  Keeps-mark_failed : (id : ℕ) (e : DployDbError) → Keeps P (mark_failed env id e)
  unfolding mark_failed
  Keeps-mark_failed id e = search (keeps_rules, (Keeps-transition env P s))

  Keeps-fail_in_progress :
      (id : ℕ) (e : DployDbError) (t : OperationStatus) → Keeps P (fail_in_progress env id e t)
  unfolding fail_in_progress
  Keeps-fail_in_progress id e in_progress = Keeps-mark_failed id e
  Keeps-fail_in_progress id e _ = Keeps-pure tt

  pub Keeps-finish_restore_failure :
      (id : ℕ) (e : DployDbError) → Keeps P (finish_restore_failure env id e)
  unfolding finish_restore_failure
  Keeps-finish_restore_failure id e =
      Keeps-bind _ _ (Reading.Keeps-read_manifest env P (reads env P s) id)
        λ m. Keeps-fail_in_progress id e m.status

  pub Keeps-prepare_restore :
      (id : ℕ) (selection : RestoreSelection) → Keeps P (prepare_restore env id selection)
  unfolding prepare_restore
  Keeps-prepare_restore id selection =
      Keeps-bind _ _ (Keeps-inspect_application env P s _ true) λ _.
        Keeps-bind _ _ (Keeps-inspect_application env P s _ false) λ _.
          Keeps-bind _ _ (Keeps-event env P s id _) λ _.
            Keeps-bind _ _ (Keeps-enable_restore_maintenance id) λ _.
              Keeps-bind _ _ (Keeps-progress env P s _ (λ c. (refl, refl, refl))) λ _.
                Keeps-bind _ _ (Keeps-stop_current env P s _) λ _.
                  Keeps-bind _ _ (Keeps-progress env P s _ (λ c. (refl, refl, refl))) λ _.
                    Keeps-bind _ _ (Keeps-stage env P s id _ _ _ _) λ _.
                      Keeps-bind _ _ (Keeps-make_backup env P s id) λ b.
                        Keeps-bind _ _ (Keeps-progress env P s _ (λ c. (refl, refl, refl))) λ _.
                          Keeps-bind _ _ (Keeps-stage env P s id _ _ _ _)
                            λ _. Keeps-inject env P s _

  pub Keeps-expose : (id : ℕ) (selection : RestoreSelection) → Keeps P (expose env id selection)
  unfolding expose
  Keeps-expose id selection =
      Keeps-bind _ _ (Keeps-progress env P s _ (λ c. (refl, refl, refl))) λ _.
        Keeps-bind _ _ (Keeps-stage env P s id _ _ _ _) λ _.
          Keeps-bind _ _ (Keeps-run_hook env P s disable_maintenance refl) λ r.
            Keeps-bind _ _ (Keeps-record_restore_hook env P s id r) λ _.
              Keeps-bind _ _ (Keeps-gets _) λ c. Keeps-bind _ _ (search keeps_rules) λ _.
                Keeps-bind _ _ (Keeps-progress env P s _ (λ c. (refl, refl, refl))) λ _.
                  Keeps-bind _ _ (Keeps-inject env P s _) λ _.
                    search
                      (
                        keeps_rules,
                        (Keeps-activate_release env P s),
                        Keeps-require_some,
                        (Keeps-transition env P s),
                      )
                      depth 12

  pub Keeps-stop_selected :
      (id : ℕ) (selection : RestoreSelection) → Keeps P (stop_selected env id selection)
  unfolding stop_selected
  Keeps-stop_selected id selection =
      Keeps-bind _ _ (Keeps-stop_current env P s _)
        λ _. Keeps-progress env P s _ (λ c. (refl, refl, refl))

  pub Keeps-require_restore_hook :
      (id : ℕ) (selection : RestoreSelection) (r : TrafficHookResult) (failure : String)
      → Keeps P (require_restore_hook env id selection r failure)
  unfolding require_restore_hook
  Keeps-require_restore_hook id selection r failure =
      search (keeps_rules, (Keeps-record_restore_hook env P s))

  pub Keeps-start_selected :
      (id : ℕ) (selection : RestoreSelection) → Keeps P (start_selected env id selection)
  unfolding start_selected
  Keeps-start_selected id selection =
      Keeps-bind _ _ (Keeps-progress env P s _ (λ c. (refl, refl, refl))) λ _.
        Keeps-bind _ _ (Keeps-run env P s restart refl) λ _.
          Keeps-bind _ _ (Keeps-progress env P s _ (λ c. (refl, refl, refl))) λ _.
            Keeps-bind _ _ (Keeps-event env P s id _) λ _.
              Keeps-bind _ _ (Keeps-run env P s verify_sqlite refl) λ _.
                Keeps-bind _ _ (Keeps-run env P s check_health refl)
                  λ _. Keeps-bind _ _ (Keeps-stage env P s id _ _ _ _) λ _. Keeps-inject env P s _

  -- What the selection and the entry make of the lock and the stores.
  Keeps-owner_left : Keeps P (owner_left env)
  unfolding owner_left
  Keeps-owner_left = Keeps-silent_call P (reads env P s) _

  Keeps-refuse_latest : (o : Option OperationManifest) → Keeps P (refuse_latest env o)
  unfolding refuse_latest
  Keeps-refuse_latest none = Keeps-pure tt
  Keeps-refuse_latest (some m) = search keeps_rules

  pub Keeps-require_clean : Keeps P (require_clean env)
  unfolding require_clean
  Keeps-require_clean = Keeps-bind _ _ Keeps-owner_left λ left.
      Keeps-bind _ _ (search keeps_rules) λ _.
        Keeps-bind _ _ (Reading.Keeps-latest_operation env P (reads env P s)) Keeps-refuse_latest

  Keeps-require_selected : (o : Option ReleaseManifest) → Keeps P (require_selected env o)
  unfolding require_selected
  Keeps-require_selected none = Keeps-raise _
  Keeps-require_selected (some m) = Keeps-pure m

  Keeps-require_protected :
      (id : ℕ) (o : Option ReleasePointers) → Keeps P (require_protected env id o)
  unfolding require_protected
  Keeps-require_protected id none = Keeps-raise _
  Keeps-require_protected id (some p) = search keeps_rules

  Keeps-select_applications :
      (m : ReleaseManifest) (a b : Option ProductionApplicationHandle)
      → Keeps P (select_applications env m a b)
  unfolding select_applications
  Keeps-select_applications m none b = Keeps-raise _
  Keeps-select_applications m (some a) none = Keeps-raise _
  Keeps-select_applications m (some a) (some b) = search keeps_rules

  Keeps-select_backup : (m : ReleaseManifest) (a b : Option ℕ) → Keeps P (select_backup env m a b)
  unfolding select_backup
  Keeps-select_backup m none b = Keeps-raise _
  Keeps-select_backup m (some a) none = Keeps-raise _
  Keeps-select_backup m (some a) (some b) = search (keeps_rules, (Keeps-open_verified env P s))

  pub Keeps-preview : (id : ℕ) → Keeps P (preview_configured_restore env id)
  unfolding preview_configured_restore
  Keeps-preview id = Keeps-bind _ _ (Keeps-read_history env P s) λ history.
      Keeps-bind _ _ (Keeps-require_selected _) λ selected.
        Keeps-bind _ _ (Keeps-require_protected id _) λ p.
          Keeps-bind _ _ (Keeps-read_manifest env P s _) λ replaced.
            search (keeps_rules, Keeps-select_applications, Keeps-select_backup) depth 12

  pub Keeps-create_operation :
      (t name : String) (e : Evidence) → Keeps P (Operations.create_operation env t name e)
  Keeps-create_operation = Trail.Keeps-create_operation env P (unaware env P s)

  Keeps-keep_original : (e : Raised) → Keeps P (keep_original env e)
  unfolding keep_original
  Keeps-keep_original e = Keeps-pure tt

  pub Keeps-release_and_raise :
      {A : Type 0} (e : Raised) → Keeps P (release_and_raise env {A = A} e)
  unfolding release_and_raise
  Keeps-release_and_raise e =
      Keeps-bind _ _ (Keeps-try _ _ (Keeps-run env P s release_lock refl) Keeps-keep_original)
        (λ _. Keeps-raise e)
