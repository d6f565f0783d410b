-- ===== src/ManualRestore/Run.antt =====
-- dploydb/manual_restore.py: `restore_configured_release` and the steps and rollback under it.
use dploy_db.Base.{ℕ, String, Bool, true, false, not, ◌||◌, Option, none, some, if◌then◌else◌}
use dploy_db.Command.{
  enable_maintenance, disable_maintenance, activate_old, activate_new, TrafficHookResult, passed,
  hook_may_have_run,
}
use dploy_db.Errors.{DployDbError, new_error, recovery_required_error, operation_failed_error}
use dploy_db.Models.State.{OperationStatus, in_progress, succeeded, status_value}
use dploy_db.Models.Manifest.{ReleaseManifest, ReleasePointers}
use dploy_db.Models.Operation.{OperationManifest, Evidence, note}
use dploy_db.Raised.{Raised, dploydb, other_exception, base_exception}
use dploy_db.World.{
  Environment, BackupArtifact, pre_restore, RestoredDatabase, RestoreContext, new_restore,
  verify_sqlite, check_health, restart, acquire_lock, record_owner, release_lock,
}
use dploy_db.Exec.{Exec, pure, raise, gets, modify_restore, raise_if, when, try_except, ◌>>=◌, ◌>>◌}
use dploy_db.Calls.{
  run, run_hook, inject, make_backup, inspect_application, stop_current, restore_database,
}
use dploy_db.Releases.Store
use dploy_db.Operations
use dploy_db.Deploy.Report.{failure_record, operation_log}
use dploy_db.Deploy.Steps.{facts, hook_facts, require_some}
use dploy_db.Deploy.Finish.{failure_facts, failed_operation}
use dploy_db.Deploy.Release.{require_clean, release_and_raise}
use dploy_db.Recovery.Diagnose.{open_verified}
use dploy_db.ManualRestore.{
  RestoreSelection, preview_configured_restore, restore_hook_error, normalize_restore,
  needs_recovery_error,
}

-- `ManualRestoreResult`
pub record ManualRestoreResult : Type 0 where
  pub operation : OperationManifest
  pub selected_release : ReleaseManifest
  pub replaced_release : ReleaseManifest
  pub pre_restore_backup : BackupArtifact
  pub database_restore : RestoredDatabase
  pub pointers : ReleasePointers

abbrev pub restoring : Exec RestoreContext
restoring = gets (λ w. w.restoring)

module _ (env : Environment) (operation : ℕ) where
  -- An event of the operation.
  unfoldable pub event : String → Exec (Unit {0})
  event message = Operations.append_event env operation message note

  -- A stage of the operation.
  unfoldable pub stage : String → Evidence → Bool → Bool → Exec (Unit {0})
  stage name evidence changed running = do
    Operations.transition env operation in_progress name name evidence
        (some (facts changed (some running))) none
    pure tt

  -- `_record_restore_hook`
  unfoldable pub record_restore_hook : TrafficHookResult → Exec (Unit {0})
  record_restore_hook r =
      Operations.append_event env operation
        "Manual restore traffic hook reached a terminal outcome." (hook_facts r)

  -- The failed branch of `_enable_restore_maintenance`.
  unfoldable pub restore_maintenance_failed : TrafficHookResult → Exec (Unit {0})
  restore_maintenance_failed result = do
    cleanup ← run_hook env disable_maintenance
    record_restore_hook cleanup
    raise_if (not (passed cleanup)) (
        dploydb (
          new_error recovery_required_error
            "maintenance enable failed and cleanup could not be proven" false (some true)
            operation_log "Keep the current application running and disable maintenance."))
    c ← restoring
    raise (dploydb (restore_hook_error result c false))

  unfoldable pub restore_maintenance_passed : TrafficHookResult → Exec (Unit {0})
  restore_maintenance_passed result = do
    modify_restore (λ c. record c { maintenance_enabled = true })
    stage "manual_restore_maintenance_enabled" (hook_facts result) false true

  -- `_enable_restore_maintenance`
  unfoldable pub enable_restore_maintenance : Exec (Unit {0})
  enable_restore_maintenance = do
    result ← run_hook env enable_maintenance
    record_restore_hook result
    if not (passed result)
        then restore_maintenance_failed result
        else restore_maintenance_passed result

  unfoldable pub mark_failed : DployDbError → Exec (Unit {0})
  mark_failed e = do
    Operations.transition env operation (failed_operation e.payload.recovery_required)
        (status_value (failed_operation e.payload.recovery_required))
        "Manual restore did not complete." note (some (failure_facts e)) (some (failure_record e))
    pure tt

  -- `_finish_restore_failure` with the status that was read
  unfoldable pub fail_in_progress : DployDbError → OperationStatus → Exec (Unit {0})
  fail_in_progress e in_progress = mark_failed e
  fail_in_progress e _ = pure tt

  -- `_finish_restore_failure`
  unfoldable pub finish_restore_failure : DployDbError → Exec (Unit {0})
  finish_restore_failure e = do
    current ← Operations.read_manifest env operation
    fail_in_progress e current.status

  module _ (selection : RestoreSelection) where
    -- Up to the pre-restore backup.
    unfoldable pub prepare_restore : Exec (Unit {0})
    prepare_restore = do
      inspect_application env selection.current_application true
      inspect_application env selection.selected_application false
      event "Active and selected application identities were inspected."
      enable_restore_maintenance
      modify_restore (λ c. record c { current_stop_attempted = true })
      stop_current env selection.current_application
      modify_restore (λ c. record c { current_stopped = true })
      stage "manual_restore_current_app_stopped" note false false
      backup ← make_backup env pre_restore operation
      modify_restore (λ c. record c { pre_restore_backup = some backup })
      stage "manual_restore_prepared" note false false
      inject env "after_pre_restore_backup"

    -- The restart of the selected application, and the checks.
    unfoldable pub start_selected : Exec (Unit {0})
    start_selected = do
      modify_restore (λ c. record c { selected_restart_attempted = true })
      run env restart
      modify_restore (λ c. record c { selected_running = true })
      event "The selected previous application was restarted and inspected."
      run env verify_sqlite
      run env check_health
      stage "manual_restore_selected_healthy" note true true
      inject env "before_traffic_activation"

    -- The replacement of the database, and what follows it up to the exposure.
    unfoldable pub replace_database : Exec (Unit {0})
    replace_database = do
      stage "manual_restore_started" note true false
      c ← restoring
      backup ← require_some c.selected_backup
      restored ← restore_database env backup
      modify_restore (λ c. record c { database_restore = some restored })
      modify_restore (λ c. record c { database_replaced = true })
      event "The selected previous database was restored and verified."
      inject env "after_database_restore"
      start_selected

    unfoldable pub selection_failed : TrafficHookResult → Exec (Unit {0})
    selection_failed result = do
      modify_restore (λ c. record c { traffic_activation_attempted = hook_may_have_run result })
      c ← restoring
      raise (dploydb (restore_hook_error result c false))

    -- The hook that sends traffic to the selected release.
    unfoldable pub select_traffic : Exec (Unit {0})
    select_traffic = do
      modify_restore (λ c. record c { traffic_activation_attempted = true })
      stage "manual_restore_traffic_activation_started" note true true
      old_target ← run_hook env activate_old
      record_restore_hook old_target
      if not (passed old_target)
          then selection_failed old_target
          else stage "manual_restore_traffic_target_selected" (hook_facts old_target) true true

    -- The end of maintenance, the pointers and the terminal record.
    unfoldable pub expose : Exec ManualRestoreResult
    expose = do
      modify_restore (λ c. record c { normal_traffic_may_be_enabled = true })
      stage "manual_restore_maintenance_disable_started" note true true
      maintenance_off ← run_hook env disable_maintenance
      record_restore_hook maintenance_off
      c ← restoring
      raise_if (not (passed maintenance_off)) (dploydb (restore_hook_error maintenance_off c true))
      modify_restore (λ c. record c { maintenance_enabled = false })
      inject env "after_traffic_activation"
      pointers ← Store.activate_release env selection.selected_release.release_id
      c ← restoring
      backup ← require_some c.pre_restore_backup
      restored ← require_some c.database_restore
      completed ←
          Operations.transition env operation succeeded "manual_restore_completed"
            "The protected previous release is active and verified." note
            (some (facts true (some true))) none
      pure (record {
        operation = completed;
        selected_release = selection.selected_release;
        replaced_release = selection.active_release;
        pre_restore_backup = backup;
        database_restore = restored;
        pointers = pointers;
      })

    -- The body of the `try`.
    unfoldable pub restore_forward : Exec ManualRestoreResult
    restore_forward = do prepare_restore; replace_database; select_traffic; expose

    unfoldable pub stop_selected : Exec (Unit {0})
    stop_selected = do
      stop_current env selection.selected_application
      modify_restore (λ c. record c { selected_running = false })

    unfoldable pub put_back : Option BackupArtifact → Exec (Unit {0})
    put_back none = raise (other_exception "pre-restore backup identity is unavailable")
    put_back (some backup) = do restore_database env backup; pure tt

    unfoldable pub require_restore_hook : TrafficHookResult → String → Exec (Unit {0})
    require_restore_hook result failure = do
      record_restore_hook result
      raise_if (not (passed result)) (other_exception failure)

    -- The body of the `try` of `_rollback_manual_restore`.
    unfoldable pub undo_restore : Exec (Unit {0})
    undo_restore = do
      c ← restoring
      when c.selected_running stop_selected
      when c.database_replaced (put_back c.pre_restore_backup)
      when c.current_stopped (run env restart)
      current_target ← run_hook env activate_new
      require_restore_hook current_target "current traffic target could not be restored"
      maintenance_off ← run_hook env disable_maintenance
      require_restore_hook maintenance_off
          "maintenance could not be disabled after restore rollback"
      run env check_health
      run env verify_sqlite

    unfoldable pub undo_failed : Raised → Exec (Unit {0})
    undo_failed (base_exception t) = raise (base_exception t)
    undo_failed _ = do
      c ← restoring
      raise (
          dploydb (
            new_error recovery_required_error
              "manual restore failed and the original release could not be proven restored"
              c.database_replaced (some false) operation_log
              "Keep maintenance enabled and restore the recorded pre-restore backup and active application manually."))

    -- `_rollback_manual_restore`
    unfoldable pub rollback_manual_restore : Exec DployDbError
    rollback_manual_restore = do
      try_except undo_restore undo_failed
      c ← restoring
      pure (
          new_error operation_failed_error
            "manual restore did not complete; the original database and application were restored and verified"
            c.database_replaced (some true) operation_log
            "Inspect the restore log, correct the failure, and request restore again.")

    unfoldable pub finish_and_raise : DployDbError → Exec ManualRestoreResult
    finish_and_raise e = do finish_restore_failure e; raise (dploydb e)

    unfoldable pub rollback_raised : Raised → Exec DployDbError
    rollback_raised (dploydb e) = do finish_restore_failure e; raise (dploydb e)
    rollback_raised raw = raise raw

    unfoldable pub roll_back_restore : Exec ManualRestoreResult
    roll_back_restore = do
      rolled_back ← try_except rollback_manual_restore rollback_raised
      finish_and_raise rolled_back

    -- The handler of the `try`, with the context that it reads.
    unfoldable pub settle_restore :
        RestoreContext → Option DployDbError → Raised → Exec ManualRestoreResult
    settle_restore c none raw = raise raw
    settle_restore c (some e) raw =
        if e.payload.recovery_required || c.traffic_activation_attempted
          || c.normal_traffic_may_be_enabled
        then finish_and_raise (needs_recovery_error c)
        else roll_back_restore

    unfoldable pub restore_failed : Raised → Exec ManualRestoreResult
    restore_failed raw = do c ← restoring; settle_restore c (normalize_restore c raw) raw

    -- `_run_manual_restore`
    unfoldable pub run_manual_restore : Exec ManualRestoreResult
    run_manual_restore = try_except restore_forward restore_failed

    -- The verified backup is opened for the run.
    unfoldable pub restore_from_backup : Exec ManualRestoreResult
    restore_from_backup = do
      backup ← open_verified env selection.selected_backup_metadata.backup_id
      modify_restore (λ c. record c { selected_backup = some backup })
      run_manual_restore

  unfoldable pub unexpected_restore : RestoreContext → DployDbError
  unexpected_restore c =
      new_error recovery_required_error "manual restore coordinator failed unexpectedly"
        c.database_replaced (if c.current_stopped then some false else none) operation_log
        "Keep maintenance enabled, preserve the pre-restore backup and operation evidence, and inspect both recorded applications."

  -- `except DployDBError` and `except Exception`
  unfoldable pub configured_restore_failed : Raised → Exec ManualRestoreResult
  configured_restore_failed (dploydb e) = do finish_restore_failure e; raise (dploydb e)
  configured_restore_failed (base_exception t) = raise (base_exception t)
  configured_restore_failed _ = do
    c ← restoring
    finish_restore_failure (unexpected_restore c)
    raise (dploydb (unexpected_restore c))

module _ (env : Environment) where
  -- The body of `with lock:`.
  unfoldable pub locked_restore : ℕ → Exec ManualRestoreResult
  locked_restore id = do
    require_clean env
    selection ← preview_configured_restore env id
    operation ← Operations.create_operation env "restore" "restore_previewed" note
    run env record_owner
    modify_restore (λ _. new_restore)
    try_except (restore_from_backup env operation.operation_id selection)
        (configured_restore_failed env operation.operation_id)

  -- `restore_configured_release`
  unfoldable pub restore_configured_release : ℕ → Exec ManualRestoreResult
  restore_configured_release id = do
    run env acquire_lock
    result ← try_except (locked_restore id) (release_and_raise env)
    run env release_lock
    pure result
