-- ===== src/Tests/Cutovers.antt =====
-- The stages of the cut-over, and failures.
use dploy_db.Base.{◌⊎◌, ◌||◌, ◌≡◌, ◌↔◌, refl, Option, none, some, true, false}
use dploy_db.Raised.{Raised, raised, other_exception}
use dploy_db.Command.{CommandResult, start_failed}
use dploy_db.Exec.{pure}
use dploy_db.World.{Context, final}
use dploy_db.Exec.{◌>>=◌, try_except, try_finally}
use dploy_db.Calls.{
  run, run_command, run_hook, inject, make_backup, check_backup, replicate_backup,
  inspect_application, discover_current, stop_current, start_new, restore_database,
}
use dploy_db.Cutover.{
  same_handle, complete_success, is_final, same_metadata, same_artifact, migration_may_have_changed,
  unusable_migration, not_proven_stopped, require_stopped, verification_failed, verify_final_backup,
  create_final, sink_failed, raise_some, check_failed, migrate_database, restore_final,
}
use dploy_db.Command.{
  outcome_index, outcome_is, valid_output, valid_result, output_complete, passed, hook_may_have_run,
}
use dploy_db.Errors.{
  exit_value, kind_value, error_exit_code, error_kind, requires_recovery, new_error, exit_code,
  redact_error,
}
use dploy_db.Deploy.Report.{
  failure_record, or_log, proven, cleanup_failed_in, normalize, hook_description, hook_error,
  incomplete_logs,
}
use dploy_db.Cutover.Laws.{
  Migrated, unusable_migration-usable, create_final-proved, migrate_database-proved, FinalBackup,
}
use dploy_db.Deploy.Journal.{restored_in}
use dploy_db.Cutover.Restoring.{RestoreOk, restore_final-guarded}
use dploy_db.Deploy.Report.Laws.{normalize-production_changed, normalize-never_running, not_running}
use dploy_db.Errors.{DployDbError, lock_unavailable_error}
use dploy_db.Tests.Data.{outside, start, good_command, stopped_application, backup, fresh_context}

-- A command whose program is missing.
abbrev missing : CommandResult
missing = record good_command {
  outcome = start_failed;
  exit_code = none;
  start_error = some "no such file";
}

unusable_migration-usable_example :
    (unusable_migration missing none ≡ none) ↔ (complete_success missing ≡ true)
unusable_migration-usable_example = unusable_migration-usable missing none

abbrev error_of : Option DployDbError → DployDbError
error_of none = new_error lock_unavailable_error "" false none none ""
error_of (some e) = e

create_final-proved_example :
    ((not_proven_stopped outside stopped_application ≡ true)
      × ((e : Raised) × (create_final outside 3 stopped_application start ≡ (raised e, start))))
    ⊎ ((not_proven_stopped outside stopped_application ≡ false)
        × FinalBackup 3 (create_final outside 3 stopped_application start).0)
create_final-proved_example = create_final-proved outside 3 stopped_application start

migrate_database-proved_example :
    (not_proven_stopped outside stopped_application ≡ false) × (false ≡ false) × Migrated outside
unfolding ◌>>=◌ try_except try_finally run run_command run_hook inject make_backup check_backup
    replicate_backup inspect_application discover_current stop_current start_new restore_database
    same_handle complete_success is_final same_metadata same_artifact migration_may_have_changed
    unusable_migration not_proven_stopped require_stopped verification_failed verify_final_backup
    create_final sink_failed raise_some check_failed migrate_database restore_final outcome_index
    outcome_is valid_output valid_result output_complete passed hook_may_have_run exit_value
    kind_value error_exit_code error_kind requires_recovery new_error exit_code redact_error
    failure_record or_log proven cleanup_failed_in normalize hook_description hook_error
    incomplete_logs
migrate_database-proved_example =
    migrate_database-proved outside 3 stopped_application (backup final 3) false (pure tt) start
      (migrate_database outside 3 stopped_application (backup final 3) false (pure tt) start).1 refl

restore_final-guarded_example :
    (((not_proven_stopped outside stopped_application || false) ≡ true)
      × ((e : Raised) × (restore_final outside 3 stopped_application (backup final 3) false start
            ≡ (raised e, start))))
    ⊎ ((not_proven_stopped outside stopped_application ≡ false)
        × (false ≡ false)
        × RestoreOk outside start.journal 3
            (backup final 3)
            (restore_final outside 3 stopped_application (backup final 3) false start).1)
unfolding restored_in
restore_final-guarded_example =
    restore_final-guarded outside 3 stopped_application (backup final 3) false start refl

-- The migration is under way.
abbrev migrating : Context
migrating = record fresh_context { production_may_have_changed = true; maintenance_enabled = true }

normalize-production_changed_example :
    (error_of (normalize migrating (other_exception "disk"))).payload.production_changed ≡ true
unfolding ◌>>=◌ try_except try_finally run run_command run_hook inject make_backup check_backup
    replicate_backup inspect_application discover_current stop_current start_new restore_database
    same_handle complete_success is_final same_metadata same_artifact migration_may_have_changed
    unusable_migration not_proven_stopped require_stopped verification_failed verify_final_backup
    create_final sink_failed raise_some check_failed migrate_database restore_final outcome_index
    outcome_is valid_output valid_result output_complete passed hook_may_have_run exit_value
    kind_value error_exit_code error_kind requires_recovery new_error exit_code redact_error
    failure_record or_log proven cleanup_failed_in normalize hook_description hook_error
    incomplete_logs
normalize-production_changed_example =
    normalize-production_changed migrating (other_exception "disk")
      (error_of (normalize migrating (other_exception "disk"))) refl refl

normalize-never_running_example :
    not_running
      (error_of (normalize migrating (other_exception "disk"))).payload.previous_application_running
    ≡ true
unfolding ◌>>=◌ try_except try_finally run run_command run_hook inject make_backup check_backup
    replicate_backup inspect_application discover_current stop_current start_new restore_database
    same_handle complete_success is_final same_metadata same_artifact migration_may_have_changed
    unusable_migration not_proven_stopped require_stopped verification_failed verify_final_backup
    create_final sink_failed raise_some check_failed migrate_database restore_final outcome_index
    outcome_is valid_output valid_result output_complete passed hook_may_have_run exit_value
    kind_value error_exit_code error_kind requires_recovery new_error exit_code redact_error
    failure_record or_log proven cleanup_failed_in normalize hook_description hook_error
    incomplete_logs
normalize-never_running_example =
    normalize-never_running migrating (other_exception "disk")
      (error_of (normalize migrating (other_exception "disk"))) refl refl
