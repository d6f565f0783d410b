-- ===== src/Cutover.antt =====
-- dploydb/cutover.py: the final backup of a stopped application, the migration of the production
-- database, and its restore. Making and verifying a backup, running a command, checking a database
-- and replacing it are calls of the outside.
pub mod Laws
pub mod Restoring
use text.Mathlib.Text.{◌==◌ as str_eq}
use dploy_db.Base.{
  ℕ, String, Bool, true, false, not, ◌&&◌, ◌||◌, Option, none, some, ◌==◌, if◌then◌else◌, is_some,
  option_eq,
}
use dploy_db.Command.{
  CommandOutcome, succeeded, nonzero_exit, start_failed, timed_out, cancelled, cleanup_failed,
  outcome_is, CommandResult, output_complete,
}
use dploy_db.Errors.{
  DployDbError, new_error, safety_check_error, external_command_error, operation_failed_error,
  recovery_required_error,
}
use dploy_db.Models.Manifest.{ProductionApplicationHandle, Source, bootstrap, release}
use dploy_db.Raised.{Raised, dploydb, base_exception, Outcome, returned, raised}
use dploy_db.World.{
  Environment, BackupPurpose, final, BackupArtifact, ProductionStop, RestoredDatabase, migrate,
  verify_sqlite,
}
use dploy_db.Exec.{Exec, pure, raise, raise_if, try_except, ◌>>=◌, ◌>>◌}
use dploy_db.Calls.{make_backup, check_backup, run, run_command, restore_database}

same_source : Source → Source → Bool
same_source bootstrap bootstrap = true
same_source release release = true
same_source _ _ = false

abbrev text_option_eq : Option String → Option String → Bool
text_option_eq none none = true
text_option_eq (some a) (some b) = str_eq a b
text_option_eq _ _ = false

-- `==` on `ProductionApplicationHandle`
unfoldable pub same_handle : ProductionApplicationHandle → ProductionApplicationHandle → Bool
unfolding same_source
same_handle a b =
    same_source a.source b.source
    && str_eq a.container_id b.container_id
    && str_eq a.container_name b.container_name
    && str_eq a.compose_project b.compose_project
    && str_eq a.compose_service b.compose_service
    && text_option_eq a.version b.version
    && option_eq a.release_id b.release_id
    && option_eq a.operation_id b.operation_id
    && str_eq a.database_directory b.database_directory
    && str_eq a.database_target b.database_target
    && a.host_port == b.host_port
    && a.container_port == b.container_port
    && str_eq a.health_url b.health_url

-- `command.succeeded`, with both streams complete
unfoldable pub complete_success : CommandResult → Bool
unfolding outcome_is output_complete
complete_success c = outcome_is c.outcome succeeded && output_complete c

unfoldable pub is_final : BackupPurpose → Bool
is_final final = true
is_final _ = false

purpose_index : BackupPurpose → ℕ
purpose_index BackupPurpose.standalone = 0
purpose_index BackupPurpose.pre_restore = 1
purpose_index BackupPurpose.rehearsal = 2
purpose_index final = 3

-- `==` on the metadata, as far as it is modelled.
unfoldable pub same_metadata : BackupArtifact → BackupArtifact → Bool
unfolding purpose_index
same_metadata a b =
    a.backup_id == b.backup_id
    && str_eq a.project b.project
    && purpose_index a.purpose == purpose_index b.purpose
    && a.size_bytes == b.size_bytes
    && a.sha256 == b.sha256
    && option_eq a.operation_id b.operation_id

-- `==` on `BackupArtifact`
unfoldable pub same_artifact : BackupArtifact → BackupArtifact → Bool
unfolding same_metadata
same_artifact a b =
    same_metadata a b
    && str_eq a.database_path b.database_path
    && str_eq a.metadata_path b.metadata_path

-- `_migration_may_have_changed_production`
unfoldable pub migration_may_have_changed : CommandResult → Bool
unfolding outcome_is
migration_may_have_changed r =
    not (outcome_is r.outcome start_failed || outcome_is r.outcome cancelled) || is_some r.exit_code

-- `_require_usable_production_migration`: `none` is a return.
unfoldable pub unusable_migration : CommandResult → Option String → Option DployDbError
unfolding output_complete migration_may_have_changed
unusable_migration r log = by_outcome r.outcome
  where
    failed : String → Option DployDbError
    failed detail = some (
        new_error external_command_error detail (migration_may_have_changed r) (some false) log
          "Keep traffic blocked and applications stopped; restore the final backup if the migration process started.")

    by_outcome : CommandOutcome → Option DployDbError
    by_outcome succeeded =
        if output_complete r
        then none
        else some (
            new_error external_command_error
              "production migration succeeded but complete output evidence was unavailable" true
              (some false) log
              "Keep traffic blocked and applications stopped; restore the final backup.")
    by_outcome cleanup_failed = some (
        new_error recovery_required_error "production migration process cleanup could not be proven"
          true (some false) log
          "Keep traffic blocked. Confirm the migration process group is gone before restoring the final backup.")
    by_outcome nonzero_exit = failed "production migration exited with a status"
    by_outcome timed_out =
        failed "production migration timed out and its process group was terminated"
    by_outcome cancelled =
        failed "production migration was cancelled and its process group was terminated"
    by_outcome start_failed = failed "production migration could not start"

module _ (env : Environment) where
  -- The condition of `_require_stopped_application`.
  unfoldable pub not_proven_stopped : ProductionStop → Bool
  not_proven_stopped s =
      not (same_handle s.inspection.handle s.handle)
      || s.inspection.running
      || not (complete_success s.command)
      || not (complete_success s.inspection.command)
      || not (str_eq s.handle.database_directory env.config.database_directory)
      || not (str_eq s.handle.database_target env.config.database_volume_target)

  -- `_require_stopped_application`
  unfoldable pub require_stopped : ProductionStop → Exec (Unit {0})
  require_stopped s = raise_if (not_proven_stopped s) (
      dploydb (
        new_error safety_check_error
          "final database operation requires matching proof that production is stopped" false none
          (some env.config.database_path)
          "Do not access production; stop and inspect the exact current application first."))

  -- `except DployDBError` of `_verify_final_backup`
  unfoldable pub verification_failed : Bool → BackupArtifact → Raised → Exec BackupArtifact
  verification_failed changed b (dploydb e) = raise (
      dploydb (
        new_error safety_check_error "final backup verification failed" changed (some false)
          (some b.metadata_path)
          "Do not migrate or restore production; create a new final backup."))
  verification_failed changed b e = raise e

  -- `_verify_final_backup`
  unfoldable pub verify_final_backup : BackupArtifact → ℕ → Bool → Exec BackupArtifact
  verify_final_backup b operation changed = do
    verified ← try_except (check_backup env b.backup_id) (verification_failed changed b)
    raise_if
        (not (same_artifact verified b)
          || not (is_final verified.purpose)
          || not (option_eq verified.operation_id (some operation))
          || not (str_eq verified.project (env.secrets.redact_text env.config.project)))
        (dploydb (
          new_error safety_check_error
            "final backup identity does not match the active deployment operation" changed
            (some false) (some b.metadata_path)
            "Do not migrate or restore production; create a new final backup."))
    pure verified

  -- `create_final_backup`
  unfoldable pub create_final : ℕ → ProductionStop → Exec BackupArtifact
  create_final operation stopped = do
    require_stopped stopped
    b ← make_backup env final operation
    verify_final_backup b operation false

  -- `except Exception` round the evidence sink
  unfoldable pub sink_failed : CommandResult → Raised → Exec (Unit {0})
  sink_failed r (base_exception t) = raise (base_exception t)
  sink_failed r e = raise (
      dploydb (
        new_error recovery_required_error
          "production migration command finished but its durable evidence failed"
          (migration_may_have_changed r) (some false) (some "operations")
          "Keep traffic blocked and applications stopped. Preserve state and restore the final backup if the migration process started."))

  unfoldable pub raise_some : Option DployDbError → Exec (Unit {0})
  raise_some none = pure tt
  raise_some (some e) = raise (dploydb e)

  -- `except DployDBError` round the check of the migrated database
  unfoldable pub check_failed : Raised → Exec (Unit {0})
  check_failed (dploydb e) = raise (
      dploydb (
        new_error operation_failed_error "post-migration production SQLite verification failed" true
          (some false) (some "operations")
          "Keep traffic blocked and applications stopped; restore the verified final backup."))
  check_failed e = raise e

  -- `migrate_production_database`
  unfoldable pub migrate_database :
      ℕ → ProductionStop → BackupArtifact → Bool → Exec (Unit {0}) → Exec (Unit {0})
  migrate_database operation stopped backup activated evidence_sink = do
    require_stopped stopped
    raise_if activated (
        dploydb (
          new_error safety_check_error
            "production migration cannot start after new traffic was activated" false (some false)
            (some "operations") "Keep the current release and inspect the traffic state."))
    verify_final_backup backup operation false
    result ← run_command env migrate
    try_except evidence_sink (sink_failed result)
    raise_some (unusable_migration result (some "operations"))
    try_except (run env verify_sqlite) check_failed

  -- `restore_final_backup`
  unfoldable pub restore_final : ℕ → ProductionStop → BackupArtifact → Bool → Exec RestoredDatabase
  restore_final operation stopped backup activated = do
    require_stopped stopped
    raise_if activated (
        dploydb (
          new_error safety_check_error
            "automatic database restore is forbidden after new traffic was activated" true
            (some false) (some env.config.database_path)
            "Keep the current database and use the confirmed manual restore workflow."))
    verified ← verify_final_backup backup operation true
    restored ← restore_database env verified
    raise_if
        (not (restored.backup_id == verified.backup_id)
          || not (restored.size_bytes == verified.size_bytes)
          || not (restored.sha256 == verified.sha256))
        (dploydb (
          new_error recovery_required_error
            "database rollback result contradicts the verified final backup" true (some false)
            (some env.config.database_path)
            "Keep applications stopped and verify the final backup manually."))
    pure restored
