-- ===== src/Tests/Restores.antt =====
-- A manual restore of the previous one of two releases.
use dploy_db.Base.{◌≡◌, refl, none, some, true, ◌∷◌, []}
use dploy_db.World.{World, final}
use dploy_db.Exec.{◌>>=◌, try_except, try_finally}
use dploy_db.Sorting.{insert_by, sort_by}
use dploy_db.Releases
use dploy_db.Releases.{
  transitions, validated, transition_manifest, intent_manifest, resolve_manifest, selects_known,
  next_pointers,
}
use dploy_db.Releases.Store
use dploy_db.Releases.Store.{
  redact_manifest, now, record_recovery_intent, resolve_recovery, read_previous, check_pointers,
  read_pointers, read_releases, read_history, read_active, active_release, valid_pointers,
  reread_pointers, select, keep_or_select, activate_release, pointed, create_release,
}
use dploy_db.Operations
use dploy_db.Operations.{
  validated_operation, trail_ok, agrees, file_manifest, file_events, append_to, replace_in,
  is_operation_failed, completed, supplied, later_of, newest, clock, read_events, read_consistent,
  append_event_record, torn, append_event, create_operation, read_all, list_operations,
  latest_operation,
}
use dploy_db.Models.State.{
  state_index, state_is, state_in, state_value, is_terminal_operation, is_failed_operation,
  is_recovery_required, status_index, status_value,
}
use dploy_db.Models.Manifest.{
  handle_checks, is_terminal, is_failed, needs_rehearsal, needs_previous, is_migrated,
  lifecycle_checks, first_violation, pointer_checks,
}
use dploy_db.Models.Operation.{operation_checks}
use dploy_db.Models.Lock.{is_active, owner_active, owner_checks, is_held, needs_recovery}
use dploy_db.Calls
use dploy_db.Calls.{
  run, run_command, run_hook, inject, make_backup, check_backup, replicate_backup, discover_current,
  stop_current, start_new, restore_database,
}
use dploy_db.Command.{
  outcome_index, outcome_is, valid_output, valid_result, output_complete, passed, hook_may_have_run,
}
use dploy_db.Errors.{
  exit_value, kind_value, error_exit_code, error_kind, requires_recovery, new_error, exit_code,
  redact_error,
}
use dploy_db.Deploy.Report.{
  failure_record, or_log, proven, cleanup_failed_in, normalize, hook_description, hook_error,
  incomplete_logs,
}
use dploy_db.Deploy.Steps.{
  hook_summary, persist_stage, record_hook, snapshot_evidence, snapshot_changes, observe, identify,
  resolve_previous, version_of, verify_previous, maintenance_failed, maintenance_passed, enable,
  replicate_required, replicate_final, activation_failed, activation_passed, activate,
  disable_after_activation,
}
use dploy_db.Deploy.Release.{
  new_context, application_of, unexpected, blocks_work, owner_left, refuse_latest, require_clean,
  failed_before_release, failed_after_release, begin_release, prepare_release, locked_deployment,
  keep_original, release_and_raise, deploy_configured_release,
}
use dploy_db.Deploy.Journal.{
  may_switch, is_database_restore, switched_in, restores_before_switch, restored_in,
}
use dploy_db.Cutover.{
  same_handle, complete_success, is_final, same_metadata, same_artifact, migration_may_have_changed,
  unusable_migration, not_proven_stopped, require_stopped, verification_failed, verify_final_backup,
  create_final, sink_failed, raise_some, check_failed, migrate_database, restore_final,
}
use dploy_db.Recovery.Diagnose
use dploy_db.Recovery.Diagnose.{
  find_operation, unfinished, resolved_by_unfinished, incomplete_resolution, is_unresolved,
  put_pair, paired, newest_pair, diagnosis_error, refuse_incomplete, newest_source, source_of,
  runtime_state, absence, refuse_held, not_inspected, inspect_handle, not_proven,
  prove_release_absent, known_or_absent, inspect_new_application, open_verified, not_verified,
  compare_backup, final_facts, no_digest, production_digest, require_operations, plan_for, diagnose,
}
use dploy_db.ManualRestore.{
  find_release, is_final_purpose, same_application, fits_active, require_selected,
  require_protected, select_applications, select_backup, preview_configured_restore,
  restore_hook_error, boundary_error, normalize_restore, needs_recovery_error,
}
use dploy_db.ManualRestore.Run.{
  event, stage, record_restore_hook, restore_maintenance_failed, restore_maintenance_passed,
  enable_restore_maintenance, mark_failed, fail_in_progress, finish_restore_failure,
  prepare_restore, start_selected, replace_database, selection_failed, select_traffic, expose,
  restore_forward, stop_selected, put_back, require_restore_hook, undo_restore, undo_failed,
  rollback_manual_restore, finish_and_raise, rollback_raised, roll_back_restore, settle_restore,
  restore_failed, run_manual_restore, restore_from_backup, unexpected_restore,
  configured_restore_failed, locked_restore, restore_configured_release,
}
use dploy_db.ManualRestore.Safety.Watch.{may_expose, exposed_in, restores_before_exposure}
use dploy_db.Base.{lookup, insert}
use dploy_db.Models.State.{active}
use dploy_db.Models.Manifest.{ReleaseManifest, ProductionApplicationHandle}
use dploy_db.ManualRestore.Run.{ManualRestoreResult}
use dploy_db.ManualRestore.Safety.{restore_configured_release-restores_before_exposure}
use dploy_db.Tests.Data.{
  outside, start, is_returned, backed_up_release, new_application, old_application, backup,
  fresh_operation,
}

abbrev first_application : ProductionApplicationHandle
first_application = record new_application {
  container_id = "c0";
  version = some "v1";
  release_id = some 6;
  operation_id = some 2;
}

abbrev second_release : ReleaseManifest
second_release = record backed_up_release {
  status = active;
  previous_release_id = some 6;
  previous_application = some first_application;
  new_application = some new_application;
  production_health_passed = true;
  production_changed = true;
  production_migration_started = true;
  traffic_activation_attempted = true;
  traffic_activated = true;
  completed_at = some 10;
  final_backup_sha256 = some (backup final 3).sha256;
}

abbrev first_release : ReleaseManifest
first_release = record second_release {
  release_id = 6;
  operation_id = 2;
  requested_version = "v1";
  previous_release_id = none;
  new_application = some first_application;
  previous_application = some old_application;
}

abbrev two_releases : World
two_releases = record start {
  releases = (7, second_release) ∷ (6, first_release) ∷ [];
  pointers = some (record { active_release_id = 7; previous_release_id = some 6; updated_at = 10 });
  operations = [];
}

-- The restore returns.
two_releases_restored : is_returned (restore_configured_release outside 6 two_releases).0 ≡ true
unfolding ◌>>=◌ try_except try_finally insert_by sort_by Releases.now_not_before Releases.changed
    Releases.started_later transitions validated transition_manifest intent_manifest
    resolve_manifest selects_known next_pointers Store.redact_failure Store.corruption
    Store.read_answer Store.read_file Store.fresh_id Store.parsed_manifest Store.read_manifest
    Store.write_manifest Store.transition redact_manifest now record_recovery_intent
    resolve_recovery read_previous check_pointers read_pointers read_releases read_history
    read_active active_release valid_pointers reread_pointers select keep_or_select activate_release
    pointed create_release Operations.started_later Operations.corruption Operations.read_answer
    Operations.read_file Operations.fresh_id Operations.now_not_before Operations.parsed_manifest
    Operations.read_manifest Operations.write_manifest Operations.redact_failure Operations.changed
    Operations.transition validated_operation trail_ok agrees file_manifest file_events append_to
    replace_in is_operation_failed completed supplied later_of newest clock read_events
    read_consistent append_event_record torn append_event create_operation read_all list_operations
    latest_operation state_index state_is state_in state_value is_terminal_operation
    is_failed_operation is_recovery_required status_index status_value handle_checks is_terminal
    is_failed needs_rehearsal needs_previous is_migrated lifecycle_checks first_violation
    pointer_checks operation_checks is_active owner_active owner_checks is_held needs_recovery
    Calls.inspect_application run run_command run_hook inject make_backup check_backup
    replicate_backup discover_current stop_current start_new restore_database outcome_index
    outcome_is valid_output valid_result output_complete passed hook_may_have_run exit_value
    kind_value error_exit_code error_kind requires_recovery new_error exit_code redact_error
    failure_record or_log proven cleanup_failed_in normalize hook_description hook_error
    incomplete_logs hook_summary persist_stage record_hook snapshot_evidence snapshot_changes
    observe identify resolve_previous version_of verify_previous maintenance_failed
    maintenance_passed enable replicate_required replicate_final activation_failed activation_passed
    activate disable_after_activation new_context application_of unexpected blocks_work owner_left
    refuse_latest require_clean failed_before_release failed_after_release begin_release
    prepare_release locked_deployment keep_original release_and_raise deploy_configured_release
    may_switch is_database_restore switched_in restores_before_switch restored_in same_handle
    complete_success is_final same_metadata same_artifact migration_may_have_changed
    unusable_migration not_proven_stopped require_stopped verification_failed verify_final_backup
    create_final sink_failed raise_some check_failed migrate_database restore_final
    Diagnose.inspect_application find_operation unfinished resolved_by_unfinished
    incomplete_resolution is_unresolved put_pair paired newest_pair diagnosis_error
    refuse_incomplete newest_source source_of runtime_state absence refuse_held not_inspected
    inspect_handle not_proven prove_release_absent known_or_absent inspect_new_application
    open_verified not_verified compare_backup final_facts no_digest production_digest
    require_operations plan_for diagnose find_release is_final_purpose same_application fits_active
    require_selected require_protected select_applications select_backup preview_configured_restore
    restore_hook_error boundary_error normalize_restore needs_recovery_error event stage
    record_restore_hook restore_maintenance_failed restore_maintenance_passed
    enable_restore_maintenance mark_failed fail_in_progress finish_restore_failure prepare_restore
    start_selected replace_database selection_failed select_traffic expose restore_forward
    stop_selected put_back require_restore_hook undo_restore undo_failed rollback_manual_restore
    finish_and_raise rollback_raised roll_back_restore settle_restore restore_failed
    run_manual_restore restore_from_backup unexpected_restore configured_restore_failed
    locked_restore restore_configured_release may_expose exposed_in restores_before_exposure lookup
    insert
two_releases_restored = refl

restore_configured_release-restores_before_exposure_example :
    restores_before_exposure (restore_configured_release outside 6 two_releases).1.journal ≡ true
unfolding restores_before_exposure exposed_in
restore_configured_release-restores_before_exposure_example =
    restore_configured_release-restores_before_exposure outside 6 two_releases refl refl

abbrev nothing : ManualRestoreResult
nothing = record {
  operation = fresh_operation;
  selected_release = first_release;
  replaced_release = second_release;
  pre_restore_backup = backup final 3;
  database_restore = record { backup_id = 0; size_bytes = 0; sha256 = 0 };
  pointers = record { active_release_id = 7; previous_release_id = some 6; updated_at = 10 };
}
