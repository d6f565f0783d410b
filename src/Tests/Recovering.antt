-- ===== src/Tests/Recovering.antt =====
-- Recoveries that are executed: back to the previous release with a restore of the database, on to the
-- new one, and one that finds a release that has already ended.
use dploy_db.Base.{◌≡◌, refl, none, some, true, false, ◌∷◌, [], inl, inr, ◌==◌, Bool-cases, arith}
use dploy_db.Raised.{Outcome, returned}
use dploy_db.World.{World, Environment, final}
use dploy_db.Exec.{◌>>=◌, try_except, try_finally}
use dploy_db.Sorting.{insert_by, sort_by}
use dploy_db.Releases
use dploy_db.Releases.{
  transitions, validated, transition_manifest, intent_manifest, resolve_manifest, selects_known,
  next_pointers,
}
use dploy_db.Releases.Store
use dploy_db.Releases.Store.{
  redact_manifest, now, record_recovery_intent, resolve_recovery, read_previous, check_pointers,
  read_pointers, read_releases, read_history, read_active, active_release, valid_pointers,
  reread_pointers, select, keep_or_select, activate_release, pointed, create_release,
}
use dploy_db.Operations
use dploy_db.Operations.{
  validated_operation, trail_ok, agrees, file_manifest, file_events, append_to, replace_in,
  is_operation_failed, completed, supplied, later_of, newest, clock, read_events, read_consistent,
  append_event_record, torn, append_event, create_operation, read_all, list_operations,
  latest_operation,
}
use dploy_db.Models.State.{
  state_index, state_is, state_in, state_value, is_terminal_operation, is_failed_operation,
  is_recovery_required, status_index, status_value,
}
use dploy_db.Models.Manifest.{
  handle_checks, is_terminal, is_failed, needs_rehearsal, needs_previous, is_migrated,
  lifecycle_checks, first_violation, pointer_checks,
}
use dploy_db.Models.Operation.{operation_checks}
use dploy_db.Models.Lock.{is_active, owner_active, owner_checks, is_held, needs_recovery}
use dploy_db.Calls
use dploy_db.Calls.{
  run, run_command, run_hook, inject, make_backup, check_backup, replicate_backup, discover_current,
  stop_current, start_new, restore_database,
}
use dploy_db.Command.{
  outcome_index, outcome_is, valid_output, valid_result, output_complete, passed, hook_may_have_run,
}
use dploy_db.Errors.{
  exit_value, kind_value, error_exit_code, error_kind, requires_recovery, new_error, exit_code,
  redact_error,
}
use dploy_db.Deploy.Report.{
  failure_record, or_log, proven, cleanup_failed_in, normalize, hook_description, hook_error,
  incomplete_logs,
}
use dploy_db.Deploy.Steps.{
  hook_summary, persist_stage, record_hook, snapshot_evidence, snapshot_changes, observe, identify,
  resolve_previous, version_of, verify_previous, maintenance_failed, maintenance_passed, enable,
  replicate_required, replicate_final, activation_failed, activation_passed, activate,
  disable_after_activation,
}
use dploy_db.Deploy.Release.{
  new_context, application_of, unexpected, blocks_work, owner_left, refuse_latest, require_clean,
  failed_before_release, failed_after_release, begin_release, prepare_release, locked_deployment,
  keep_original, release_and_raise, deploy_configured_release,
}
use dploy_db.Deploy.Journal.{
  may_switch, is_database_restore, switched_in, restores_before_switch, restored_in,
}
use dploy_db.Recovery.{
  executable, identity_problem, pick_activation, last_activation, concluded, activation_conclusion,
  manual, runtime_is_running, runtime_is_stopped, runtime_is_unknown, is_absent_or_unknown,
  may_have_changed, database_matches_final, complete_plan, recovery_actions, previous_plan,
  plan_by_conclusion, is_settled, build_recovery_plan,
}
use dploy_db.Recovery.Diagnose
use dploy_db.Recovery.Diagnose.{
  find_operation, unfinished, resolved_by_unfinished, incomplete_resolution, is_unresolved,
  put_pair, paired, newest_pair, diagnosis_error, refuse_incomplete, newest_source, source_of,
  runtime_state, absence, refuse_held, not_inspected, inspect_handle, not_proven,
  prove_release_absent, known_or_absent, inspect_new_application, open_verified, not_verified,
  compare_backup, final_facts, no_digest, production_digest, require_operations, plan_for, diagnose,
}
use dploy_db.Recovery.Ownership.{
  plan_error, names_plan, is_related, superseded, is_complete_new, ownership_changes,
  previous_owner, owner_records, uncorrelated, related_owner, acknowledge, acknowledged_stale_owner,
  superseded_facts, supersede, take_over, take_over_all, require_recovery, mark_release,
  take_recovery_ownership,
}
use dploy_db.Recovery.Execute.{
  recovery_stage, fault_point, facts, step_error, outcome_state, recover_hook, remove_new_release,
  restart_previous_release, incomplete_prerequisites, restore_artifact, database_recovery,
  verify_application, inspect_new, select_active, complete_recovery, step_done, finished, perform,
  go_on, begin_action, execute_actions, execute_recovery_plan,
}
use dploy_db.Recovery.Recover.{
  normalize_recovery, fail_recovery, finish_recovery_operation, finish_or_raise, recovery_failed,
  replace_owner, recover_by, locked_recovery, recover_configured_deployment,
  preview_configured_recovery,
}
use dploy_db.Base.{lookup, insert}
use dploy_db.Models.State.{active, production_migrated}
use dploy_db.Models.Manifest.{ReleaseManifest}
use dploy_db.Recovery.{RecoveryPlan, no_action}
use dploy_db.Recovery.Execute.{RecoveryResult}
use dploy_db.Recovery.Results.{Recovered, recover_configured_deployment-Recovered}
use dploy_db.Recovery.Blocked.{AllEnded, recover_configured_deployment-needs_open}
use dploy_db.Recovery.Restores.{RestoreAllowed, recover_configured_deployment-RestoreAllowed}
use dploy_db.Tests.Data.{
  outside, start, fresh_release, fresh_operation, value, returned_value, good_command,
  backed_up_release, new_application,
}

-- Interrupted after the production migration.
abbrev migrated_release : ReleaseManifest
migrated_release = record backed_up_release {
  status = production_migrated;
  production_changed = true;
  production_migration_started = true;
}

abbrev migrated : World
migrated = record start { releases = (7, migrated_release) ∷ [] }

-- The previous application is stopped, and the database is not the one of the backup.
abbrev stopped_outside : Environment
stopped_outside = record outside {
  inspect_live = λ _ h. returned (record { handle = h; running = false; command = good_command });
  open_backup = λ _ id. returned (record {
    backup_id = 41;
    project = "shop";
    purpose = final;
    size_bytes = 4096;
    sha256 = 98;
    operation_id = some 3;
    database_path = "/backups/41.sqlite3";
    metadata_path = "/backups/41.json";
  });
}

abbrev no_plan : RecoveryPlan
no_plan = record {
  disposition = no_action;
  release_id = 7;
  operation_id = 3;
  durable_stage = "created";
  production_may_have_changed = false;
  traffic_may_have_switched = false;
  automatic_database_restore_allowed = false;
  actions = [];
  reason = "";
  next_safe_action = "";
  final_backup_id = none;
}

abbrev nothing : RecoveryResult
nothing = record { plan = no_plan; operation = fresh_operation; release = fresh_release }

abbrev gone_back : Outcome RecoveryResult × World
gone_back = recover_configured_deployment stopped_outside migrated

recover_configured_deployment-Recovered_example : Recovered (value gone_back.0 nothing)
unfolding ◌>>=◌ try_except try_finally insert_by sort_by Releases.now_not_before Releases.changed
    Releases.started_later transitions validated transition_manifest intent_manifest
    resolve_manifest selects_known next_pointers Store.redact_failure Store.corruption
    Store.read_answer Store.read_file Store.fresh_id Store.parsed_manifest Store.read_manifest
    Store.write_manifest Store.transition redact_manifest now record_recovery_intent
    resolve_recovery read_previous check_pointers read_pointers read_releases read_history
    read_active active_release valid_pointers reread_pointers select keep_or_select activate_release
    pointed create_release Operations.started_later Operations.corruption Operations.read_answer
    Operations.read_file Operations.fresh_id Operations.now_not_before Operations.parsed_manifest
    Operations.read_manifest Operations.write_manifest Operations.redact_failure Operations.changed
    Operations.transition validated_operation trail_ok agrees file_manifest file_events append_to
    replace_in is_operation_failed completed supplied later_of newest clock read_events
    read_consistent append_event_record torn append_event create_operation read_all list_operations
    latest_operation state_index state_is state_in state_value is_terminal_operation
    is_failed_operation is_recovery_required status_index status_value handle_checks is_terminal
    is_failed needs_rehearsal needs_previous is_migrated lifecycle_checks first_violation
    pointer_checks operation_checks is_active owner_active owner_checks is_held needs_recovery
    Calls.inspect_application run run_command run_hook inject make_backup check_backup
    replicate_backup discover_current stop_current start_new restore_database outcome_index
    outcome_is valid_output valid_result output_complete passed hook_may_have_run exit_value
    kind_value error_exit_code error_kind requires_recovery new_error exit_code redact_error
    failure_record or_log proven cleanup_failed_in normalize hook_description hook_error
    incomplete_logs hook_summary persist_stage record_hook snapshot_evidence snapshot_changes
    observe identify resolve_previous version_of verify_previous maintenance_failed
    maintenance_passed enable replicate_required replicate_final activation_failed activation_passed
    activate disable_after_activation new_context application_of unexpected blocks_work owner_left
    refuse_latest require_clean failed_before_release failed_after_release begin_release
    prepare_release locked_deployment keep_original release_and_raise deploy_configured_release
    may_switch is_database_restore switched_in restores_before_switch restored_in executable
    identity_problem pick_activation last_activation concluded activation_conclusion manual
    runtime_is_running runtime_is_stopped runtime_is_unknown is_absent_or_unknown may_have_changed
    database_matches_final complete_plan recovery_actions previous_plan plan_by_conclusion
    is_settled build_recovery_plan Diagnose.inspect_application find_operation unfinished
    resolved_by_unfinished incomplete_resolution is_unresolved put_pair paired newest_pair
    diagnosis_error refuse_incomplete newest_source source_of runtime_state absence refuse_held
    not_inspected inspect_handle not_proven prove_release_absent known_or_absent
    inspect_new_application open_verified not_verified compare_backup final_facts no_digest
    production_digest require_operations plan_for diagnose plan_error names_plan is_related
    superseded is_complete_new ownership_changes previous_owner owner_records uncorrelated
    related_owner acknowledge acknowledged_stale_owner superseded_facts supersede take_over
    take_over_all require_recovery mark_release take_recovery_ownership recovery_stage fault_point
    facts step_error outcome_state recover_hook remove_new_release restart_previous_release
    incomplete_prerequisites restore_artifact database_recovery verify_application inspect_new
    select_active complete_recovery step_done finished perform go_on begin_action execute_actions
    execute_recovery_plan normalize_recovery fail_recovery finish_recovery_operation finish_or_raise
    recovery_failed replace_owner recover_by locked_recovery recover_configured_deployment
    preview_configured_recovery lookup insert
recover_configured_deployment-Recovered_example =
    recover_configured_deployment-Recovered stopped_outside migrated (value gone_back.0 nothing)
      (returned_value gone_back.0 nothing refl)

recover_configured_deployment-RestoreAllowed_example :
    RestoreAllowed stopped_outside migrated.releases migrated.operations
unfolding ◌>>=◌ try_except try_finally insert_by sort_by Releases.now_not_before Releases.changed
    Releases.started_later transitions validated transition_manifest intent_manifest
    resolve_manifest selects_known next_pointers Store.redact_failure Store.corruption
    Store.read_answer Store.read_file Store.fresh_id Store.parsed_manifest Store.read_manifest
    Store.write_manifest Store.transition redact_manifest now record_recovery_intent
    resolve_recovery read_previous check_pointers read_pointers read_releases read_history
    read_active active_release valid_pointers reread_pointers select keep_or_select activate_release
    pointed create_release Operations.started_later Operations.corruption Operations.read_answer
    Operations.read_file Operations.fresh_id Operations.now_not_before Operations.parsed_manifest
    Operations.read_manifest Operations.write_manifest Operations.redact_failure Operations.changed
    Operations.transition validated_operation trail_ok agrees file_manifest file_events append_to
    replace_in is_operation_failed completed supplied later_of newest clock read_events
    read_consistent append_event_record torn append_event create_operation read_all list_operations
    latest_operation state_index state_is state_in state_value is_terminal_operation
    is_failed_operation is_recovery_required status_index status_value handle_checks is_terminal
    is_failed needs_rehearsal needs_previous is_migrated lifecycle_checks first_violation
    pointer_checks operation_checks is_active owner_active owner_checks is_held needs_recovery
    Calls.inspect_application run run_command run_hook inject make_backup check_backup
    replicate_backup discover_current stop_current start_new restore_database outcome_index
    outcome_is valid_output valid_result output_complete passed hook_may_have_run exit_value
    kind_value error_exit_code error_kind requires_recovery new_error exit_code redact_error
    failure_record or_log proven cleanup_failed_in normalize hook_description hook_error
    incomplete_logs hook_summary persist_stage record_hook snapshot_evidence snapshot_changes
    observe identify resolve_previous version_of verify_previous maintenance_failed
    maintenance_passed enable replicate_required replicate_final activation_failed activation_passed
    activate disable_after_activation new_context application_of unexpected blocks_work owner_left
    refuse_latest require_clean failed_before_release failed_after_release begin_release
    prepare_release locked_deployment keep_original release_and_raise deploy_configured_release
    may_switch is_database_restore switched_in restores_before_switch restored_in executable
    identity_problem pick_activation last_activation concluded activation_conclusion manual
    runtime_is_running runtime_is_stopped runtime_is_unknown is_absent_or_unknown may_have_changed
    database_matches_final complete_plan recovery_actions previous_plan plan_by_conclusion
    is_settled build_recovery_plan Diagnose.inspect_application find_operation unfinished
    resolved_by_unfinished incomplete_resolution is_unresolved put_pair paired newest_pair
    diagnosis_error refuse_incomplete newest_source source_of runtime_state absence refuse_held
    not_inspected inspect_handle not_proven prove_release_absent known_or_absent
    inspect_new_application open_verified not_verified compare_backup final_facts no_digest
    production_digest require_operations plan_for diagnose plan_error names_plan is_related
    superseded is_complete_new ownership_changes previous_owner owner_records uncorrelated
    related_owner acknowledge acknowledged_stale_owner superseded_facts supersede take_over
    take_over_all require_recovery mark_release take_recovery_ownership recovery_stage fault_point
    facts step_error outcome_state recover_hook remove_new_release restart_previous_release
    incomplete_prerequisites restore_artifact database_recovery verify_application inspect_new
    select_active complete_recovery step_done finished perform go_on begin_action execute_actions
    execute_recovery_plan normalize_recovery fail_recovery finish_recovery_operation finish_or_raise
    recovery_failed replace_owner recover_by locked_recovery recover_configured_deployment
    preview_configured_recovery lookup insert
recover_configured_deployment-RestoreAllowed_example =
    recover_configured_deployment-RestoreAllowed stopped_outside migrated refl refl

-- Interrupted after the release was stored as active and before its operation was ended.
abbrev ended_release : ReleaseManifest
ended_release = record migrated_release {
  status = active;
  new_application = some new_application;
  production_health_passed = true;
  traffic_activation_attempted = true;
  traffic_activated = true;
  completed_at = some 10;
}

abbrev half_ended : World
half_ended = record start { releases = (7, ended_release) ∷ [] }

-- Diagnosis of that world gives a plan to be executed.
half_ended_plan : executable (value (diagnose outside false half_ended).0 no_plan) ≡ true
unfolding ◌>>=◌ try_except try_finally insert_by sort_by Releases.now_not_before Releases.changed
    Releases.started_later transitions validated transition_manifest intent_manifest
    resolve_manifest selects_known next_pointers Store.redact_failure Store.corruption
    Store.read_answer Store.read_file Store.fresh_id Store.parsed_manifest Store.read_manifest
    Store.write_manifest Store.transition redact_manifest now record_recovery_intent
    resolve_recovery read_previous check_pointers read_pointers read_releases read_history
    read_active active_release valid_pointers reread_pointers select keep_or_select activate_release
    pointed create_release Operations.started_later Operations.corruption Operations.read_answer
    Operations.read_file Operations.fresh_id Operations.now_not_before Operations.parsed_manifest
    Operations.read_manifest Operations.write_manifest Operations.redact_failure Operations.changed
    Operations.transition validated_operation trail_ok agrees file_manifest file_events append_to
    replace_in is_operation_failed completed supplied later_of newest clock read_events
    read_consistent append_event_record torn append_event create_operation read_all list_operations
    latest_operation state_index state_is state_in state_value is_terminal_operation
    is_failed_operation is_recovery_required status_index status_value handle_checks is_terminal
    is_failed needs_rehearsal needs_previous is_migrated lifecycle_checks first_violation
    pointer_checks operation_checks is_active owner_active owner_checks is_held needs_recovery
    Calls.inspect_application run run_command run_hook inject make_backup check_backup
    replicate_backup discover_current stop_current start_new restore_database outcome_index
    outcome_is valid_output valid_result output_complete passed hook_may_have_run exit_value
    kind_value error_exit_code error_kind requires_recovery new_error exit_code redact_error
    failure_record or_log proven cleanup_failed_in normalize hook_description hook_error
    incomplete_logs hook_summary persist_stage record_hook snapshot_evidence snapshot_changes
    observe identify resolve_previous version_of verify_previous maintenance_failed
    maintenance_passed enable replicate_required replicate_final activation_failed activation_passed
    activate disable_after_activation new_context application_of unexpected blocks_work owner_left
    refuse_latest require_clean failed_before_release failed_after_release begin_release
    prepare_release locked_deployment keep_original release_and_raise deploy_configured_release
    may_switch is_database_restore switched_in restores_before_switch restored_in executable
    identity_problem pick_activation last_activation concluded activation_conclusion manual
    runtime_is_running runtime_is_stopped runtime_is_unknown is_absent_or_unknown may_have_changed
    database_matches_final complete_plan recovery_actions previous_plan plan_by_conclusion
    is_settled build_recovery_plan Diagnose.inspect_application find_operation unfinished
    resolved_by_unfinished incomplete_resolution is_unresolved put_pair paired newest_pair
    diagnosis_error refuse_incomplete newest_source source_of runtime_state absence refuse_held
    not_inspected inspect_handle not_proven prove_release_absent known_or_absent
    inspect_new_application open_verified not_verified compare_backup final_facts no_digest
    production_digest require_operations plan_for diagnose plan_error names_plan is_related
    superseded is_complete_new ownership_changes previous_owner owner_records uncorrelated
    related_owner acknowledge acknowledged_stale_owner superseded_facts supersede take_over
    take_over_all require_recovery mark_release take_recovery_ownership recovery_stage fault_point
    facts step_error outcome_state recover_hook remove_new_release restart_previous_release
    incomplete_prerequisites restore_artifact database_recovery verify_application inspect_new
    select_active complete_recovery step_done finished perform go_on begin_action execute_actions
    execute_recovery_plan normalize_recovery fail_recovery finish_recovery_operation finish_or_raise
    recovery_failed replace_owner recover_by locked_recovery recover_configured_deployment
    preview_configured_recovery lookup insert
half_ended_plan = refl

half_ended-AllEnded : AllEnded half_ended.releases
unfolding ◌>>=◌ try_except try_finally insert_by sort_by Releases.now_not_before Releases.changed
    Releases.started_later transitions validated transition_manifest intent_manifest
    resolve_manifest selects_known next_pointers Store.redact_failure Store.corruption
    Store.read_answer Store.read_file Store.fresh_id Store.parsed_manifest Store.read_manifest
    Store.write_manifest Store.transition redact_manifest now record_recovery_intent
    resolve_recovery read_previous check_pointers read_pointers read_releases read_history
    read_active active_release valid_pointers reread_pointers select keep_or_select activate_release
    pointed create_release Operations.started_later Operations.corruption Operations.read_answer
    Operations.read_file Operations.fresh_id Operations.now_not_before Operations.parsed_manifest
    Operations.read_manifest Operations.write_manifest Operations.redact_failure Operations.changed
    Operations.transition validated_operation trail_ok agrees file_manifest file_events append_to
    replace_in is_operation_failed completed supplied later_of newest clock read_events
    read_consistent append_event_record torn append_event create_operation read_all list_operations
    latest_operation state_index state_is state_in state_value is_terminal_operation
    is_failed_operation is_recovery_required status_index status_value handle_checks is_terminal
    is_failed needs_rehearsal needs_previous is_migrated lifecycle_checks first_violation
    pointer_checks operation_checks is_active owner_active owner_checks is_held needs_recovery
    Calls.inspect_application run run_command run_hook inject make_backup check_backup
    replicate_backup discover_current stop_current start_new restore_database outcome_index
    outcome_is valid_output valid_result output_complete passed hook_may_have_run exit_value
    kind_value error_exit_code error_kind requires_recovery new_error exit_code redact_error
    failure_record or_log proven cleanup_failed_in normalize hook_description hook_error
    incomplete_logs hook_summary persist_stage record_hook snapshot_evidence snapshot_changes
    observe identify resolve_previous version_of verify_previous maintenance_failed
    maintenance_passed enable replicate_required replicate_final activation_failed activation_passed
    activate disable_after_activation new_context application_of unexpected blocks_work owner_left
    refuse_latest require_clean failed_before_release failed_after_release begin_release
    prepare_release locked_deployment keep_original release_and_raise deploy_configured_release
    may_switch is_database_restore switched_in restores_before_switch restored_in executable
    identity_problem pick_activation last_activation concluded activation_conclusion manual
    runtime_is_running runtime_is_stopped runtime_is_unknown is_absent_or_unknown may_have_changed
    database_matches_final complete_plan recovery_actions previous_plan plan_by_conclusion
    is_settled build_recovery_plan Diagnose.inspect_application find_operation unfinished
    resolved_by_unfinished incomplete_resolution is_unresolved put_pair paired newest_pair
    diagnosis_error refuse_incomplete newest_source source_of runtime_state absence refuse_held
    not_inspected inspect_handle not_proven prove_release_absent known_or_absent
    inspect_new_application open_verified not_verified compare_backup final_facts no_digest
    production_digest require_operations plan_for diagnose plan_error names_plan is_related
    superseded is_complete_new ownership_changes previous_owner owner_records uncorrelated
    related_owner acknowledge acknowledged_stale_owner superseded_facts supersede take_over
    take_over_all require_recovery mark_release take_recovery_ownership recovery_stage fault_point
    facts step_error outcome_state recover_hook remove_new_release restart_previous_release
    incomplete_prerequisites restore_artifact database_recovery verify_application inspect_new
    select_active complete_recovery step_done finished perform go_on begin_action execute_actions
    execute_recovery_plan normalize_recovery fail_recovery finish_recovery_operation finish_or_raise
    recovery_failed replace_owner recover_by locked_recovery recover_configured_deployment
    preview_configured_recovery lookup insert
half_ended-AllEnded id m there = elim (Bool-cases (7 == id)) [
  | inl same ↦ let is : ended_release ≡ m = ground arith in rw (← is) refl
  | inr other ↦ ground arith
]

recover_configured_deployment-needs_open_example :
    ¬ ((recover_configured_deployment outside half_ended).0 ≡ returned nothing)
recover_configured_deployment-needs_open_example =
    recover_configured_deployment-needs_open outside half_ended nothing half_ended-AllEnded
