-- ===== src/Tests/Deployments.antt =====
-- Whole deployments: one in which everything works, one that is rolled back after the migration, and
-- one whose activation leaves the routing open.
use dploy_db.Base.{◌≡◌, refl, none, some, true, [], ◌⊎◌}
use dploy_db.Raised.{Outcome, returned}
use dploy_db.Errors.{DployDbError, external_command_error}
use dploy_db.World.{World, Environment, Context, Action, collect_logs}
use dploy_db.Command.{CommandResult, nonzero_exit}
use dploy_db.Models.State.{active, rolled_back}
use dploy_db.Exec.{◌>>=◌, try_except, try_finally}
use dploy_db.Releases
use dploy_db.Releases.{
  transitions, validated, transition_manifest, intent_manifest, resolve_manifest, selects_known,
  next_pointers,
}
use dploy_db.Releases.Store
use dploy_db.Releases.Store.{
  redact_manifest, now, record_recovery_intent, resolve_recovery, read_previous, check_pointers,
  read_pointers, read_releases, read_history, read_active, active_release, valid_pointers,
  reread_pointers, select, keep_or_select, activate_release, pointed, create_release,
}
use dploy_db.Operations
use dploy_db.Operations.{
  validated_operation, trail_ok, agrees, file_manifest, file_events, append_to, replace_in,
  is_operation_failed, completed, supplied, later_of, newest, clock, read_events, read_consistent,
  append_event_record, torn, append_event, create_operation, read_all, list_operations,
  latest_operation,
}
use dploy_db.Models.State.{
  state_index, state_is, state_in, state_value, is_terminal_operation, is_failed_operation,
  is_recovery_required, status_index, status_value,
}
use dploy_db.Models.Manifest.{
  handle_checks, is_terminal, is_failed, needs_rehearsal, needs_previous, is_migrated,
  lifecycle_checks, first_violation, pointer_checks,
}
use dploy_db.Models.Operation.{operation_checks}
use dploy_db.Calls.{
  run, run_command, run_hook, inject, make_backup, check_backup, replicate_backup,
  inspect_application, discover_current, stop_current, start_new, restore_database,
}
use dploy_db.Command.{
  outcome_index, outcome_is, valid_output, valid_result, output_complete, passed, hook_may_have_run,
}
use dploy_db.Errors.{
  exit_value, kind_value, error_exit_code, error_kind, requires_recovery, new_error, exit_code,
  redact_error,
}
use dploy_db.Cutover
use dploy_db.Cutover.{
  same_handle, complete_success, is_final, same_metadata, same_artifact, migration_may_have_changed,
  unusable_migration, not_proven_stopped, require_stopped, verification_failed, verify_final_backup,
  create_final, sink_failed, check_failed, migrate_database, restore_final,
}
use dploy_db.Candidate.{tell, candidate_failed, rehearsed, run_candidate_stage}
use dploy_db.Deploy.Report.{
  failure_record, or_log, proven, cleanup_failed_in, normalize, hook_description, hook_error,
  incomplete_logs,
}
use dploy_db.Deploy.Steps.{
  hook_summary, persist_stage, record_hook, snapshot_evidence, snapshot_changes, observe, identify,
  resolve_previous, version_of, verify_previous, maintenance_failed, maintenance_passed, enable,
  replicate_required, replicate_final, activation_failed, activation_passed, activate,
  disable_after_activation,
}
use dploy_db.Deploy.Finish.{
  retention_failed, retain, complete_active, finish_failed, mark_release, release_needs_recovery,
  mark_operation, operation_needs_recovery, finish_recovery, fail_operation, finish_without_release,
}
use dploy_db.Deploy.Rollback.{
  remove_failed, restore_before_traffic, require_hook, bring_back, mark_rolled_back, roll_back,
  unproven, rollback_failed, rollback,
}
use dploy_db.Deploy.Coordinator
use dploy_db.Deploy.Coordinator.{
  prepare, stop_previous, back_up, migrate_production, start_and_check, deploy_forward, give_up,
  settle, settle_or_raise, deploy_failed, run_deployment,
}
use dploy_db.Deploy.Release.{
  new_context, application_of, unexpected, blocks_work, owner_left, refuse_latest, require_clean,
  failed_before_release, failed_after_release, begin_release, prepare_release, locked_deployment,
  keep_original, release_and_raise, deploy_configured_release,
}
use dploy_db.Deploy.Journal.{
  may_switch, is_database_restore, switched_in, restores_before_switch, restored_in,
}
use dploy_db.Deploy.WriteAhead.{is_activation_call, activation_called}
use dploy_db.Sorting.{insert_by, sort_by}
use dploy_db.Models.Lock.{is_active, owner_active, owner_checks, is_held, needs_recovery}
use dploy_db.Base.{lookup, insert}
use dploy_db.Deploy.Finish.{DeploymentResult}
use dploy_db.Deploy.Results.{Activated, RolledBack, run_deployment-ends, settle-attempted}
use dploy_db.Deploy.RestoreSafety.{run_deployment-restores_before_switch}
use dploy_db.Deploy.Release.Clean.{FoundClean, deploy_configured_release-FoundClean}
use dploy_db.Deploy.WriteAhead.{Flagged, activate-Flagged}
use dploy_db.Deploy.ReleaseSafety.{deploy_configured_release-restores_before_switch}
use dploy_db.Tests.Data.{
  outside, start, fresh_release, fresh_operation, value, returned_value, good_command,
  fresh_context, checked,
}

abbrev nothing : DeploymentResult
nothing = record { release = fresh_release; operation = fresh_operation }

abbrev failed_command : CommandResult
failed_command = record good_command { outcome = nonzero_exit; exit_code = some 1 }

-- The logs of the new application are not captured.
abbrev without_logs : Environment
without_logs = record outside { run_command = λ _ a. returned (answer a) }
  where
    answer : Action → CommandResult
    answer collect_logs = failed_command
    answer _ = good_command

abbrev finished : Outcome DeploymentResult × World
finished = run_deployment outside start

abbrev brought_back : Outcome DeploymentResult × World
brought_back = run_deployment without_logs start

finished_is_active : (value finished.0 nothing).release.status ≡ active
unfolding ◌>>=◌ try_except try_finally Releases.now_not_before Releases.changed
    Releases.started_later transitions validated transition_manifest intent_manifest
    resolve_manifest selects_known next_pointers Store.redact_failure Store.corruption
    Store.read_answer Store.read_file Store.fresh_id Store.parsed_manifest Store.read_manifest
    Store.write_manifest Store.transition redact_manifest now record_recovery_intent
    resolve_recovery read_previous check_pointers read_pointers read_releases read_history
    read_active active_release valid_pointers reread_pointers select keep_or_select activate_release
    pointed create_release Operations.started_later Operations.corruption Operations.read_answer
    Operations.read_file Operations.fresh_id Operations.now_not_before Operations.parsed_manifest
    Operations.read_manifest Operations.write_manifest Operations.redact_failure Operations.changed
    Operations.transition validated_operation trail_ok agrees file_manifest file_events append_to
    replace_in is_operation_failed completed supplied later_of newest clock read_events
    read_consistent append_event_record torn append_event create_operation read_all list_operations
    latest_operation state_index state_is state_in state_value is_terminal_operation
    is_failed_operation is_recovery_required status_index status_value handle_checks is_terminal
    is_failed needs_rehearsal needs_previous is_migrated lifecycle_checks first_violation
    pointer_checks operation_checks run run_command run_hook inject make_backup check_backup
    replicate_backup inspect_application discover_current stop_current start_new restore_database
    outcome_index outcome_is valid_output valid_result output_complete passed hook_may_have_run
    exit_value kind_value error_exit_code error_kind requires_recovery new_error exit_code
    redact_error Cutover.raise_some same_handle complete_success is_final same_metadata
    same_artifact migration_may_have_changed unusable_migration not_proven_stopped require_stopped
    verification_failed verify_final_backup create_final sink_failed check_failed migrate_database
    restore_final tell candidate_failed rehearsed run_candidate_stage failure_record or_log proven
    cleanup_failed_in normalize hook_description hook_error incomplete_logs hook_summary
    persist_stage record_hook snapshot_evidence snapshot_changes observe identify resolve_previous
    version_of verify_previous maintenance_failed maintenance_passed enable replicate_required
    replicate_final activation_failed activation_passed activate disable_after_activation
    retention_failed retain complete_active finish_failed mark_release release_needs_recovery
    mark_operation operation_needs_recovery finish_recovery fail_operation finish_without_release
    remove_failed restore_before_traffic require_hook bring_back mark_rolled_back roll_back unproven
    rollback_failed rollback Coordinator.raise_some prepare stop_previous back_up migrate_production
    start_and_check deploy_forward give_up settle settle_or_raise deploy_failed run_deployment
    new_context application_of unexpected blocks_work owner_left refuse_latest require_clean
    failed_before_release failed_after_release begin_release prepare_release locked_deployment
    keep_original release_and_raise deploy_configured_release may_switch is_database_restore
    switched_in restores_before_switch restored_in is_activation_call activation_called insert_by
    sort_by is_active owner_active owner_checks is_held needs_recovery lookup insert
finished_is_active = refl

brought_back_is_rolled_back : (value brought_back.0 nothing).release.status ≡ rolled_back
unfolding ◌>>=◌ try_except try_finally Releases.now_not_before Releases.changed
    Releases.started_later transitions validated transition_manifest intent_manifest
    resolve_manifest selects_known next_pointers Store.redact_failure Store.corruption
    Store.read_answer Store.read_file Store.fresh_id Store.parsed_manifest Store.read_manifest
    Store.write_manifest Store.transition redact_manifest now record_recovery_intent
    resolve_recovery read_previous check_pointers read_pointers read_releases read_history
    read_active active_release valid_pointers reread_pointers select keep_or_select activate_release
    pointed create_release Operations.started_later Operations.corruption Operations.read_answer
    Operations.read_file Operations.fresh_id Operations.now_not_before Operations.parsed_manifest
    Operations.read_manifest Operations.write_manifest Operations.redact_failure Operations.changed
    Operations.transition validated_operation trail_ok agrees file_manifest file_events append_to
    replace_in is_operation_failed completed supplied later_of newest clock read_events
    read_consistent append_event_record torn append_event create_operation read_all list_operations
    latest_operation state_index state_is state_in state_value is_terminal_operation
    is_failed_operation is_recovery_required status_index status_value handle_checks is_terminal
    is_failed needs_rehearsal needs_previous is_migrated lifecycle_checks first_violation
    pointer_checks operation_checks run run_command run_hook inject make_backup check_backup
    replicate_backup inspect_application discover_current stop_current start_new restore_database
    outcome_index outcome_is valid_output valid_result output_complete passed hook_may_have_run
    exit_value kind_value error_exit_code error_kind requires_recovery new_error exit_code
    redact_error Cutover.raise_some same_handle complete_success is_final same_metadata
    same_artifact migration_may_have_changed unusable_migration not_proven_stopped require_stopped
    verification_failed verify_final_backup create_final sink_failed check_failed migrate_database
    restore_final tell candidate_failed rehearsed run_candidate_stage failure_record or_log proven
    cleanup_failed_in normalize hook_description hook_error incomplete_logs hook_summary
    persist_stage record_hook snapshot_evidence snapshot_changes observe identify resolve_previous
    version_of verify_previous maintenance_failed maintenance_passed enable replicate_required
    replicate_final activation_failed activation_passed activate disable_after_activation
    retention_failed retain complete_active finish_failed mark_release release_needs_recovery
    mark_operation operation_needs_recovery finish_recovery fail_operation finish_without_release
    remove_failed restore_before_traffic require_hook bring_back mark_rolled_back roll_back unproven
    rollback_failed rollback Coordinator.raise_some prepare stop_previous back_up migrate_production
    start_and_check deploy_forward give_up settle settle_or_raise deploy_failed run_deployment
    new_context application_of unexpected blocks_work owner_left refuse_latest require_clean
    failed_before_release failed_after_release begin_release prepare_release locked_deployment
    keep_original release_and_raise deploy_configured_release may_switch is_database_restore
    switched_in restores_before_switch restored_in is_activation_call activation_called insert_by
    sort_by is_active owner_active owner_checks is_held needs_recovery lookup insert
brought_back_is_rolled_back = refl

run_deployment-ends_example :
    Activated (value brought_back.0 nothing) ⊎ RolledBack (value brought_back.0 nothing)
unfolding ◌>>=◌ try_except try_finally Releases.now_not_before Releases.changed
    Releases.started_later transitions validated transition_manifest intent_manifest
    resolve_manifest selects_known next_pointers Store.redact_failure Store.corruption
    Store.read_answer Store.read_file Store.fresh_id Store.parsed_manifest Store.read_manifest
    Store.write_manifest Store.transition redact_manifest now record_recovery_intent
    resolve_recovery read_previous check_pointers read_pointers read_releases read_history
    read_active active_release valid_pointers reread_pointers select keep_or_select activate_release
    pointed create_release Operations.started_later Operations.corruption Operations.read_answer
    Operations.read_file Operations.fresh_id Operations.now_not_before Operations.parsed_manifest
    Operations.read_manifest Operations.write_manifest Operations.redact_failure Operations.changed
    Operations.transition validated_operation trail_ok agrees file_manifest file_events append_to
    replace_in is_operation_failed completed supplied later_of newest clock read_events
    read_consistent append_event_record torn append_event create_operation read_all list_operations
    latest_operation state_index state_is state_in state_value is_terminal_operation
    is_failed_operation is_recovery_required status_index status_value handle_checks is_terminal
    is_failed needs_rehearsal needs_previous is_migrated lifecycle_checks first_violation
    pointer_checks operation_checks run run_command run_hook inject make_backup check_backup
    replicate_backup inspect_application discover_current stop_current start_new restore_database
    outcome_index outcome_is valid_output valid_result output_complete passed hook_may_have_run
    exit_value kind_value error_exit_code error_kind requires_recovery new_error exit_code
    redact_error Cutover.raise_some same_handle complete_success is_final same_metadata
    same_artifact migration_may_have_changed unusable_migration not_proven_stopped require_stopped
    verification_failed verify_final_backup create_final sink_failed check_failed migrate_database
    restore_final tell candidate_failed rehearsed run_candidate_stage failure_record or_log proven
    cleanup_failed_in normalize hook_description hook_error incomplete_logs hook_summary
    persist_stage record_hook snapshot_evidence snapshot_changes observe identify resolve_previous
    version_of verify_previous maintenance_failed maintenance_passed enable replicate_required
    replicate_final activation_failed activation_passed activate disable_after_activation
    retention_failed retain complete_active finish_failed mark_release release_needs_recovery
    mark_operation operation_needs_recovery finish_recovery fail_operation finish_without_release
    remove_failed restore_before_traffic require_hook bring_back mark_rolled_back roll_back unproven
    rollback_failed rollback Coordinator.raise_some prepare stop_previous back_up migrate_production
    start_and_check deploy_forward give_up settle settle_or_raise deploy_failed run_deployment
    new_context application_of unexpected blocks_work owner_left refuse_latest require_clean
    failed_before_release failed_after_release begin_release prepare_release locked_deployment
    keep_original release_and_raise deploy_configured_release may_switch is_database_restore
    switched_in restores_before_switch restored_in is_activation_call activation_called insert_by
    sort_by is_active owner_active owner_checks is_held needs_recovery lookup insert
run_deployment-ends_example =
    run_deployment-ends without_logs start (value brought_back.0 nothing)
      (returned_value brought_back.0 nothing refl)

run_deployment-restores_before_switch_example : restores_before_switch brought_back.1.journal ≡ true
unfolding ◌>>=◌ try_except try_finally Releases.now_not_before Releases.changed
    Releases.started_later transitions validated transition_manifest intent_manifest
    resolve_manifest selects_known next_pointers Store.redact_failure Store.corruption
    Store.read_answer Store.read_file Store.fresh_id Store.parsed_manifest Store.read_manifest
    Store.write_manifest Store.transition redact_manifest now record_recovery_intent
    resolve_recovery read_previous check_pointers read_pointers read_releases read_history
    read_active active_release valid_pointers reread_pointers select keep_or_select activate_release
    pointed create_release Operations.started_later Operations.corruption Operations.read_answer
    Operations.read_file Operations.fresh_id Operations.now_not_before Operations.parsed_manifest
    Operations.read_manifest Operations.write_manifest Operations.redact_failure Operations.changed
    Operations.transition validated_operation trail_ok agrees file_manifest file_events append_to
    replace_in is_operation_failed completed supplied later_of newest clock read_events
    read_consistent append_event_record torn append_event create_operation read_all list_operations
    latest_operation state_index state_is state_in state_value is_terminal_operation
    is_failed_operation is_recovery_required status_index status_value handle_checks is_terminal
    is_failed needs_rehearsal needs_previous is_migrated lifecycle_checks first_violation
    pointer_checks operation_checks run run_command run_hook inject make_backup check_backup
    replicate_backup inspect_application discover_current stop_current start_new restore_database
    outcome_index outcome_is valid_output valid_result output_complete passed hook_may_have_run
    exit_value kind_value error_exit_code error_kind requires_recovery new_error exit_code
    redact_error Cutover.raise_some same_handle complete_success is_final same_metadata
    same_artifact migration_may_have_changed unusable_migration not_proven_stopped require_stopped
    verification_failed verify_final_backup create_final sink_failed check_failed migrate_database
    restore_final tell candidate_failed rehearsed run_candidate_stage failure_record or_log proven
    cleanup_failed_in normalize hook_description hook_error incomplete_logs hook_summary
    persist_stage record_hook snapshot_evidence snapshot_changes observe identify resolve_previous
    version_of verify_previous maintenance_failed maintenance_passed enable replicate_required
    replicate_final activation_failed activation_passed activate disable_after_activation
    retention_failed retain complete_active finish_failed mark_release release_needs_recovery
    mark_operation operation_needs_recovery finish_recovery fail_operation finish_without_release
    remove_failed restore_before_traffic require_hook bring_back mark_rolled_back roll_back unproven
    rollback_failed rollback Coordinator.raise_some prepare stop_previous back_up migrate_production
    start_and_check deploy_forward give_up settle settle_or_raise deploy_failed run_deployment
    new_context application_of unexpected blocks_work owner_left refuse_latest require_clean
    failed_before_release failed_after_release begin_release prepare_release locked_deployment
    keep_original release_and_raise deploy_configured_release may_switch is_database_restore
    switched_in restores_before_switch restored_in is_activation_call activation_called insert_by
    sort_by is_active owner_active owner_checks is_held needs_recovery lookup insert
run_deployment-restores_before_switch_example =
    run_deployment-restores_before_switch without_logs start refl refl

deploy_configured_release-restores_before_switch_example :
    restores_before_switch
      (deploy_configured_release without_logs (record start { operations = [] })).1.journal
    ≡ true
deploy_configured_release-restores_before_switch_example =
    deploy_configured_release-restores_before_switch without_logs (record start { operations = [] })
      refl

-- The activation was attempted, and its hook may have run.
abbrev switching : Context
switching = record fresh_context { traffic_activation_attempted = true; maintenance_enabled = true }

abbrev unknown_target : DployDbError
unknown_target = new_error external_command_error "hook" true none none "inspect"

settle-attempted_example :
    ¬ (settle outside switching unknown_target start ≡ (returned nothing, start))
settle-attempted_example =
    settle-attempted outside switching unknown_target start nothing start refl

abbrev no_operations : World
no_operations = record start { operations = [] }

deploy_configured_release-FoundClean_example : FoundClean outside no_operations
unfolding ◌>>=◌ try_except try_finally Releases.now_not_before Releases.changed
    Releases.started_later transitions validated transition_manifest intent_manifest
    resolve_manifest selects_known next_pointers Store.redact_failure Store.corruption
    Store.read_answer Store.read_file Store.fresh_id Store.parsed_manifest Store.read_manifest
    Store.write_manifest Store.transition redact_manifest now record_recovery_intent
    resolve_recovery read_previous check_pointers read_pointers read_releases read_history
    read_active active_release valid_pointers reread_pointers select keep_or_select activate_release
    pointed create_release Operations.started_later Operations.corruption Operations.read_answer
    Operations.read_file Operations.fresh_id Operations.now_not_before Operations.parsed_manifest
    Operations.read_manifest Operations.write_manifest Operations.redact_failure Operations.changed
    Operations.transition validated_operation trail_ok agrees file_manifest file_events append_to
    replace_in is_operation_failed completed supplied later_of newest clock read_events
    read_consistent append_event_record torn append_event create_operation read_all list_operations
    latest_operation state_index state_is state_in state_value is_terminal_operation
    is_failed_operation is_recovery_required status_index status_value handle_checks is_terminal
    is_failed needs_rehearsal needs_previous is_migrated lifecycle_checks first_violation
    pointer_checks operation_checks run run_command run_hook inject make_backup check_backup
    replicate_backup inspect_application discover_current stop_current start_new restore_database
    outcome_index outcome_is valid_output valid_result output_complete passed hook_may_have_run
    exit_value kind_value error_exit_code error_kind requires_recovery new_error exit_code
    redact_error Cutover.raise_some same_handle complete_success is_final same_metadata
    same_artifact migration_may_have_changed unusable_migration not_proven_stopped require_stopped
    verification_failed verify_final_backup create_final sink_failed check_failed migrate_database
    restore_final tell candidate_failed rehearsed run_candidate_stage failure_record or_log proven
    cleanup_failed_in normalize hook_description hook_error incomplete_logs hook_summary
    persist_stage record_hook snapshot_evidence snapshot_changes observe identify resolve_previous
    version_of verify_previous maintenance_failed maintenance_passed enable replicate_required
    replicate_final activation_failed activation_passed activate disable_after_activation
    retention_failed retain complete_active finish_failed mark_release release_needs_recovery
    mark_operation operation_needs_recovery finish_recovery fail_operation finish_without_release
    remove_failed restore_before_traffic require_hook bring_back mark_rolled_back roll_back unproven
    rollback_failed rollback Coordinator.raise_some prepare stop_previous back_up migrate_production
    start_and_check deploy_forward give_up settle settle_or_raise deploy_failed run_deployment
    new_context application_of unexpected blocks_work owner_left refuse_latest require_clean
    failed_before_release failed_after_release begin_release prepare_release locked_deployment
    keep_original release_and_raise deploy_configured_release may_switch is_database_restore
    switched_in restores_before_switch restored_in is_activation_call activation_called insert_by
    sort_by is_active owner_active owner_checks is_held needs_recovery lookup insert
deploy_configured_release-FoundClean_example =
    deploy_configured_release-FoundClean outside no_operations
      (value (deploy_configured_release outside no_operations).0 nothing)
      (returned_value (deploy_configured_release outside no_operations).0 nothing refl)

activate-Flagged_example : Flagged 7 (activate outside checked).1.releases
unfolding ◌>>=◌ try_except try_finally Releases.now_not_before Releases.changed
    Releases.started_later transitions validated transition_manifest intent_manifest
    resolve_manifest selects_known next_pointers Store.redact_failure Store.corruption
    Store.read_answer Store.read_file Store.fresh_id Store.parsed_manifest Store.read_manifest
    Store.write_manifest Store.transition redact_manifest now record_recovery_intent
    resolve_recovery read_previous check_pointers read_pointers read_releases read_history
    read_active active_release valid_pointers reread_pointers select keep_or_select activate_release
    pointed create_release Operations.started_later Operations.corruption Operations.read_answer
    Operations.read_file Operations.fresh_id Operations.now_not_before Operations.parsed_manifest
    Operations.read_manifest Operations.write_manifest Operations.redact_failure Operations.changed
    Operations.transition validated_operation trail_ok agrees file_manifest file_events append_to
    replace_in is_operation_failed completed supplied later_of newest clock read_events
    read_consistent append_event_record torn append_event create_operation read_all list_operations
    latest_operation state_index state_is state_in state_value is_terminal_operation
    is_failed_operation is_recovery_required status_index status_value handle_checks is_terminal
    is_failed needs_rehearsal needs_previous is_migrated lifecycle_checks first_violation
    pointer_checks operation_checks run run_command run_hook inject make_backup check_backup
    replicate_backup inspect_application discover_current stop_current start_new restore_database
    outcome_index outcome_is valid_output valid_result output_complete passed hook_may_have_run
    exit_value kind_value error_exit_code error_kind requires_recovery new_error exit_code
    redact_error Cutover.raise_some same_handle complete_success is_final same_metadata
    same_artifact migration_may_have_changed unusable_migration not_proven_stopped require_stopped
    verification_failed verify_final_backup create_final sink_failed check_failed migrate_database
    restore_final tell candidate_failed rehearsed run_candidate_stage failure_record or_log proven
    cleanup_failed_in normalize hook_description hook_error incomplete_logs hook_summary
    persist_stage record_hook snapshot_evidence snapshot_changes observe identify resolve_previous
    version_of verify_previous maintenance_failed maintenance_passed enable replicate_required
    replicate_final activation_failed activation_passed activate disable_after_activation
    retention_failed retain complete_active finish_failed mark_release release_needs_recovery
    mark_operation operation_needs_recovery finish_recovery fail_operation finish_without_release
    remove_failed restore_before_traffic require_hook bring_back mark_rolled_back roll_back unproven
    rollback_failed rollback Coordinator.raise_some prepare stop_previous back_up migrate_production
    start_and_check deploy_forward give_up settle settle_or_raise deploy_failed run_deployment
    new_context application_of unexpected blocks_work owner_left refuse_latest require_clean
    failed_before_release failed_after_release begin_release prepare_release locked_deployment
    keep_original release_and_raise deploy_configured_release may_switch is_database_restore
    switched_in restores_before_switch restored_in is_activation_call activation_called insert_by
    sort_by is_active owner_active owner_checks is_held needs_recovery lookup insert
activate-Flagged_example = activate-Flagged outside checked refl refl
