-- ===== src/Tests/Recoveries.antt =====
-- Recoveries: plans for interrupted deployments, and their resolution.
use dploy_db.Base.{refl, none, some, true, false, ◌∷◌, []}
use dploy_db.Models.State.{DeploymentState, rolled_back, FailureRecord}
use dploy_db.Models.Manifest.{ReleaseManifest}
use dploy_db.Releases.{
  transitions, now_not_before, changed, validated, transition_manifest, intent_manifest,
  resolve_manifest, next_pointers,
}
use dploy_db.Models.State.{
  state_index, state_is, state_in, state_value, is_terminal_operation, is_failed_operation,
  is_recovery_required, status_index, status_value,
}
use dploy_db.Models.Manifest.{
  handle_checks, is_terminal, is_failed, needs_rehearsal, needs_previous, is_migrated,
  lifecycle_checks, first_violation, pointer_checks,
}
use dploy_db.Recovery.{
  executable, identity_problem, pick_activation, last_activation, concluded, activation_conclusion,
  manual, runtime_is_running, runtime_is_stopped, runtime_is_unknown, is_absent_or_unknown,
  may_have_changed, database_matches_final, complete_plan, recovery_actions, previous_plan,
  plan_by_conclusion, is_settled, build_recovery_plan,
}
use dploy_db.Command.{
  outcome_index, outcome_is, valid_output, valid_result, output_complete, passed, hook_may_have_run,
}
use dploy_db.Recovery.{RecoveryLiveState, stopped, absent}
use dploy_db.Recovery.Plan.{RestoreGround, build_recovery_plan-RestoreGround}
use dploy_db.Recovery.Plan.NoWayBack.{NoWayBack, build_recovery_plan-NoWayBack}
use dploy_db.Recovery.Plan.Shape.{Shape, build_recovery_plan-Shape}
use dploy_db.Releases.Resolve.{Resolved, resolve_manifest-Resolved}
use dploy_db.Tests.Data.{fresh_operation, first_event, backed_up_release, value, returned_value}

-- The migration may have run, and the new release never got traffic.
abbrev interrupted : ReleaseManifest
interrupted = record backed_up_release { production_migration_started = true }

abbrev live : RecoveryLiveState
live = record {
  previous_application = stopped;
  new_application = absent;
  final_backup_verified = true;
  production_database_sha256 = some 77;
  final_backup_sha256 = some 98;
}

build_recovery_plan-RestoreGround_example :
    RestoreGround fresh_operation (first_event ∷ []) interrupted live
unfolding transitions now_not_before changed validated transition_manifest intent_manifest
    resolve_manifest next_pointers state_index state_is state_in state_value is_terminal_operation
    is_failed_operation is_recovery_required status_index status_value handle_checks is_terminal
    is_failed needs_rehearsal needs_previous is_migrated lifecycle_checks first_violation
    pointer_checks executable identity_problem pick_activation last_activation concluded
    activation_conclusion manual runtime_is_running runtime_is_stopped runtime_is_unknown
    is_absent_or_unknown may_have_changed database_matches_final complete_plan recovery_actions
    previous_plan plan_by_conclusion is_settled build_recovery_plan outcome_index outcome_is
    valid_output valid_result output_complete passed hook_may_have_run
build_recovery_plan-RestoreGround_example =
    build_recovery_plan-RestoreGround fresh_operation (first_event ∷ []) interrupted live refl

build_recovery_plan-Shape_example :
    Shape fresh_operation interrupted live
      (build_recovery_plan fresh_operation (first_event ∷ []) interrupted live).disposition
      (build_recovery_plan fresh_operation (first_event ∷ []) interrupted live).actions
build_recovery_plan-Shape_example =
    build_recovery_plan-Shape fresh_operation (first_event ∷ []) interrupted live

-- The activation was attempted, and no evidence says how it ended.
abbrev switching : ReleaseManifest
switching = record interrupted { traffic_activation_attempted = true }

build_recovery_plan-NoWayBack_example :
    NoWayBack (build_recovery_plan fresh_operation (first_event ∷ []) switching live)
unfolding transitions now_not_before changed validated transition_manifest intent_manifest
    resolve_manifest next_pointers state_index state_is state_in state_value is_terminal_operation
    is_failed_operation is_recovery_required status_index status_value handle_checks is_terminal
    is_failed needs_rehearsal needs_previous is_migrated lifecycle_checks first_violation
    pointer_checks executable identity_problem pick_activation last_activation concluded
    activation_conclusion manual runtime_is_running runtime_is_stopped runtime_is_unknown
    is_absent_or_unknown may_have_changed database_matches_final complete_plan recovery_actions
    previous_plan plan_by_conclusion is_settled build_recovery_plan outcome_index outcome_is
    valid_output valid_result output_complete passed hook_may_have_run
build_recovery_plan-NoWayBack_example =
    build_recovery_plan-NoWayBack fresh_operation (first_event ∷ []) switching live refl

abbrev failed : FailureRecord
failed = record {
  error_code = "recovery_required";
  what_failed = "routing";
  log_path = none;
  next_safe_action = "inspect";
}

abbrev stuck : ReleaseManifest
stuck = record interrupted {
  status = DeploymentState.recovery_required;
  completed_at = some 10;
  production_changed = true;
  failure = some failed;
}

abbrev resolved : ReleaseManifest
resolved = value (resolve_manifest stuck 90 rolled_back 4 false) stuck

resolve_manifest-Resolved_example : Resolved stuck rolled_back 4 resolved
unfolding transitions now_not_before changed validated transition_manifest intent_manifest
    resolve_manifest next_pointers state_index state_is state_in state_value is_terminal_operation
    is_failed_operation is_recovery_required status_index status_value handle_checks is_terminal
    is_failed needs_rehearsal needs_previous is_migrated lifecycle_checks first_violation
    pointer_checks executable identity_problem pick_activation last_activation concluded
    activation_conclusion manual runtime_is_running runtime_is_stopped runtime_is_unknown
    is_absent_or_unknown may_have_changed database_matches_final complete_plan recovery_actions
    previous_plan plan_by_conclusion is_settled build_recovery_plan outcome_index outcome_is
    valid_output valid_result output_complete passed hook_may_have_run
resolve_manifest-Resolved_example =
    resolve_manifest-Resolved stuck 90 rolled_back 4 false resolved
      (returned_value (resolve_manifest stuck 90 rolled_back 4 false) stuck refl)
