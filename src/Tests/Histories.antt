-- ===== src/Tests/Histories.antt =====
-- A release on the paths to its three safe ends.
use dploy_db.Base.{ℕ, ◌≤◌, ◌⊎◌, ◌≡◌, refl, none, some, true, false, ◌∷◌, [], is_some}
use dploy_db.Models.State.{
  DeploymentState, created, preflight_passed, snapshot_verified, rehearsal_passed,
  candidate_healthy, maintenance_enabled, current_app_stopped, final_snapshot_verified,
  production_migrated, new_app_healthy, active, rollback_started, rolled_back, failed_safe,
  FailureRecord,
}
use dploy_db.Models.Manifest.{ReleaseManifest}
use dploy_db.Releases.{unset}
use dploy_db.Releases.{
  transitions, now_not_before, changed, validated, transition_manifest, intent_manifest,
  resolve_manifest, next_pointers,
}
use dploy_db.Models.State.{
  state_index, state_is, state_in, state_value, is_terminal_operation, is_failed_operation,
  is_recovery_required, status_index, status_value,
}
use dploy_db.Models.Manifest.{
  handle_checks, is_terminal, is_failed, needs_rehearsal, needs_previous, is_migrated,
  lifecycle_checks, first_violation, pointer_checks,
}
use dploy_db.Releases.Graph.{History, start, advance, intend}
use dploy_db.Releases.Graph.Paths.{
  active_history, rolled_back_history, failed_safe_history, RecoveredTo, forward_path,
  BeforeMaintenance,
}
use dploy_db.Models.Manifest.Laws.{active_complete}
use dploy_db.Tests.Data.{fresh_release, old_application, new_application, value, returned_value}

abbrev failed : FailureRecord
failed = record {
  error_code = "operation_failed";
  what_failed = "health";
  log_path = none;
  next_safe_action = "inspect";
}

path_0 : History fresh_release (created ∷ [])
unfolding transitions now_not_before changed validated transition_manifest intent_manifest
    resolve_manifest next_pointers state_index state_is state_in state_value is_terminal_operation
    is_failed_operation is_recovery_required status_index status_value handle_checks is_terminal
    is_failed needs_rehearsal needs_previous is_migrated lifecycle_checks first_violation
    pointer_checks
path_0 = start refl refl

abbrev forward_1 : ReleaseManifest
forward_1 = value (transition_manifest fresh_release 20 preflight_passed unset) fresh_release

abbrev forward_2 : ReleaseManifest
forward_2 =
    value
      (transition_manifest forward_1 21 snapshot_verified
        (record unset { rehearsal_backup = some (40, 99) }))
      forward_1

abbrev forward_3 : ReleaseManifest
forward_3 = value (transition_manifest forward_2 22 rehearsal_passed unset) forward_2

abbrev forward_4 : ReleaseManifest
forward_4 = value (transition_manifest forward_3 23 candidate_healthy unset) forward_3

abbrev forward_5 : ReleaseManifest
forward_5 =
    value
      (transition_manifest forward_4 24 maintenance_enabled
        (record unset { previous_application = some old_application }))
      forward_4

abbrev forward_6 : ReleaseManifest
forward_6 = value (transition_manifest forward_5 25 current_app_stopped unset) forward_5

abbrev forward_7 : ReleaseManifest
forward_7 =
    value
      (transition_manifest forward_6 26 final_snapshot_verified
        (record unset { final_backup = some (41, 98) }))
      forward_6

abbrev forward_8 : ReleaseManifest
forward_8 = value (intent_manifest forward_7 27 true false) forward_7

abbrev forward_9 : ReleaseManifest
forward_9 =
    value
      (transition_manifest forward_8 28 production_migrated
        (record unset { production_changed = some true }))
      forward_8

abbrev forward_10 : ReleaseManifest
forward_10 =
    value
      (transition_manifest forward_9 29 new_app_healthy (record unset {
        new_application = some new_application;
        production_health_passed = some true;
      }))
      forward_9

abbrev forward_11 : ReleaseManifest
forward_11 = value (intent_manifest forward_10 30 false true) forward_10

abbrev forward_12 : ReleaseManifest
forward_12 =
    value
      (transition_manifest forward_11 31 DeploymentState.traffic_activated
        (record unset { traffic_activated = some true }))
      forward_11

abbrev forward_13 : ReleaseManifest
forward_13 = value (transition_manifest forward_12 32 active unset) forward_12

abbrev back_1 : ReleaseManifest
back_1 = value (transition_manifest forward_5 40 rollback_started unset) forward_5

abbrev back_2 : ReleaseManifest
back_2 =
    value (transition_manifest back_1 41 rolled_back (record unset { failure = some failed }))
      back_1

abbrev stopped_1 : ReleaseManifest
stopped_1 =
    value (transition_manifest forward_1 50 failed_safe (record unset { failure = some failed }))
      forward_1

path_forward_1 : History forward_1 (preflight_passed ∷ created ∷ [])
unfolding transitions now_not_before changed validated transition_manifest intent_manifest
    resolve_manifest next_pointers state_index state_is state_in state_value is_terminal_operation
    is_failed_operation is_recovery_required status_index status_value handle_checks is_terminal
    is_failed needs_rehearsal needs_previous is_migrated lifecycle_checks first_violation
    pointer_checks
path_forward_1 = advance 20 preflight_passed unset path_0 (
    returned_value (transition_manifest fresh_release 20 preflight_passed unset) fresh_release refl)

path_forward_2 : History forward_2 (snapshot_verified ∷ preflight_passed ∷ created ∷ [])
unfolding transitions now_not_before changed validated transition_manifest intent_manifest
    resolve_manifest next_pointers state_index state_is state_in state_value is_terminal_operation
    is_failed_operation is_recovery_required status_index status_value handle_checks is_terminal
    is_failed needs_rehearsal needs_previous is_migrated lifecycle_checks first_violation
    pointer_checks
path_forward_2 =
    advance 21 snapshot_verified (record unset { rehearsal_backup = some (40, 99) }) path_forward_1
      (returned_value
        (transition_manifest forward_1 21 snapshot_verified
          (record unset { rehearsal_backup = some (40, 99) }))
        forward_1 refl)

path_forward_3 :
    History forward_3 (rehearsal_passed ∷ snapshot_verified ∷ preflight_passed ∷ created ∷ [])
unfolding transitions now_not_before changed validated transition_manifest intent_manifest
    resolve_manifest next_pointers state_index state_is state_in state_value is_terminal_operation
    is_failed_operation is_recovery_required status_index status_value handle_checks is_terminal
    is_failed needs_rehearsal needs_previous is_migrated lifecycle_checks first_violation
    pointer_checks
path_forward_3 =
    advance 22 rehearsal_passed unset path_forward_2
      (returned_value (transition_manifest forward_2 22 rehearsal_passed unset) forward_2 refl)

path_forward_4 :
    History forward_4
      (candidate_healthy ∷ rehearsal_passed ∷ snapshot_verified ∷ preflight_passed ∷ created ∷ [])
unfolding transitions now_not_before changed validated transition_manifest intent_manifest
    resolve_manifest next_pointers state_index state_is state_in state_value is_terminal_operation
    is_failed_operation is_recovery_required status_index status_value handle_checks is_terminal
    is_failed needs_rehearsal needs_previous is_migrated lifecycle_checks first_violation
    pointer_checks
path_forward_4 =
    advance 23 candidate_healthy unset path_forward_3
      (returned_value (transition_manifest forward_3 23 candidate_healthy unset) forward_3 refl)

path_forward_5 : History forward_5 (
    maintenance_enabled ∷ candidate_healthy ∷ rehearsal_passed ∷ snapshot_verified
    ∷ preflight_passed ∷ created ∷ [])
unfolding transitions now_not_before changed validated transition_manifest intent_manifest
    resolve_manifest next_pointers state_index state_is state_in state_value is_terminal_operation
    is_failed_operation is_recovery_required status_index status_value handle_checks is_terminal
    is_failed needs_rehearsal needs_previous is_migrated lifecycle_checks first_violation
    pointer_checks
path_forward_5 =
    advance 24 maintenance_enabled (record unset { previous_application = some old_application })
      path_forward_4
      (returned_value
        (transition_manifest forward_4 24 maintenance_enabled
          (record unset { previous_application = some old_application }))
        forward_4 refl)

path_forward_6 : History forward_6 (
    current_app_stopped ∷ maintenance_enabled ∷ candidate_healthy ∷ rehearsal_passed
    ∷ snapshot_verified ∷ preflight_passed ∷ created ∷ [])
unfolding transitions now_not_before changed validated transition_manifest intent_manifest
    resolve_manifest next_pointers state_index state_is state_in state_value is_terminal_operation
    is_failed_operation is_recovery_required status_index status_value handle_checks is_terminal
    is_failed needs_rehearsal needs_previous is_migrated lifecycle_checks first_violation
    pointer_checks
path_forward_6 =
    advance 25 current_app_stopped unset path_forward_5
      (returned_value (transition_manifest forward_5 25 current_app_stopped unset) forward_5 refl)

path_forward_7 : History forward_7 (
    final_snapshot_verified ∷ current_app_stopped ∷ maintenance_enabled ∷ candidate_healthy
    ∷ rehearsal_passed ∷ snapshot_verified ∷ preflight_passed ∷ created ∷ [])
unfolding transitions now_not_before changed validated transition_manifest intent_manifest
    resolve_manifest next_pointers state_index state_is state_in state_value is_terminal_operation
    is_failed_operation is_recovery_required status_index status_value handle_checks is_terminal
    is_failed needs_rehearsal needs_previous is_migrated lifecycle_checks first_violation
    pointer_checks
path_forward_7 =
    advance 26 final_snapshot_verified (record unset { final_backup = some (41, 98) })
      path_forward_6
      (returned_value
        (transition_manifest forward_6 26 final_snapshot_verified
          (record unset { final_backup = some (41, 98) }))
        forward_6 refl)

path_forward_8 : History forward_8 (
    final_snapshot_verified ∷ current_app_stopped ∷ maintenance_enabled ∷ candidate_healthy
    ∷ rehearsal_passed ∷ snapshot_verified ∷ preflight_passed ∷ created ∷ [])
unfolding transitions now_not_before changed validated transition_manifest intent_manifest
    resolve_manifest next_pointers state_index state_is state_in state_value is_terminal_operation
    is_failed_operation is_recovery_required status_index status_value handle_checks is_terminal
    is_failed needs_rehearsal needs_previous is_migrated lifecycle_checks first_violation
    pointer_checks
path_forward_8 =
    intend 27 true false path_forward_7
      (returned_value (intent_manifest forward_7 27 true false) forward_7 refl)

path_forward_9 : History forward_9 (
    production_migrated ∷ final_snapshot_verified ∷ current_app_stopped ∷ maintenance_enabled
    ∷ candidate_healthy ∷ rehearsal_passed ∷ snapshot_verified ∷ preflight_passed ∷ created ∷ [])
unfolding transitions now_not_before changed validated transition_manifest intent_manifest
    resolve_manifest next_pointers state_index state_is state_in state_value is_terminal_operation
    is_failed_operation is_recovery_required status_index status_value handle_checks is_terminal
    is_failed needs_rehearsal needs_previous is_migrated lifecycle_checks first_violation
    pointer_checks
path_forward_9 =
    advance 28 production_migrated (record unset { production_changed = some true }) path_forward_8
      (returned_value
        (transition_manifest forward_8 28 production_migrated
          (record unset { production_changed = some true }))
        forward_8 refl)

path_forward_10 : History forward_10 (
    new_app_healthy ∷ production_migrated ∷ final_snapshot_verified ∷ current_app_stopped
    ∷ maintenance_enabled ∷ candidate_healthy ∷ rehearsal_passed ∷ snapshot_verified
    ∷ preflight_passed ∷ created ∷ [])
unfolding transitions now_not_before changed validated transition_manifest intent_manifest
    resolve_manifest next_pointers state_index state_is state_in state_value is_terminal_operation
    is_failed_operation is_recovery_required status_index status_value handle_checks is_terminal
    is_failed needs_rehearsal needs_previous is_migrated lifecycle_checks first_violation
    pointer_checks
path_forward_10 =
    advance 29 new_app_healthy
      (record unset {
        new_application = some new_application;
        production_health_passed = some true;
      })
      path_forward_9
      (returned_value
        (transition_manifest forward_9 29 new_app_healthy (record unset {
          new_application = some new_application;
          production_health_passed = some true;
        }))
        forward_9 refl)

path_forward_11 : History forward_11 (
    new_app_healthy ∷ production_migrated ∷ final_snapshot_verified ∷ current_app_stopped
    ∷ maintenance_enabled ∷ candidate_healthy ∷ rehearsal_passed ∷ snapshot_verified
    ∷ preflight_passed ∷ created ∷ [])
unfolding transitions now_not_before changed validated transition_manifest intent_manifest
    resolve_manifest next_pointers state_index state_is state_in state_value is_terminal_operation
    is_failed_operation is_recovery_required status_index status_value handle_checks is_terminal
    is_failed needs_rehearsal needs_previous is_migrated lifecycle_checks first_violation
    pointer_checks
path_forward_11 =
    intend 30 false true path_forward_10
      (returned_value (intent_manifest forward_10 30 false true) forward_10 refl)

path_forward_12 : History forward_12 (
    DeploymentState.traffic_activated ∷ new_app_healthy ∷ production_migrated
    ∷ final_snapshot_verified ∷ current_app_stopped ∷ maintenance_enabled ∷ candidate_healthy
    ∷ rehearsal_passed ∷ snapshot_verified ∷ preflight_passed ∷ created ∷ [])
unfolding transitions now_not_before changed validated transition_manifest intent_manifest
    resolve_manifest next_pointers state_index state_is state_in state_value is_terminal_operation
    is_failed_operation is_recovery_required status_index status_value handle_checks is_terminal
    is_failed needs_rehearsal needs_previous is_migrated lifecycle_checks first_violation
    pointer_checks
path_forward_12 =
    advance 31 DeploymentState.traffic_activated (record unset { traffic_activated = some true })
      path_forward_11
      (returned_value
        (transition_manifest forward_11 31 DeploymentState.traffic_activated
          (record unset { traffic_activated = some true }))
        forward_11 refl)

path_forward_13 : History forward_13 (
    active ∷ DeploymentState.traffic_activated ∷ new_app_healthy ∷ production_migrated
    ∷ final_snapshot_verified ∷ current_app_stopped ∷ maintenance_enabled ∷ candidate_healthy
    ∷ rehearsal_passed ∷ snapshot_verified ∷ preflight_passed ∷ created ∷ [])
unfolding transitions now_not_before changed validated transition_manifest intent_manifest
    resolve_manifest next_pointers state_index state_is state_in state_value is_terminal_operation
    is_failed_operation is_recovery_required status_index status_value handle_checks is_terminal
    is_failed needs_rehearsal needs_previous is_migrated lifecycle_checks first_violation
    pointer_checks
path_forward_13 =
    advance 32 active unset path_forward_12
      (returned_value (transition_manifest forward_12 32 active unset) forward_12 refl)

path_back_1 : History back_1 (
    rollback_started ∷ maintenance_enabled ∷ candidate_healthy ∷ rehearsal_passed
    ∷ snapshot_verified ∷ preflight_passed ∷ created ∷ [])
unfolding transitions now_not_before changed validated transition_manifest intent_manifest
    resolve_manifest next_pointers state_index state_is state_in state_value is_terminal_operation
    is_failed_operation is_recovery_required status_index status_value handle_checks is_terminal
    is_failed needs_rehearsal needs_previous is_migrated lifecycle_checks first_violation
    pointer_checks
path_back_1 =
    advance 40 rollback_started unset path_forward_5
      (returned_value (transition_manifest forward_5 40 rollback_started unset) forward_5 refl)

path_back_2 : History back_2 (
    rolled_back ∷ rollback_started ∷ maintenance_enabled ∷ candidate_healthy ∷ rehearsal_passed
    ∷ snapshot_verified ∷ preflight_passed ∷ created ∷ [])
unfolding transitions now_not_before changed validated transition_manifest intent_manifest
    resolve_manifest next_pointers state_index state_is state_in state_value is_terminal_operation
    is_failed_operation is_recovery_required status_index status_value handle_checks is_terminal
    is_failed needs_rehearsal needs_previous is_migrated lifecycle_checks first_violation
    pointer_checks
path_back_2 =
    advance 41 rolled_back (record unset { failure = some failed }) path_back_1
      (returned_value
        (transition_manifest back_1 41 rolled_back (record unset { failure = some failed })) back_1
        refl)

path_stopped_1 : History stopped_1 (failed_safe ∷ preflight_passed ∷ created ∷ [])
unfolding transitions now_not_before changed validated transition_manifest intent_manifest
    resolve_manifest next_pointers state_index state_is state_in state_value is_terminal_operation
    is_failed_operation is_recovery_required status_index status_value handle_checks is_terminal
    is_failed needs_rehearsal needs_previous is_migrated lifecycle_checks first_violation
    pointer_checks
path_stopped_1 =
    advance 50 failed_safe (record unset { failure = some failed }) path_forward_1
      (returned_value
        (transition_manifest forward_1 50 failed_safe (record unset { failure = some failed }))
        forward_1 refl)

active_history_example :
    ((active ∷ DeploymentState.traffic_activated ∷ new_app_healthy ∷ production_migrated
        ∷ final_snapshot_verified ∷ current_app_stopped ∷ maintenance_enabled ∷ candidate_healthy
        ∷ rehearsal_passed ∷ snapshot_verified ∷ preflight_passed ∷ created ∷ [])
      ≡ active ∷ DeploymentState.traffic_activated ∷ new_app_healthy ∷ production_migrated
        ∷ final_snapshot_verified ∷ current_app_stopped ∷ maintenance_enabled ∷ candidate_healthy
        ∷ rehearsal_passed ∷ snapshot_verified ∷ preflight_passed ∷ created ∷ [])
    ⊎ RecoveredTo active forward_13 (
        active ∷ DeploymentState.traffic_activated ∷ new_app_healthy ∷ production_migrated
        ∷ final_snapshot_verified ∷ current_app_stopped ∷ maintenance_enabled ∷ candidate_healthy
        ∷ rehearsal_passed ∷ snapshot_verified ∷ preflight_passed ∷ created ∷ [])
unfolding transitions now_not_before changed validated transition_manifest intent_manifest
    resolve_manifest next_pointers state_index state_is state_in state_value is_terminal_operation
    is_failed_operation is_recovery_required status_index status_value handle_checks is_terminal
    is_failed needs_rehearsal needs_previous is_migrated lifecycle_checks first_violation
    pointer_checks
active_history_example = active_history path_forward_13 refl

rolled_back_history_example :
    ((n : ℕ) × (5 ≤ n)
      × (n ≤ 9)
      × ((rolled_back ∷ rollback_started ∷ maintenance_enabled ∷ candidate_healthy
            ∷ rehearsal_passed ∷ snapshot_verified ∷ preflight_passed ∷ created ∷ [])
          ≡ rolled_back ∷ rollback_started ∷ forward_path n))
    ⊎ RecoveredTo rolled_back back_2 (
        rolled_back ∷ rollback_started ∷ maintenance_enabled ∷ candidate_healthy ∷ rehearsal_passed
        ∷ snapshot_verified ∷ preflight_passed ∷ created ∷ [])
unfolding transitions now_not_before changed validated transition_manifest intent_manifest
    resolve_manifest next_pointers state_index state_is state_in state_value is_terminal_operation
    is_failed_operation is_recovery_required status_index status_value handle_checks is_terminal
    is_failed needs_rehearsal needs_previous is_migrated lifecycle_checks first_violation
    pointer_checks
rolled_back_history_example = rolled_back_history path_back_2 refl

failed_safe_history_example : BeforeMaintenance (failed_safe ∷ preflight_passed ∷ created ∷ [])
unfolding transitions now_not_before changed validated transition_manifest intent_manifest
    resolve_manifest next_pointers state_index state_is state_in state_value is_terminal_operation
    is_failed_operation is_recovery_required status_index status_value handle_checks is_terminal
    is_failed needs_rehearsal needs_previous is_migrated lifecycle_checks first_violation
    pointer_checks
failed_safe_history_example = failed_safe_history path_stopped_1 refl

active_complete_example :
    (is_some forward_13.final_backup_id ≡ true)
    × (is_some forward_13.rehearsal_backup_id ≡ true)
    × (forward_13.production_changed ≡ true)
    × (forward_13.production_migration_started ≡ true)
    × (is_some forward_13.new_application ≡ true)
    × (forward_13.production_health_passed ≡ true)
    × (forward_13.traffic_activation_attempted ≡ true)
    × (forward_13.traffic_activated ≡ true)
    × (is_some forward_13.previous_application ≡ true)
    × (is_some forward_13.failure ≡ false)
unfolding transitions now_not_before changed validated transition_manifest intent_manifest
    resolve_manifest next_pointers state_index state_is state_in state_value is_terminal_operation
    is_failed_operation is_recovery_required status_index status_value handle_checks is_terminal
    is_failed needs_rehearsal needs_previous is_migrated lifecycle_checks first_violation
    pointer_checks
active_complete_example = active_complete forward_13 refl refl
