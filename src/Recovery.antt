-- ===== src/Recovery.antt =====
-- dploydb/recovery.py: the plan that reconciles the durable records of an interrupted deployment
-- with the live resources, `build_recovery_plan` and the functions it calls. Taking the facts and
-- executing the plan are not modelled here.
pub mod Plan
pub mod Diagnose
pub mod Ownership
pub mod Execute
pub mod Recover
pub mod Results
pub mod Blocked
pub mod Calm
pub mod Restores
use text.Mathlib.Text.{◌==◌ as str_eq}
use dploy_db.Base.{
  ℕ, String, Bool, true, false, not, ◌&&◌, ◌||◌, Option, none, some, List, [], ◌∷◌, ◌++◌, ◌==◌,
  if◌then◌else◌, is_none, is_some, option_eq, last?,
}
use dploy_db.Command.{
  CommandOutcome, succeeded, start_failed, cancelled, outcome_is, TrafficAction, activate_new,
}
use dploy_db.Models.State.{
  DeploymentState, created, preflight_passed, snapshot_verified, rehearsal_passed,
  candidate_healthy, active, rolled_back, state_in, is_terminal_operation,
}
use dploy_db.Models.Manifest.{ReleaseManifest}
use dploy_db.Models.Operation.{
  Evidence, note, traffic_hook, source_plan, OperationManifest, OperationEvent,
}

pub data ApplicationRuntimeState : Type 0 where
  running stopped absent unknown : ApplicationRuntimeState

pub data RecoveryDisposition : Type 0 where
  no_action recover_previous complete_new manual_required : RecoveryDisposition

pub data RecoveryAction : Type 0 where
  remove_new_application restore_final_backup restart_previous_application activate_previous_traffic
        disable_maintenance verify_previous mark_rolled_back verify_new mark_active :
      RecoveryAction

pub record RecoveryLiveState : Type 0 where
  pub previous_application : ApplicationRuntimeState
  pub new_application : ApplicationRuntimeState
  pub final_backup_verified : Bool
  pub production_database_sha256 : Option ℕ
  pub final_backup_sha256 : Option ℕ

pub record RecoveryPlan : Type 0 where
  pub disposition : RecoveryDisposition
  pub release_id : ℕ
  pub operation_id : ℕ
  pub durable_stage : String
  pub production_may_have_changed : Bool
  pub traffic_may_have_switched : Bool
  pub automatic_database_restore_allowed : Bool
  pub actions : List RecoveryAction
  pub reason : String
  pub next_safe_action : String
  pub final_backup_id : Option ℕ

-- The property `executable`.
unfoldable pub executable : RecoveryPlan → Bool
executable p = elim p.disposition [ recover_previous ↦ true | complete_new ↦ true | _ ↦ false ]

-- The tests of `_identity_problem` on the last event.
trail_problem : OperationManifest → Option OperationEvent → Option String
trail_problem operation none =
    some "The operation event trail is missing or belongs to another operation."
trail_problem operation (some final) =
    if not (final.operation_id == operation.operation_id)
    then some "The operation event trail is missing or belongs to another operation."
    else if not (final.sequence == operation.last_event_sequence)
    then some "The operation event trail is incomplete."
    else none

-- `_identity_problem`
unfoldable pub identity_problem :
    OperationManifest → List OperationEvent → ReleaseManifest → Option String
unfolding trail_problem
identity_problem operation events release =
    if not (str_eq operation.operation_type "deploy")
    then some "The unfinished operation is not a deployment."
    else if not (operation.operation_id == release.operation_id)
    then some "The release and operation identities do not match."
    else trail_problem operation (last? events)

pub data Conclusion : Type 0 where
  activation_succeeded not_attempted not_started uncertain : Conclusion

is_activate_new : TrafficAction → Bool
is_activate_new activate_new = true
is_activate_new _ = false

-- The body of the loop of `_activation_conclusion`.
unfoldable pub pick_activation : Option Evidence → Evidence → Option Evidence
unfolding is_activate_new
pick_activation terminal note = terminal
pick_activation terminal (source_plan _ _) = terminal
pick_activation terminal (traffic_hook a p o x) =
    if is_activate_new a then some (traffic_hook a p o x) else terminal

-- The evidence of the last activation hook among the events: the loop of `_activation_conclusion`.
unfoldable pub last_activation : Option Evidence → List OperationEvent → Option Evidence
unfolding pick_activation
last_activation terminal [] = terminal
last_activation terminal (e ∷ es) = last_activation (pick_activation terminal e.evidence) es

-- What one piece of activation evidence concludes.
unfoldable pub concluded : Option Evidence → Conclusion
unfolding outcome_is
concluded none = uncertain
concluded (some note) = uncertain
concluded (some (source_plan _ _)) = uncertain
concluded (some (traffic_hook a p o x)) =
    if p && outcome_is o succeeded
    then activation_succeeded
    else if outcome_is o start_failed || (outcome_is o cancelled && is_none x)
    then not_started
    else uncertain

-- `_activation_conclusion`
unfoldable pub activation_conclusion : ReleaseManifest → List OperationEvent → Conclusion
activation_conclusion release events =
    if release.traffic_activated
    then activation_succeeded
    else if not release.traffic_activation_attempted
    then not_attempted
    else concluded (last_activation none events)

-- `_manual`
unfoldable pub manual : OperationManifest → ReleaseManifest → String → Bool → Bool → RecoveryPlan
manual operation release reason changed switched = record {
  disposition = manual_required;
  release_id = release.release_id;
  operation_id = operation.operation_id;
  durable_stage = operation.stage;
  production_may_have_changed = changed;
  traffic_may_have_switched = switched;
  automatic_database_restore_allowed = false;
  actions = [];
  reason = reason;
  next_safe_action =
      "Preserve all evidence, determine the live application and traffic target, and do not restore the database automatically.";
  final_backup_id = release.final_backup_id;
}

unfoldable pub runtime_is_running : ApplicationRuntimeState → Bool
runtime_is_running running = true
runtime_is_running _ = false

unfoldable pub runtime_is_stopped : ApplicationRuntimeState → Bool
runtime_is_stopped stopped = true
runtime_is_stopped _ = false

unfoldable pub runtime_is_unknown : ApplicationRuntimeState → Bool
runtime_is_unknown unknown = true
runtime_is_unknown _ = false

unfoldable pub is_absent_or_unknown : ApplicationRuntimeState → Bool
is_absent_or_unknown absent = true
is_absent_or_unknown unknown = true
is_absent_or_unknown _ = false

-- `release.production_changed or release.production_migration_started or …`
unfoldable pub may_have_changed : OperationManifest → ReleaseManifest → Bool
may_have_changed operation release =
    release.production_changed || release.production_migration_started
    || operation.safety.production_changed

unfoldable pub database_matches_final : RecoveryLiveState → Bool
database_matches_final live =
    is_some live.production_database_sha256
    && option_eq live.production_database_sha256 live.final_backup_sha256

-- The plan of a release whose new traffic was activated.
unfoldable pub complete_plan :
    OperationManifest → ReleaseManifest → RecoveryLiveState → RecoveryPlan
unfolding runtime_is_running manual
complete_plan operation release live =
    if not (runtime_is_running live.new_application)
    then manual operation release
        "New traffic was activated but the exact checked application is not running." true true
    else record {
      disposition = complete_new;
      release_id = release.release_id;
      operation_id = operation.operation_id;
      durable_stage = operation.stage;
      production_may_have_changed = true;
      traffic_may_have_switched = true;
      automatic_database_restore_allowed = false;
      actions = disable_maintenance ∷ verify_new ∷ mark_active ∷ [];
      reason = "New traffic activation succeeded before the operation was interrupted.";
      next_safe_action =
          "Keep the new database and application; finish maintenance cleanup and verify the new release.";
      final_backup_id = release.final_backup_id;
    }

-- The ordered actions back to the previous release.
unfoldable pub recovery_actions :
    OperationManifest → ReleaseManifest → RecoveryLiveState → List RecoveryAction
unfolding runtime_is_running runtime_is_stopped
recovery_actions operation release live =
    (if runtime_is_running live.new_application || runtime_is_stopped live.new_application
      then remove_new_application ∷ []
      else [])
    ++ (if may_have_changed operation release && not (database_matches_final live)
        then restore_final_backup ∷ []
        else [])
    ++ (if runtime_is_stopped live.previous_application
        then restart_previous_application ∷ []
        else [])
    ++ activate_previous_traffic ∷ disable_maintenance ∷ verify_previous ∷ mark_rolled_back ∷ []

-- The plan of a release whose new traffic was not activated.
unfoldable pub previous_plan :
    OperationManifest → ReleaseManifest → RecoveryLiveState → RecoveryPlan
unfolding runtime_is_running runtime_is_stopped runtime_is_unknown is_absent_or_unknown manual
previous_plan operation release live =
    let changed = may_have_changed operation release in
    if state_in release.status
      (created ∷ preflight_passed ∷ snapshot_verified ∷ rehearsal_passed ∷ candidate_healthy ∷ [])
    then manual operation release
        "The operation stopped before the exact production application was durably stored." false
        false
    else if is_none release.previous_application
    then manual operation release "The exact previous application identity is missing." changed
        false
    else if is_absent_or_unknown live.previous_application
    then manual operation release "The exact previous application cannot be inspected safely."
        changed false
    else if runtime_is_unknown live.new_application
    then manual operation release "New-release application presence cannot be proven." changed false
    else if (runtime_is_running live.new_application || runtime_is_stopped live.new_application)
        && is_none release.new_application
    then manual operation release
        "A new-release resource exists without a durable exact application handle." changed false
    else if changed && (is_none release.final_backup_id || not live.final_backup_verified)
    then manual operation release
        "Production may have changed but the final backup is not verified." true false
    else if changed
        && not (database_matches_final live)
        && runtime_is_running live.previous_application
    then manual operation release
        "The previous application is running while the database needs restoration." true false
    else record {
      disposition = recover_previous;
      release_id = release.release_id;
      operation_id = operation.operation_id;
      durable_stage = operation.stage;
      production_may_have_changed = changed;
      traffic_may_have_switched = false;
      automatic_database_restore_allowed = true;
      actions = recovery_actions operation release live;
      reason = "Durable evidence proves recovery to the previous release is safe.";
      next_safe_action = "Execute the ordered recovery plan and verify every resulting state.";
      final_backup_id = release.final_backup_id;
    }

-- The branches on the conclusion.
unfoldable pub plan_by_conclusion :
    Conclusion → OperationManifest → ReleaseManifest → RecoveryLiveState → RecoveryPlan
unfolding manual
plan_by_conclusion activation_succeeded operation release live =
    complete_plan operation release live
plan_by_conclusion uncertain operation release live =
    manual operation release
      "New-traffic activation was attempted without proof of the live target." true true
plan_by_conclusion not_attempted operation release live = previous_plan operation release live
plan_by_conclusion not_started operation release live = previous_plan operation release live

-- A terminal state that needs no recovery.
unfoldable pub is_settled : OperationManifest → ReleaseManifest → Bool
is_settled operation release =
    state_in release.status (active ∷ rolled_back ∷ DeploymentState.failed_safe ∷ [])
    && (is_terminal_operation operation.status || is_some release.recovery_operation_id)

-- `build_recovery_plan`
unfoldable pub build_recovery_plan :
    OperationManifest → List OperationEvent → ReleaseManifest → RecoveryLiveState → RecoveryPlan
unfolding manual
build_recovery_plan operation events release live =
    elim (identity_problem operation events release) [
      | some mismatch ↦ manual operation release mismatch true false
      | none ↦
          if is_settled operation release
          then record {
            disposition = no_action;
            release_id = release.release_id;
            operation_id = operation.operation_id;
            durable_stage = operation.stage;
            production_may_have_changed = release.production_changed;
            traffic_may_have_switched = release.traffic_activated;
            automatic_database_restore_allowed = not release.traffic_activated;
            actions = [];
            reason = "The deployment already has a proven terminal state.";
            next_safe_action = "No recovery action is required.";
            final_backup_id = release.final_backup_id;
          }
          else if not (option_eq release.recovery_protocol_version (some 2))
          then manual operation release
              "The interrupted release predates durable recovery intent markers." true false
          else plan_by_conclusion (activation_conclusion release events) operation release live
    ]
