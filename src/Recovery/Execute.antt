-- ===== src/Recovery/Execute.antt =====
-- dploydb/recovery.py: `_execute_recovery_plan`, one step of the plan after the other.
use dploy_db.Base.{
  ℕ, String, Bool, true, false, not, Option, none, some, List, [], ◌∷◌, if◌then◌else◌, option_eq,
}
use dploy_db.Command.{TrafficAction, activate_old, passed}
use dploy_db.Errors.{new_error, recovery_required_error}
use dploy_db.Models.State.{
  DeploymentState, active, rolled_back, in_progress, succeeded, SafetyFacts,
}
use dploy_db.Models.Manifest.{ProductionApplicationHandle, ReleaseManifest}
use dploy_db.Models.Operation.{note, OperationManifest}
use dploy_db.Raised.{Raised, dploydb}
use dploy_db.World.{Environment, BackupArtifact, remove_new, restart, verify_sqlite, check_health}
use dploy_db.Exec.{Exec, pure, raise, raise_if, ◌>>=◌, ◌>>◌}
use dploy_db.Calls.{run, run_hook, inject, inspect_application, restore_database}
use dploy_db.Releases.Store
use dploy_db.Operations
use dploy_db.Deploy.Report.{operation_log}
use dploy_db.Deploy.Steps.{hook_facts}
use dploy_db.Recovery.{
  RecoveryPlan, RecoveryAction, remove_new_application, restore_final_backup,
  restart_previous_application, activate_previous_traffic, disable_maintenance, verify_previous,
  mark_rolled_back, verify_new, mark_active,
}
use dploy_db.Recovery.Diagnose.{open_verified}
use dploy_db.Recovery.Ownership.{plan_error}

pub record RecoveryResult : Type 0 where
  pub plan : RecoveryPlan
  pub operation : OperationManifest
  pub release : ReleaseManifest

-- `f"recovery_{action.value}"`
unfoldable pub recovery_stage : RecoveryAction → String
recovery_stage remove_new_application = "recovery_remove_new_application"
recovery_stage restore_final_backup = "recovery_restore_final_backup"
recovery_stage restart_previous_application = "recovery_restart_previous_application"
recovery_stage activate_previous_traffic = "recovery_activate_previous_traffic"
recovery_stage disable_maintenance = "recovery_disable_maintenance"
recovery_stage verify_previous = "recovery_verify_previous"
recovery_stage mark_rolled_back = "recovery_mark_rolled_back"
recovery_stage verify_new = "recovery_verify_new"
recovery_stage mark_active = "recovery_mark_active"

-- `f"after_{action.value}"`
unfoldable pub fault_point : RecoveryAction → String
fault_point remove_new_application = "after_remove_new_application"
fault_point restore_final_backup = "after_restore_final_backup"
fault_point restart_previous_application = "after_restart_previous_application"
fault_point activate_previous_traffic = "after_activate_previous_traffic"
fault_point disable_maintenance = "after_disable_maintenance"
fault_point verify_previous = "after_verify_previous"
fault_point mark_rolled_back = "after_mark_rolled_back"
fault_point verify_new = "after_verify_new"
fault_point mark_active = "after_mark_active"

unfoldable pub facts : Bool → Option Bool → Bool → SafetyFacts
facts changed running required = record {
  production_changed = changed;
  previous_application_running = running;
  recovery_required = required;
}

-- The errors of the steps, with what they say of production.
unfoldable pub step_error : String → Bool → Option Bool → String → Raised
step_error detail changed running next =
    dploydb (new_error recovery_required_error detail changed running operation_log next)

unfoldable pub outcome_state : Bool → DeploymentState
outcome_state true = active
outcome_state false = rolled_back

module _ (env : Environment) where
  -- `_record_recovery_hook` and `_require_recovery_hook`
  unfoldable pub recover_hook : RecoveryPlan → ℕ → TrafficAction → Exec (Unit {0})
  recover_hook plan operation action = do
    hook ← run_hook env action
    Operations.append_event env operation "Recovery traffic hook reached a terminal outcome."
        (hook_facts hook)
    raise_if (not (passed hook)) (
        plan_error plan "recovery traffic hook did not pass" operation_log
          "Keep maintenance enabled and inspect the recorded hook evidence.")

  -- `RecoveryAction.REMOVE_NEW_APPLICATION`
  unfoldable pub remove_new_release :
      RecoveryPlan → ℕ → Option ProductionApplicationHandle → Exec (Unit {0})
  remove_new_release plan operation none = raise (
      step_error "recovery plan requires a missing new-application handle"
        plan.production_may_have_changed (some false)
        "Keep traffic blocked and inspect release resources.")
  remove_new_release plan operation (some h) = do
    run env remove_new
    Operations.append_event env operation "New-release cleanup was proven during recovery." note

  -- `RecoveryAction.RESTART_PREVIOUS_APPLICATION`
  unfoldable pub restart_previous_release :
      RecoveryPlan → ℕ → Option ProductionApplicationHandle → Exec (Unit {0})
  restart_previous_release plan operation none = raise (
      plan_error plan "recovery previous-application identity is missing" operation_log
        "Keep maintenance enabled and inspect production.")
  restart_previous_release plan operation (some h) = do
    run env restart
    Operations.append_event env operation
        "The exact previous application was restarted during recovery." note

  unfoldable pub incomplete_prerequisites : Raised
  incomplete_prerequisites =
      step_error "recovery database prerequisites are incomplete" true none
        "Keep every application stopped and inspect the final backup."

  -- The body of `with open_verified_configured_backup(…)`.
  unfoldable pub restore_artifact : Option ℕ → BackupArtifact → Exec (Unit {0})
  restore_artifact recorded artifact = do
    raise_if (not (option_eq (some artifact.sha256) recorded)) (
        dploydb (
          new_error recovery_required_error
            "recovery final backup checksum contradicts the release manifest" true (some false)
            (some artifact.metadata_path) "Do not restore the contradictory backup."))
    restore_database env artifact
    pure tt

  -- `_execute_database_recovery`
  unfoldable pub database_recovery :
      ℕ → ReleaseManifest → Option ProductionApplicationHandle → Option ℕ → Exec (Unit {0})
  database_recovery operation release none _ = raise incomplete_prerequisites
  database_recovery operation release (some h) none = raise incomplete_prerequisites
  database_recovery operation release (some h) (some id) = do
    inspect_application env h false
    artifact ← open_verified env id
    restore_artifact release.final_backup_sha256 artifact
    Operations.append_event env operation "The verified final backup was restored during recovery."
        note

  -- `_verify_recovery_application`
  unfoldable pub verify_application : ℕ → Option ProductionApplicationHandle → Exec (Unit {0})
  verify_application operation none = raise (
      step_error "application identity is missing for recovery verification" true none
        "Inspect the live production application manually.")
  verify_application operation (some h) = do
    run env verify_sqlite
    run env check_health
    Operations.append_event env operation "Database and application health passed recovery checks."
        note

  unfoldable pub inspect_new : Option ProductionApplicationHandle → Exec (Unit {0})
  inspect_new none = pure tt
  inspect_new (some h) = do inspect_application env h true; pure tt

  unfoldable pub select_active : Bool → ReleaseManifest → Exec (Unit {0})
  select_active true release = do Store.activate_release env release.release_id; pure tt
  select_active false release = pure tt

  -- `_complete_recovery`, for `active = (action is RecoveryAction.MARK_ACTIVE)`
  unfoldable pub complete_recovery : RecoveryPlan → ℕ → ReleaseManifest → Bool → Exec RecoveryResult
  complete_recovery plan operation release is_active = do
    resolved ←
        Store.resolve_recovery env release.release_id (outcome_state is_active) operation is_active
    select_active is_active resolved
    m ←
        Operations.transition env operation succeeded
          (if is_active then "recovered_active" else "recovered_rolled_back")
          (if is_active
            then "Recovery verified and activated the new release."
            else "Recovery restored and verified the previous release.")
          note (some (facts plan.production_may_have_changed (some (not is_active)) false)) none
    pure (record { plan = plan; operation = m; release = resolved })

  unfoldable pub step_done : Exec (Unit {0}) → Exec (Option RecoveryResult)
  step_done m = do m; pure none

  unfoldable pub finished : Exec RecoveryResult → Exec (Option RecoveryResult)
  finished m = do r ← m; pure (some r)

  -- The branches on the action; `some` is a `return`.
  unfoldable pub perform :
      RecoveryPlan → ℕ → ReleaseManifest → RecoveryAction → Exec (Option RecoveryResult)
  perform plan operation release remove_new_application =
      step_done (remove_new_release plan operation release.new_application)
  perform plan operation release restore_final_backup =
      step_done
        (database_recovery operation release release.previous_application release.final_backup_id)
  perform plan operation release restart_previous_application =
      step_done (restart_previous_release plan operation release.previous_application)
  perform plan operation release activate_previous_traffic =
      step_done (recover_hook plan operation activate_old)
  perform plan operation release disable_maintenance =
      step_done (recover_hook plan operation TrafficAction.disable_maintenance)
  perform plan operation release verify_previous =
      step_done (verify_application operation release.previous_application)
  perform plan operation release verify_new =
      step_done (
        inspect_new release.new_application >> verify_application operation release.new_application)
  perform plan operation release mark_rolled_back =
      finished (complete_recovery plan operation release false)
  perform plan operation release mark_active =
      finished (complete_recovery plan operation release true)

  -- What follows an action.
  unfoldable pub go_on :
      RecoveryAction → Exec RecoveryResult → Option RecoveryResult → Exec RecoveryResult
  go_on action rest (some r) = pure r
  go_on action rest none = do inject env (fault_point action); rest

  unfoldable pub begin_action : RecoveryPlan → ℕ → RecoveryAction → Exec OperationManifest
  begin_action plan operation action =
      Operations.transition env operation in_progress (recovery_stage action)
        "Recovery action is starting." note
        (some (facts plan.production_may_have_changed none false)) none

  -- The loop over the actions.
  unfoldable pub execute_actions :
      RecoveryPlan → ℕ → ReleaseManifest → List RecoveryAction → Exec RecoveryResult
  execute_actions plan operation release [] = raise (
      plan_error plan "recovery plan ended without a terminal marking action" operation_log
        "Preserve recovery evidence and inspect the plan.")
  execute_actions plan operation release (a ∷ more) = do
    begin_action plan operation a
    result ← perform plan operation release a
    go_on a (execute_actions plan operation release more) result

  -- `_execute_recovery_plan`
  unfoldable pub execute_recovery_plan : RecoveryPlan → ℕ → Exec RecoveryResult
  execute_recovery_plan plan operation = do
    release ← Store.read_manifest env plan.release_id
    execute_actions plan operation release plan.actions
