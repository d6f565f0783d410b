-- ===== src/Deploy/Finish.antt =====
-- dploydb/deploy.py: how a deployment ends: active, failed before a rollback, rolled back, or with
-- recovery required.
use dploy_db.Base.{ℕ, Bool, true, false, not, ◌||◌, none, some, if◌then◌else◌}
use dploy_db.Errors.{DployDbError}
use dploy_db.Models.State.{
  DeploymentState, active, state_value, OperationStatus, succeeded, status_value,
  is_terminal_operation, SafetyFacts,
}
use dploy_db.Models.Manifest.{ReleaseManifest, is_terminal}
use dploy_db.Models.Operation.{OperationManifest, note}
use dploy_db.Raised.{Raised, base_exception}
use dploy_db.World.{Context, Environment, apply_retention}
use dploy_db.Exec.{Exec, pure, raise, when, try_except, ◌>>=◌, ◌>>◌}
use dploy_db.Calls.{run}
use dploy_db.Releases.{unset}
use dploy_db.Releases.Store
use dploy_db.Operations
use dploy_db.Deploy.Report.{failure_record}
use dploy_db.Deploy.Steps.{facts, with_evidence, context}

-- `DeploymentResult`: the release and the operation that `_complete_active` or `_rollback` read back.
pub record DeploymentResult : Type 0 where
  pub release : ReleaseManifest
  pub operation : OperationManifest

-- The terminal states by whether the failure asks for recovery.
abbrev pub failed_release : Bool → DeploymentState
failed_release recovery =
    if recovery then DeploymentState.recovery_required else DeploymentState.failed_safe

abbrev pub failed_operation : Bool → OperationStatus
failed_operation recovery =
    if recovery then OperationStatus.recovery_required else OperationStatus.failed_safe

abbrev pub failure_facts : DployDbError → SafetyFacts
failure_facts e = record {
  production_changed = e.payload.production_changed;
  previous_application_running = e.payload.previous_application_running;
  recovery_required = e.payload.recovery_required;
}

-- `except Exception`: what is no `Exception` goes on.
abbrev pub ignore_exception : Raised → Exec (Unit {0})
ignore_exception (base_exception t) = raise (base_exception t)
ignore_exception e = pure tt

module _ (env : Environment) where
  unfoldable pub retention_failed : ℕ → Raised → Exec (Unit {0})
  retention_failed operation (base_exception t) = raise (base_exception t)
  retention_failed operation e =
      Operations.append_event env operation
        "Backup retention did not complete; the active deployment is preserved and no rollback is permitted after traffic activation."
        note

  unfoldable pub retain : ℕ → Exec (Unit {0})
  retain operation =
      try_except
        (do
          run env apply_retention
          Operations.append_event env operation
              "Backup retention completed after the active release and pointers were durable." note)
        (retention_failed operation)

  -- `_complete_active`
  unfoldable pub complete_active : Exec DeploymentResult
  complete_active = do
    c ← context
    release ← Store.transition env c.release_id active (
        with_evidence c
          (record unset { production_changed = some true; traffic_activated = some true }))
    Store.activate_release env c.release_id
    when env.config.has_retention (retain c.operation_id)
    operation ←
        Operations.transition env c.operation_id succeeded "active"
          "The new release is active and maintenance is disabled." note
          (some (facts true (some false))) none
    pure (record { release = release; operation = operation })

  -- `_finish_failed_before_rollback`
  unfoldable pub finish_failed : DployDbError → Exec (Unit {0})
  finish_failed e = do
    c ← context
    Store.transition env c.release_id (failed_release e.payload.recovery_required) (
        with_evidence c (record unset {
          production_changed = some e.payload.production_changed;
          traffic_activated = some false;
          failure = some (failure_record e);
        }))
    Operations.transition env c.operation_id (failed_operation e.payload.recovery_required)
        (state_value (failed_release e.payload.recovery_required))
        "Deployment stopped before a cutover rollback was required." note (some (failure_facts e))
        (some (failure_record e))
    pure tt

  unfoldable pub mark_release : DployDbError → Context → Exec (Unit {0})
  mark_release e c = do
    Store.transition env c.release_id DeploymentState.recovery_required (
        with_evidence c (record unset {
          production_changed = some (e.payload.production_changed || c.production_may_have_changed);
          traffic_activated = some c.traffic_activated;
          failure = some (failure_record e);
        }))
    pure tt

  -- The release part of `_finish_recovery_required`.
  unfoldable pub release_needs_recovery : DployDbError → Exec (Unit {0})
  release_needs_recovery e = do
    c ← context
    m ← Store.read_manifest env c.release_id
    when (not (is_terminal m.status)) (mark_release e c)

  unfoldable pub mark_operation : DployDbError → Context → Exec (Unit {0})
  mark_operation e c = do
    Operations.transition env c.operation_id OperationStatus.recovery_required "recovery_required"
        "Deployment state requires manual recovery." note
        (some (record {
          production_changed = e.payload.production_changed || c.production_may_have_changed;
          previous_application_running = e.payload.previous_application_running;
          recovery_required = true;
        }))
        (some (failure_record e))
    pure tt

  -- The operation part of `_finish_recovery_required`.
  unfoldable pub operation_needs_recovery : DployDbError → Exec (Unit {0})
  operation_needs_recovery e = do
    c ← context
    m ← Operations.read_manifest env c.operation_id
    when (not (is_terminal_operation m.status)) (mark_operation e c)

  -- `_finish_recovery_required`: each part is tried, and a failure of it is only noted.
  unfoldable pub finish_recovery : DployDbError → Exec (Unit {0})
  finish_recovery e = do
    try_except (release_needs_recovery e) ignore_exception
    try_except (operation_needs_recovery e) ignore_exception

  unfoldable pub fail_operation : ℕ → DployDbError → Exec (Unit {0})
  fail_operation operation e = do
    Operations.transition env operation (failed_operation e.payload.recovery_required)
        (status_value (failed_operation e.payload.recovery_required))
        "Deployment failed before its release manifest was created." note (some (failure_facts e))
        (some (failure_record e))
    pure tt

  -- `_finish_operation_without_release`
  unfoldable pub finish_without_release : ℕ → DployDbError → Exec (Unit {0})
  finish_without_release operation e = do
    current ← Operations.read_manifest env operation
    when (not (is_terminal_operation current.status)) (fail_operation operation e)
