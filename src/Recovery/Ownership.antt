-- ===== src/Recovery/Ownership.antt =====
-- dploydb/recovery.py: how a recovery takes over from the interrupted process,
-- `_acknowledged_stale_owner_id` and `_take_recovery_ownership`.
pub mod Keeps
use text.Mathlib.Text.{◌==◌ as str_eq}
use dploy_db.Base.{
  ℕ, String, Bool, true, false, not, ◌&&◌, ◌||◌, Option, none, some, List, [], ◌∷◌, ◌==◌,
  if◌then◌else◌,
}
use dploy_db.Errors.{new_error, recovery_required_error}
use dploy_db.Models.Lock.{LockOwnerMetadata, is_active}
use dploy_db.Models.State.{
  DeploymentState, OperationStatus, SafetyFacts, FailureRecord, is_terminal_operation, state_is,
}
use dploy_db.Models.Manifest.{ReleaseManifest}
use dploy_db.Models.Operation.{note, source_plan, OperationManifest, OperationEvent}
use dploy_db.Raised.{Raised, dploydb, returned}
use dploy_db.World.{Environment, silent}
use dploy_db.Exec.{Exec, pure, raise, ask, raise_if, try_except, ◌>>=◌, ◌>>◌}
use dploy_db.Releases.{Changes, unset}
use dploy_db.Releases.Store
use dploy_db.Operations
use dploy_db.Recovery.{RecoveryPlan, RecoveryDisposition, complete_new}

-- `RecoveryRequiredError`, as the recovery raises it for a plan.
unfoldable pub plan_error : RecoveryPlan → String → Option String → String → Raised
plan_error plan detail log next =
    dploydb
      (new_error recovery_required_error detail plan.production_may_have_changed none log next)

-- The source plan that the first event names is this plan.
unfoldable pub names_plan : RecoveryPlan → List OperationEvent → Bool
names_plan plan [] = false
names_plan plan (e ∷ es) = elim e.evidence [
  | source_plan operation release ↦ operation == plan.operation_id && release == plan.release_id
  | _ ↦ false
]

-- `related_recovery`
unfoldable pub is_related : RecoveryPlan → OperationManifest → List OperationEvent → Bool
unfolding names_plan
is_related plan operation events =
    str_eq operation.operation_type "recover"
    && not (is_terminal_operation operation.status)
    && names_plan plan events

-- `failure`
unfoldable pub superseded : FailureRecord
superseded = record {
  error_code = "recovery_required";
  what_failed = "The prior operation was interrupted and recovery took ownership.";
  log_path = some "events.jsonl";
  next_safe_action = "Continue only through the recorded recovery plan.";
}

unfoldable pub is_complete_new : RecoveryDisposition → Bool
is_complete_new complete_new = true
is_complete_new _ = false

-- The changes of the release that `_take_recovery_ownership` stores.
unfoldable pub ownership_changes : RecoveryPlan → Changes
unfolding is_complete_new superseded
ownership_changes plan = record unset {
  production_changed = some plan.production_may_have_changed;
  traffic_activated = some (is_complete_new plan.disposition);
  failure = some superseded;
}

module _ (env : Environment) where
  -- `lock.previous_owner`
  unfoldable pub previous_owner : Exec (Option LockOwnerMetadata)
  previous_owner = ask (λ j. returned (env.previous_owner j)) (λ _. silent)

  unfoldable pub owner_records : ℕ → Exec (OperationManifest × List OperationEvent)
  owner_records id = do
    m ← Operations.read_manifest env id
    events ← Operations.read_events env id
    pure (m, events)

  -- `except DployDBError` round the reads of the owner's operation
  unfoldable pub uncorrelated :
      RecoveryPlan → Raised → Exec (OperationManifest × List OperationEvent)
  uncorrelated plan (dploydb e) = raise (
      plan_error plan "stale deployment-lock ownership cannot be correlated to durable state"
        (some "lock-owner") "Preserve the lock metadata and operation history for inspection.")
  uncorrelated plan e = raise e

  -- An ACTIVE owner of another operation: it must be an interrupted recovery of this plan.
  unfoldable pub related_owner : RecoveryPlan → LockOwnerMetadata → Exec (Option ℕ)
  related_owner plan owner = do
    (m, events) ← try_except (owner_records owner.operation_id) (uncorrelated plan)
    raise_if (not (is_related plan m events)) (
        plan_error plan "stale deployment-lock ownership belongs to a different operation"
          (some "lock-owner")
          "Do not replace the owner token; reconcile the recorded lock and operations.")
    pure (some owner.owner_id)

  unfoldable pub acknowledge : RecoveryPlan → Option LockOwnerMetadata → Exec (Option ℕ)
  acknowledge plan none = pure none
  acknowledge plan (some owner) =
      if not (is_active owner.state)
      then pure none
      else if owner.operation_id == plan.operation_id
      then pure (some owner.owner_id)
      else related_owner plan owner

  -- `_acknowledged_stale_owner_id`
  unfoldable pub acknowledged_stale_owner : RecoveryPlan → Exec (Option ℕ)
  acknowledged_stale_owner plan = do owner ← previous_owner; acknowledge plan owner

  unfoldable pub superseded_facts : RecoveryPlan → OperationManifest → SafetyFacts
  superseded_facts plan operation = record {
    production_changed = operation.safety.production_changed || plan.production_may_have_changed;
    previous_application_running = none;
    recovery_required = true;
  }

  -- The end of an unfinished operation.
  unfoldable pub supersede : RecoveryPlan → OperationManifest → Exec (Unit {0})
  supersede plan operation = do
    raise_if
        (not (operation.operation_id == plan.operation_id)
          && not (str_eq operation.operation_type "recover"))
        (plan_error plan "an unrelated unfinished operation blocks automatic recovery"
          (some "events.jsonl") "Resolve the unrelated operation before deployment recovery.")
    Operations.transition env operation.operation_id OperationStatus.recovery_required
        "recovery_required" "An interrupted operation was superseded by explicit recovery." note
        (some (superseded_facts plan operation)) (some superseded)
    pure tt

  -- The body of the loop.
  unfoldable pub take_over : RecoveryPlan → OperationManifest → Exec (Unit {0})
  take_over plan operation =
      if is_terminal_operation operation.status then pure tt else supersede plan operation

  unfoldable pub take_over_all : RecoveryPlan → List OperationManifest → Exec (Unit {0})
  take_over_all plan [] = pure tt
  take_over_all plan (m ∷ ms) = do take_over plan m; take_over_all plan ms

  unfoldable pub require_recovery : RecoveryPlan → ReleaseManifest → Exec (Unit {0})
  require_recovery plan release = do
    Store.transition env release.release_id DeploymentState.recovery_required
        (ownership_changes plan)
    pure tt

  unfoldable pub mark_release : RecoveryPlan → ReleaseManifest → Exec (Unit {0})
  mark_release plan release =
      if state_is release.status DeploymentState.recovery_required
      then pure tt
      else require_recovery plan release

  -- `_take_recovery_ownership`
  unfoldable pub take_recovery_ownership : RecoveryPlan → ReleaseManifest → Exec (Unit {0})
  take_recovery_ownership plan release = do
    operations ← Operations.list_operations env
    take_over_all plan operations
    mark_release plan release
