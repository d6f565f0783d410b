-- ===== src/Recovery/Recover.antt =====
-- dploydb/recovery.py: `recover_configured_deployment` and `preview_configured_recovery`. The default
-- dependencies, and closing them, are not in it.
use dploy_db.Base.{ℕ, true, false, not, Option, none, some, if◌then◌else◌}
use dploy_db.Errors.{DployDbError, new_error, recovery_required_error}
use dploy_db.Models.State.{OperationStatus, is_terminal_operation}
use dploy_db.Models.Operation.{note, source_plan, OperationManifest}
use dploy_db.Raised.{Raised, dploydb, base_exception}
use dploy_db.World.{Environment, acquire_lock, record_owner, release_lock}
use dploy_db.Exec.{Exec, pure, raise, ask, raise_if, try_except, ◌>>=◌, ◌>>◌}
use dploy_db.Calls.{ran_entry, run}
use dploy_db.Releases.Store
use dploy_db.Operations
use dploy_db.Deploy.Report.{operation_log, failure_record}
use dploy_db.Deploy.Release.{release_and_raise}
use dploy_db.Recovery.{RecoveryPlan, executable}
use dploy_db.Recovery.Diagnose.{diagnose}
use dploy_db.Recovery.Ownership.{plan_error, acknowledged_stale_owner, take_recovery_ownership}
use dploy_db.Recovery.Execute.{RecoveryResult, facts, execute_recovery_plan}

-- `_normalize_recovery_error`; `none` lets the exception through.
unfoldable pub normalize_recovery : RecoveryPlan → Raised → Option DployDbError
normalize_recovery plan (base_exception t) = none
normalize_recovery plan _ = some (
    new_error recovery_required_error "recovery execution could not be proven"
      plan.production_may_have_changed none operation_log
      "Preserve the recovery log and rerun dploydb recover; repeated actions are re-inspected before execution.")

module _ (env : Environment) where
  unfoldable pub fail_recovery : DployDbError → ℕ → OperationManifest → Exec (Unit {0})
  fail_recovery e operation current = if is_terminal_operation current.status then pure tt else do
    Operations.transition env operation OperationStatus.recovery_required "recovery_required"
        "Recovery execution did not reach a proven terminal state." note
        (some (facts e.payload.production_changed e.payload.previous_application_running true))
        (some (failure_record e))
    pure tt

  -- `_finish_recovery_operation`
  unfoldable pub finish_recovery_operation : ℕ → DployDbError → Exec (Unit {0})
  finish_recovery_operation operation e = do
    current ← Operations.read_manifest env operation
    fail_recovery e operation current

  unfoldable pub finish_or_raise : ℕ → Option DployDbError → Raised → Exec RecoveryResult
  finish_or_raise operation none raw = raise raw
  finish_or_raise operation (some e) raw = do
    finish_recovery_operation operation e
    raise (dploydb e)

  -- `except BaseException` round the execution
  unfoldable pub recovery_failed : RecoveryPlan → ℕ → Raised → Exec RecoveryResult
  recovery_failed plan operation raw = finish_or_raise operation (normalize_recovery plan raw) raw

  -- `lock.record_owner(…, replace_stale_owner_id=…)`
  unfoldable pub replace_owner : Option ℕ → Exec (Unit {0})
  replace_owner stale = ask (λ j. env.replace_owner j stale) (ran_entry record_owner)

  -- The body of `with lock:`, from the authorized plan on.
  unfoldable pub recover_by : RecoveryPlan → Exec RecoveryResult
  recover_by plan = do
    release ← Store.read_manifest env plan.release_id
    stale ← acknowledged_stale_owner env plan
    take_recovery_ownership env plan release
    operation ←
        Operations.create_operation env "recover" "recovery_started"
          (source_plan plan.operation_id plan.release_id)
    replace_owner stale
    try_except (execute_recovery_plan env plan operation.operation_id)
        (recovery_failed plan operation.operation_id)

  -- The body of `with lock:`.
  unfoldable pub locked_recovery : Exec RecoveryResult
  locked_recovery = do
    plan ← diagnose env false
    raise_if (not (executable plan))
        (plan_error plan plan.reason operation_log plan.next_safe_action)
    recover_by plan

  -- `recover_configured_deployment`
  unfoldable pub recover_configured_deployment : Exec RecoveryResult
  recover_configured_deployment = do
    run env acquire_lock
    result ← try_except locked_recovery (release_and_raise env)
    run env release_lock
    pure result

  -- `preview_configured_recovery`
  unfoldable pub preview_configured_recovery : Exec RecoveryPlan
  preview_configured_recovery = diagnose env true
