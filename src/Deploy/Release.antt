-- ===== src/Deploy/Release.antt =====
-- dploydb/deploy.py: `deploy_configured_release`, with the lock of dploydb/locking.py as calls of the
-- outside and with `require_clean_operation_state` of dploydb/migration.py. The checks of the
-- arguments before the lock, and the default dependencies, are not in it.
pub mod Clean
use dploy_db.Base.{ℕ, Bool, false, not, ◌||◌, Option, none, some, []}
use dploy_db.Errors.{DployDbError, new_error, recovery_required_error}
use dploy_db.Models.State.{is_terminal_operation, is_recovery_required}
use dploy_db.Models.Lock.{owner_active}
use dploy_db.Models.Manifest.{ProductionApplicationHandle, ReleaseManifest}
use dploy_db.Models.Operation.{OperationManifest, note}
use dploy_db.Raised.{Raised, dploydb, base_exception, returned}
use dploy_db.World.{Context, Environment, silent, acquire_lock, record_owner, release_lock}
use dploy_db.Exec.{Exec, pure, raise, ask, modify, raise_if, try_except, ◌>>=◌, ◌>>◌}
use dploy_db.Calls.{run}
use dploy_db.Releases.Store
use dploy_db.Operations
use dploy_db.Deploy.Report.{operation_log}
use dploy_db.Deploy.Finish.{DeploymentResult, finish_without_release}
use dploy_db.Deploy.Coordinator.{run_deployment}

-- The context that `deploy_configured_release` builds.
unfoldable pub new_context : ℕ → ℕ → Option ProductionApplicationHandle → Context → Context
new_context operation release previous _ = record {
  operation_id = operation;
  release_id = release;
  previous = previous;
  stopped = none;
  final_backup = none;
  new_application = none;
  maintenance_enabled = false;
  production_may_have_changed = false;
  traffic_activation_attempted = false;
  traffic_activated = false;
  hook_evidence = [];
  health_evidence = [];
}

unfoldable pub application_of : Option ReleaseManifest → Option ProductionApplicationHandle
application_of none = none
application_of (some m) = m.new_application

-- `unexpected_error`
unfoldable pub unexpected : DployDbError
unexpected =
    new_error recovery_required_error "deployment coordinator failed unexpectedly" false none
      operation_log
      "Preserve the operation and release evidence; inspect production before taking any recovery action."

-- `latest.status in {IN_PROGRESS, RECOVERY_REQUIRED}`
unfoldable pub blocks_work : OperationManifest → Bool
blocks_work m = not (is_terminal_operation m.status) || is_recovery_required m.status

module _ (env : Environment) where
  unfoldable pub owner_left : Exec Bool
  owner_left = ask (λ j. returned (owner_active (env.previous_owner j))) (λ _. silent)

  unfoldable pub refuse_latest : Option OperationManifest → Exec (Unit {0})
  refuse_latest none = pure tt
  refuse_latest (some m) = raise_if (blocks_work m) (
      dploydb (
        new_error recovery_required_error
          "An unfinished or recovery-required operation blocks migration rehearsal."
          m.safety.production_changed m.safety.previous_application_running operation_log
          "Run dploydb status and resolve the recorded operation first."))

  -- `require_clean_operation_state`
  unfoldable pub require_clean : Exec (Unit {0})
  require_clean = do
    left ← owner_left
    raise_if left (
        dploydb (
          new_error recovery_required_error "A prior operation left active lock-owner evidence."
            false none (some "lock-owner")
            "Run dploydb status and preserve the interrupted evidence."))
    latest ← Operations.latest_operation env
    refuse_latest latest

  -- `except DployDBError` and `except Exception`, with no release created yet
  unfoldable pub failed_before_release : ℕ → Raised → Exec ReleaseManifest
  failed_before_release operation (dploydb e) = do
    finish_without_release env operation e
    raise (dploydb e)
  failed_before_release operation (base_exception t) = raise (base_exception t)
  failed_before_release operation _ = do
    finish_without_release env operation unexpected
    raise (dploydb unexpected)

  -- The same with a release.
  unfoldable pub failed_after_release : Raised → Exec DeploymentResult
  failed_after_release (dploydb e) = raise (dploydb e)
  failed_after_release (base_exception t) = raise (base_exception t)
  failed_after_release _ = raise (dploydb unexpected)

  unfoldable pub begin_release : ℕ → Option ReleaseManifest → Exec ReleaseManifest
  begin_release operation active =
      Store.create_release env operation "events.jsonl" (application_of active)

  unfoldable pub prepare_release : ℕ → Exec ReleaseManifest
  prepare_release operation =
      try_except
        (do
          active ← Store.active_release env
          release ← begin_release operation active
          modify (new_context operation release.release_id (application_of active))
          pure release)
        (failed_before_release operation)

  -- The body of `with lock:`.
  unfoldable pub locked_deployment : Exec DeploymentResult
  locked_deployment = do
    require_clean
    operation ← Operations.create_operation env "deploy" "created" note
    run env record_owner
    prepare_release operation.operation_id
    try_except (run_deployment env) failed_after_release

  unfoldable pub keep_original : Raised → Exec (Unit {0})
  keep_original _ = pure tt

  -- `__exit__` where the body raised: a failed release of the lock is only noted.
  unfoldable pub release_and_raise : {A : Type 0} → Raised → Exec A
  release_and_raise e = do try_except (run env release_lock) keep_original; raise e

  -- `deploy_configured_release`
  unfoldable pub deploy_configured_release : Exec DeploymentResult
  deploy_configured_release = do
    run env acquire_lock
    result ← try_except locked_deployment release_and_raise
    run env release_lock
    pure result
