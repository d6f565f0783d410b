-- ===== src/Deploy/Rollback.antt =====
-- dploydb/deploy.py: `_rollback`, the way back before new traffic was activated.
use dploy_db.Base.{true, false, not, ◌||◌, Option, none, some, is_none}
use dploy_db.Command.{activate_old, disable_maintenance, TrafficHookResult, passed}
use dploy_db.Errors.{DployDbError, new_error, recovery_required_error}
use dploy_db.Models.State.{rolled_back, rollback_started, OperationStatus}
use dploy_db.Models.Manifest.{ProductionApplicationHandle}
use dploy_db.Models.Operation.{note}
use dploy_db.Raised.{Raised, dploydb}
use dploy_db.World.{Context, Environment, remove_new, restart}
use dploy_db.Exec.{Exec, pure, raise, modify, raise_if, when, for_some, try_except, ◌>>=◌, ◌>>◌}
use dploy_db.Calls.{run, run_hook}
use dploy_db.Releases.{unset}
use dploy_db.Releases.Store
use dploy_db.Operations
use dploy_db.Cutover.{restore_final}
use dploy_db.Deploy.Report.{failure_record, hook_error, normalize, operation_log}
use dploy_db.Deploy.Steps.{
  facts, with_evidence, context, require_some, persist_stage, record_hook, verify_previous,
}
use dploy_db.Deploy.Finish.{DeploymentResult, finish_recovery}

module _ (env : Environment) where
  -- `if context.new_application is not None:`
  unfoldable pub remove_failed : ProductionApplicationHandle → Exec (Unit {0})
  remove_failed _ = do
    run env remove_new
    c ← context
    Operations.append_event env c.operation_id "Failed new-release application cleanup was proven."
        note

  -- `if context.production_may_have_changed:`
  unfoldable pub restore_before_traffic : Exec (Unit {0})
  restore_before_traffic = do
    c ← context
    raise_if (is_none c.stopped || is_none c.final_backup) (
        dploydb (
          new_error recovery_required_error "database rollback prerequisites are incomplete" true
            (some false) operation_log
            "Keep every application and traffic path blocked; inspect the final backup and stopped-container evidence manually."))
    stopped ← require_some c.stopped
    final ← require_some c.final_backup
    restore_final env c.operation_id stopped final c.traffic_activated
    Operations.append_event env c.operation_id
        "The verified final backup was restored before traffic activation." note

  -- A hook of the rollback must pass.
  unfoldable pub require_hook : TrafficHookResult → Exec (Unit {0})
  require_hook r = do
    record_hook env r
    c ← context
    raise_if (not (passed r)) (dploydb (hook_error r c c.production_may_have_changed true))

  -- The restart of the previous application, the two hooks and the checks.
  unfoldable pub bring_back : Exec (Unit {0})
  bring_back = do
    c ← context
    raise_if (is_none c.previous) (
        dploydb (
          new_error recovery_required_error
            "the exact previous application identity is unavailable for rollback"
            c.production_may_have_changed none operation_log
            "Keep maintenance enabled and inspect production manually."))
    run env restart
    Operations.append_event env c.operation_id
        "The exact previous application was restarted and inspected." note
    old_target ← run_hook env activate_old
    require_hook old_target
    maintenance_off ← run_hook env disable_maintenance
    require_hook maintenance_off
    modify (λ c. record c { maintenance_enabled = false })
    verify_previous env

  -- The terminal records of a rollback.
  unfoldable pub mark_rolled_back : DployDbError → Exec DeploymentResult
  mark_rolled_back original = do
    c ← context
    release ← Store.transition env c.release_id rolled_back (
        with_evidence c (record unset {
          production_changed = some c.production_may_have_changed;
          traffic_activated = some false;
          failure = some (failure_record original);
        }))
    operation ←
        Operations.transition env c.operation_id OperationStatus.failed_safe "rolled_back"
          "The previous application and database were restored and verified." note
          (some (facts c.production_may_have_changed (some true))) (some (failure_record original))
    pure (record { release = release; operation = operation })

  -- The body of the `try`.
  unfoldable pub roll_back : DployDbError → Exec DeploymentResult
  roll_back original = do
    c ← context
    persist_stage env rollback_started "Pre-traffic rollback started after deployment failure." note
        (facts c.production_may_have_changed (some false))
        (record unset { production_changed = some c.production_may_have_changed })
    for_some c.new_application remove_failed
    when c.production_may_have_changed restore_before_traffic
    bring_back
    mark_rolled_back original

  unfoldable pub unproven : Context → Option DployDbError → Raised → Exec DeploymentResult
  unproven c none raw = raise raw
  unproven c (some e) raw = do
    let recovery =
        new_error recovery_required_error "pre-traffic rollback could not be proven"
          c.production_may_have_changed (some false) operation_log
          "Keep traffic blocked. Preserve all evidence and manually verify the database, previous container, old target, and maintenance state."
    finish_recovery env recovery
    raise (dploydb recovery)

  -- The handler of the `try`.
  unfoldable pub rollback_failed : Raised → Exec DeploymentResult
  rollback_failed raw = do c ← context; unproven c (normalize c raw) raw

  -- `_rollback`
  unfoldable pub rollback : DployDbError → Exec DeploymentResult
  rollback original = try_except (roll_back original) rollback_failed
