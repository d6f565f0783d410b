-- ===== src/Deploy/Coordinator.antt =====
-- dploydb/deploy.py: `_run_deployment`.
use dploy_db.Base.{true, false, ◌||◌, Option, none, some, [], ◌∷◌, ◌++◌, if◌then◌else◌}
use dploy_db.Errors.{DployDbError, new_error, recovery_required_error}
use dploy_db.Models.State.{
  current_app_stopped, final_snapshot_verified, production_migrated, new_app_healthy, in_progress,
}
use dploy_db.Models.Operation.{note}
use dploy_db.Raised.{Raised, dploydb}
use dploy_db.World.{
  Context, Environment, ProductionStop, BackupArtifact, collect_logs, verify_sqlite, check_health,
}
use dploy_db.Exec.{Exec, pure, raise, modify, try_except, ◌>>=◌, ◌>>◌}
use dploy_db.Calls.{run, run_command, inject, stop_current, start_new}
use dploy_db.Releases.{unset}
use dploy_db.Releases.Store
use dploy_db.Operations
use dploy_db.Candidate.{run_candidate_stage}
use dploy_db.Cutover.{create_final, migrate_database}
use dploy_db.Deploy.Report.{normalize, incomplete_logs, operation_log}
use dploy_db.Deploy.Steps.{
  facts, context, require_some, persist_stage, observe, resolve_previous, enable, replicate_final,
  activate, disable_after_activation,
}
use dploy_db.Deploy.Finish.{DeploymentResult, complete_active, finish_failed, finish_recovery}
use dploy_db.Deploy.Rollback.{rollback}

module _ (env : Environment) where
  -- Up to maintenance: the candidate stage, the running application, the maintenance hook.
  unfoldable pub prepare : Exec (Unit {0})
  prepare = do
    c ← context
    run_candidate_stage env c.operation_id (observe env)
    Operations.append_event env c.operation_id
        "Caller-owned candidate stage returned complete passing evidence." note
    resolve_previous env
    enable env
    inject env "after_maintenance_enabled"

  -- The previous application is stopped, and the stop is stored.
  unfoldable pub stop_previous : Exec ProductionStop
  stop_previous = do
    c ← context
    previous ← require_some c.previous
    stopped ← stop_current env previous
    modify (λ c. record c { stopped = some stopped })
    persist_stage env current_app_stopped
        "The exact previous application was stopped and inspected." note (facts false (some false))
        (record unset { previous_application = some previous })
    inject env "after_current_app_stopped"
    pure stopped

  -- The final backup is made, verified and stored, and replicated where that is required.
  unfoldable pub back_up : ProductionStop → Exec BackupArtifact
  back_up stopped = do
    c ← context
    final ← create_final env c.operation_id stopped
    modify (λ c. record c { final_backup = some final })
    persist_stage env final_snapshot_verified
        "The stopped-writer final backup was created and reverified." note
        (facts false (some false))
        (record unset { final_backup = some (final.backup_id, final.sha256) })
    replicate_final env final
    pure final

  -- The durable intent, and then the migration.
  unfoldable pub migrate_production : ProductionStop → BackupArtifact → Exec (Unit {0})
  migrate_production stopped final = do
    modify (λ c. record c { production_may_have_changed = true })
    c ← context
    Store.record_recovery_intent env c.release_id true false
    Operations.transition env c.operation_id in_progress "production_migration_started"
        "Production migration is about to start; production may change." note
        (some (facts true (some false))) none
    migrate_database env c.operation_id stopped final c.traffic_activated (
        Operations.append_event env c.operation_id
          "Production migration command reached a terminal outcome." note)
    persist_stage env production_migrated "Production migration and SQLite checks passed." note
        (facts true (some false)) (record unset { production_changed = some true })
    inject env "after_production_migrated"

  unfoldable pub raise_some : Option DployDbError → Exec (Unit {0})
  raise_some none = pure tt
  raise_some (some e) = raise (dploydb e)

  -- The new application is started and checked.
  unfoldable pub start_and_check : Exec (Unit {0})
  start_and_check = do
    new ← start_new env
    modify (λ c. record c { new_application = some new })
    c ← context
    Operations.append_event env c.operation_id
        "The new production application started with validated identity." note
    logs ← run_command env collect_logs
    raise_some (incomplete_logs logs)
    run env verify_sqlite
    run env check_health
    modify (λ c. record c {
      health_evidence =
          c.health_evidence ++ record { for_new = true; version = env.config.version } ∷ [];
    })
    persist_stage env new_app_healthy
        "Final production database, logs, HTTP, and smoke checks passed." note
        (facts true (some false))
        (record unset {
          new_application = some new;
          production_health_passed = some true;
          production_changed = some true;
        })

  -- The body of the `try` of `_run_deployment`.
  unfoldable pub deploy_forward : Exec DeploymentResult
  deploy_forward = do
    prepare
    stopped ← stop_previous
    final ← back_up stopped
    migrate_production stopped final
    start_and_check
    activate env
    disable_after_activation env
    complete_active env

  unfoldable pub give_up : DployDbError → (DployDbError → Exec (Unit {0})) → Exec DeploymentResult
  give_up e finish = do finish e; raise (dploydb e)

  -- What is done about a failure, by what may have happened before it.
  unfoldable pub settle : Context → DployDbError → Exec DeploymentResult
  settle c e =
      if e.payload.recovery_required || c.traffic_activated
      then give_up e (finish_recovery env)
      else if c.traffic_activation_attempted
      then give_up
          (new_error recovery_required_error
            "new-traffic activation was attempted without proof of a safe routing state" true
            (some false) operation_log
            "Do not restore the database. Keep the checked new application available and determine the live traffic target before recovery.")
          (finish_recovery env)
      else if c.maintenance_enabled
      then rollback env e
      else give_up e (finish_failed env)

  unfoldable pub settle_or_raise : Context → Option DployDbError → Raised → Exec DeploymentResult
  settle_or_raise c none raw = raise raw
  settle_or_raise c (some e) raw = settle c e

  -- The handler of `_run_deployment`.
  unfoldable pub deploy_failed : Raised → Exec DeploymentResult
  deploy_failed raw = do c ← context; settle_or_raise c (normalize c raw) raw

  -- `_run_deployment`
  unfoldable pub run_deployment : Exec DeploymentResult
  run_deployment = try_except deploy_forward deploy_failed
