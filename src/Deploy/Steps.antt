-- ===== src/Deploy/Steps.antt =====
-- dploydb/deploy.py: the steps of a deployment up to the activation of new traffic.
use text.Mathlib.Text.{◌==◌ as str_eq}
use dploy_db.Base.{
  ℕ, String, Bool, true, false, not, ◌||◌, Option, none, some, [], ◌∷◌, ◌++◌, if◌then◌else◌,
  is_none, option_eq,
}
use dploy_db.Command.{
  output_complete, enable_maintenance, disable_maintenance, activate_new, TrafficHookResult, passed,
  hook_may_have_run,
}
use dploy_db.Errors.{new_error, operation_failed_error, recovery_required_error}
use dploy_db.Models.State.{
  DeploymentState, snapshot_verified, maintenance_enabled, traffic_activated, state_is, state_value,
  in_progress, SafetyFacts,
}
use dploy_db.Models.Manifest.{ProductionApplicationHandle, ReleaseHookEvidence}
use dploy_db.Models.Operation.{Evidence, note, traffic_hook}
use dploy_db.Raised.{dploydb, other_exception}
use dploy_db.World.{Context, Environment, BackupArtifact, verify_sqlite, check_health}
use dploy_db.Exec.{Exec, pure, raise, gets, modify, raise_if, ◌>>=◌, ◌>>◌}
use dploy_db.Calls.{run, run_hook, inject, inspect_application, discover_current, replicate_backup}
use dploy_db.Releases.{Changes, unset}
use dploy_db.Releases.Store
use dploy_db.Operations
use dploy_db.Cutover.{same_metadata}
use dploy_db.Deploy.Report.{hook_error, operation_log}

abbrev pub facts : Bool → Option Bool → SafetyFacts
facts changed running = record {
  production_changed = changed;
  previous_application_running = running;
  recovery_required = false;
}

abbrev pub hook_facts : TrafficHookResult → Evidence
hook_facts r = traffic_hook r.action (passed r) r.command.outcome r.command.exit_code

-- `hook_summary` of dploydb/deployment_evidence.py
unfoldable pub hook_summary : TrafficHookResult → ReleaseHookEvidence
hook_summary r = record {
  action = r.action;
  passed = passed r;
  outcome = r.command.outcome;
  output_complete = output_complete r.command;
}

-- The evidence of the context, as keyword arguments of a release transition.
abbrev pub with_evidence : Context → Changes → Changes
with_evidence c changes = record changes {
  traffic_hooks = some c.hook_evidence;
  health_checks = some c.health_evidence;
}

abbrev pub context : Exec Context
context = gets (λ w. w.context)

-- A field of the context that must not be `None`, by an assertion or an attribute access.
abbrev pub require_some : {A : Type 0} → Option A → Exec A
require_some none = raise (other_exception "AssertionError")
require_some (some a) = pure a

module _ (env : Environment) where
  -- `_persist_stage`
  unfoldable pub persist_stage :
      DeploymentState → String → Evidence → SafetyFacts → Changes → Exec (Unit {0})
  persist_stage status message evidence safety changes = do
    c ← context
    Operations.transition env c.operation_id in_progress (state_value status) message evidence
        (some safety) none
    Store.transition env c.release_id status (with_evidence c changes)
    pure tt

  -- `_record_hook`
  unfoldable pub record_hook : TrafficHookResult → Exec (Unit {0})
  record_hook r = do
    modify (λ c. record c { hook_evidence = c.hook_evidence ++ hook_summary r ∷ [] })
    c ← context
    Operations.append_event env c.operation_id "Traffic hook reached a terminal outcome."
        (hook_facts r)

  unfoldable pub snapshot_evidence : Option (ℕ × ℕ) → Exec Changes
  snapshot_evidence (some b) = pure (record unset { rehearsal_backup = some b })
  snapshot_evidence none = raise (
      dploydb (
        new_error recovery_required_error
          "candidate snapshot evidence is incomplete for the release manifest" false none
          operation_log "Preserve the operation evidence and inspect the backup."))

  unfoldable pub snapshot_changes : DeploymentState → Option (ℕ × ℕ) → Exec Changes
  snapshot_changes stage evidence =
      if state_is stage snapshot_verified then snapshot_evidence evidence else pure unset

  -- `_release_stage_observer`
  unfoldable pub observe : DeploymentState → Option (ℕ × ℕ) → Exec (Unit {0})
  observe stage evidence = do
    changes ← snapshot_changes stage evidence
    c ← context
    Store.transition env c.release_id stage (with_evidence c changes)
    pure tt

  unfoldable pub identify : Option ProductionApplicationHandle → Exec (Unit {0})
  identify (some h) = do inspect_application env h true; pure tt
  identify none = do
    found ← discover_current env
    modify (λ c. record c { previous = some found.handle })

  -- `_resolve_previous_application`
  unfoldable pub resolve_previous : Exec (Unit {0})
  resolve_previous = do
    c ← context
    identify c.previous
    Operations.append_event env c.operation_id
        "The exact currently running production application was identified." note

  unfoldable pub version_of : Option String → String
  version_of none = "previous"
  version_of (some v) = if str_eq v "" then "previous" else v

  -- `_verify_previous`
  unfoldable pub verify_previous : Exec (Unit {0})
  verify_previous = do
    c ← context
    raise_if (is_none c.previous) (
        dploydb (
          new_error recovery_required_error
            "previous application identity is unavailable for health verification"
            c.production_may_have_changed none operation_log
            "Inspect the current production container manually."))
    previous ← require_some c.previous
    run env verify_sqlite
    run env check_health
    modify (λ c. record c {
      health_evidence =
          c.health_evidence
          ++ record { for_new = false; version = version_of previous.version } ∷ [];
    })
    Operations.append_event env c.operation_id
        "Previous database and application health were verified." note

  -- The failed branch of `_enable_maintenance`.
  unfoldable pub maintenance_failed : TrafficHookResult → Exec (Unit {0})
  maintenance_failed result = do
    cleanup ← run_hook env disable_maintenance
    record_hook cleanup
    c ← context
    raise_if (not (passed cleanup)) (
        dploydb (
          new_error recovery_required_error "the hook failed; maintenance cleanup also failed" false
            (some true) operation_log
            "The previous application was not stopped. Determine and disable the maintenance state manually before retrying."))
    verify_previous
    raise (dploydb (hook_error result c false false))

  unfoldable pub maintenance_passed : TrafficHookResult → Exec (Unit {0})
  maintenance_passed result = do
    modify (λ c. record c { maintenance_enabled = true })
    c ← context
    previous ← require_some c.previous
    persist_stage maintenance_enabled "Maintenance mode was enabled with complete hook evidence."
        (hook_facts result) (facts false (some true))
        (record unset { previous_application = some previous })

  -- `_enable_maintenance`
  unfoldable pub enable : Exec (Unit {0})
  enable = do
    result ← run_hook env enable_maintenance
    record_hook result
    if not (passed result) then maintenance_failed result else maintenance_passed result

  -- `_replicate_required_final_backup`, where the configuration requires it
  unfoldable pub replicate_required : BackupArtifact → Exec (Unit {0})
  replicate_required final = do
    c ← context
    raise_if (not env.config.has_replicator) (
        dploydb (
          new_error operation_failed_error "required remote final-backup storage is unavailable"
            false (some false) operation_log
            "Keep production unchanged, restart the previous application, and correct remote backup configuration before retrying deployment."))
    remote ← replicate_backup env final c.release_id
    raise_if
        (not (same_metadata remote.backup final)
          || not (option_eq remote.release_id (some c.release_id)))
        (dploydb (
          new_error operation_failed_error
            "required remote final-backup evidence contradicts the local verified backup" false
            (some false) operation_log
            "Preserve both backup records, restart the previous application, and inspect remote storage before retrying deployment."))
    Operations.append_event env c.operation_id
        "The required final backup was committed and verified off-server." note
    inject env "after_final_remote_verified"

  -- `_replicate_required_final_backup`
  unfoldable pub replicate_final : BackupArtifact → Exec (Unit {0})
  replicate_final final = if env.config.remote_required then replicate_required final else pure tt

  -- The failed branch of `_activate_new_traffic`: a hook that cannot have run leaves the rollback
  -- open.
  unfoldable pub activation_failed : TrafficHookResult → Exec (Unit {0})
  activation_failed result = do
    modify (λ c. record c { traffic_activation_attempted = hook_may_have_run result })
    c ← context
    raise (dploydb (hook_error result c true false))

  unfoldable pub activation_passed : TrafficHookResult → Exec (Unit {0})
  activation_passed result = do
    modify (λ c. record c { traffic_activated = true })
    persist_stage traffic_activated
        "New-release traffic activation succeeded and was stored immediately." (hook_facts result)
        (facts true (some false))
        (record unset { production_changed = some true; traffic_activated = some true })

  -- `_activate_new_traffic`
  unfoldable pub activate : Exec (Unit {0})
  activate = do
    modify (λ c. record c { traffic_activation_attempted = true })
    c ← context
    Store.record_recovery_intent env c.release_id false true
    Operations.transition env c.operation_id in_progress "traffic_activation_started"
        "New-traffic activation is about to run; routing may become uncertain." note
        (some (facts true (some false))) none
    result ← run_hook env activate_new
    record_hook result
    if not (passed result) then activation_failed result else activation_passed result

  -- `_disable_maintenance_after_activation`
  unfoldable pub disable_after_activation : Exec (Unit {0})
  disable_after_activation = do
    result ← run_hook env disable_maintenance
    record_hook result
    raise_if (not (passed result)) (
        dploydb (
          new_error recovery_required_error "new traffic is active but maintenance disable failed"
            true (some false) operation_log
            "Do not restore the database. Keep the checked new release running and disable maintenance manually."))
    modify (λ c. record c { maintenance_enabled = false })
