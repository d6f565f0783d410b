-- ===== src/Recovery/Diagnose.antt =====
-- dploydb/recovery.py: `diagnose_configured_recovery`, which reads all durable and live evidence and
-- computes the plan, and the functions it calls. Entering the verified backup is a call of the
-- outside; that leaving it could fail is not modelled.
pub mod Reads
pub mod Live
pub mod Facts
use dploy_db.Base.{
  ℕ, String, Bool, true, false, not, ◌&&◌, Option, none, some, List, [], ◌∷◌, ◌==◌, if◌then◌else◌,
  is_some, option_eq, select, length, ltb,
}
use dploy_db.Errors.{new_error, lock_unavailable_error, recovery_required_error, safety_check_error}
use dploy_db.Models.Lock.{is_held, needs_recovery}
use dploy_db.Models.State.{
  DeploymentState, active, rolled_back, succeeded, state_is, state_in, status_index,
}
use dploy_db.Models.Manifest.{ProductionApplicationHandle, ReleaseManifest}
use dploy_db.Models.Operation.{OperationManifest}
use dploy_db.Raised.{
  Raised, dploydb, production_inspection_error, base_exception, Outcome, returned, raised,
}
use dploy_db.World.{
  Environment, BackupArtifact, silent, inspect_live, prove_absent, open_backup, digest,
}
use dploy_db.Exec.{Exec, pure, raise, lift, ask, when, raise_if, try_except, ◌>>=◌, ◌>>◌}
use dploy_db.Calls.{ran_entry}
use dploy_db.Releases.Store
use dploy_db.Operations
use dploy_db.Operations.{started_later}
use dploy_db.Recovery.{
  ApplicationRuntimeState, running, stopped, absent, unknown, RecoveryPlan, runtime_is_unknown,
  build_recovery_plan,
}

-- `operations_by_id.get(id)`
unfoldable pub find_operation : ℕ → List OperationManifest → Option OperationManifest
find_operation id [] = none
find_operation id (m ∷ ms) = if m.operation_id == id then some m else find_operation id ms

unfoldable pub unfinished : Option OperationManifest → Bool
unfinished none = false
unfinished (some m) = not (status_index m.status == status_index succeeded)

-- The release was resolved by a listed recovery that did not succeed.
unfoldable pub resolved_by_unfinished : List OperationManifest → Option ℕ → Bool
unfolding find_operation unfinished
resolved_by_unfinished operations none = false
resolved_by_unfinished operations (some id) = unfinished (find_operation id operations)

-- `incomplete_resolution`: the first such release.
unfoldable pub incomplete_resolution :
    List ReleaseManifest → List OperationManifest → Option ReleaseManifest
unfolding resolved_by_unfinished
incomplete_resolution [] operations = none
incomplete_resolution (r ∷ rs) operations =
    if resolved_by_unfinished operations r.recovery_operation_id
    then some r
    else incomplete_resolution rs operations

-- The condition of `unresolved`.
unfoldable pub is_unresolved : List OperationManifest → ReleaseManifest → Bool
unfolding find_operation
is_unresolved operations r =
    not (state_in r.status (active ∷ rolled_back ∷ DeploymentState.failed_safe ∷ []))
    && is_some (find_operation r.operation_id operations)

unfoldable pub put_pair :
    ReleaseManifest
    → Option OperationManifest
    → List (ReleaseManifest × OperationManifest)
    → List (ReleaseManifest × OperationManifest)
put_pair r none rest = rest
put_pair r (some m) rest = (r, m) ∷ rest

-- `paired`
unfoldable pub paired :
    List ReleaseManifest → List OperationManifest → List (ReleaseManifest × OperationManifest)
unfolding find_operation put_pair
paired [] operations = []
paired (r ∷ rs) operations =
    put_pair r (find_operation r.operation_id operations) (paired rs operations)

-- `max(paired, …)` takes the first of the greatest.
unfoldable pub newest_pair :
    List (ReleaseManifest × OperationManifest) → Option (ReleaseManifest × OperationManifest)
newest_pair [] = none
newest_pair (p ∷ ps) =
    let rest = newest_pair ps in
    elim rest [ none ↦ some p | some q ↦ if started_later q.1 p.1 then some q else some p ]

-- The errors that diagnosis raises.
unfoldable pub diagnosis_error : String → Bool → Option Bool → String → Raised
diagnosis_error detail changed was_running next =
    dploydb (new_error recovery_required_error detail changed was_running (some "state") next)

-- `resolution_error` of an incomplete resolution.
unfoldable pub refuse_incomplete : Option ReleaseManifest → Outcome (Unit {0})
refuse_incomplete none = returned tt
refuse_incomplete (some r) = raised (
    diagnosis_error
      "release recovery was resolved but its recovery operation is not durably complete"
      r.production_changed (some (state_is r.status rolled_back))
      "Do not repeat database actions; preserve both records and reconcile the recovery operation manually.")

-- The release and operation to recover, where there is no unresolved release.
unfoldable pub newest_source :
    Option (ReleaseManifest × OperationManifest) → Outcome (ReleaseManifest × OperationManifest)
newest_source none = raised (
    diagnosis_error "no deployment operation maps to a release manifest" false none
      "Preserve state and correlate operation history manually.")
newest_source (some p) = returned p

-- `release, operation` that the plan is about.
unfoldable pub source_of :
    List ReleaseManifest → List OperationManifest → Outcome (ReleaseManifest × OperationManifest)
unfolding is_unresolved paired newest_pair newest_source
source_of releases operations =
    let unresolved = select (is_unresolved operations) releases in
    if ltb 1 (length unresolved)
    then raised (
        diagnosis_error "multiple unresolved releases make automatic recovery ambiguous" true none
          "Preserve state and correlate the operations and releases manually.")
    else if ltb 0 (length unresolved)
    then newest_source (newest_pair (paired unresolved operations))
    else newest_source (newest_pair (paired releases operations))

unfoldable pub runtime_state : Bool → ApplicationRuntimeState
runtime_state true = running
runtime_state false = stopped

unfoldable pub absence : Bool → ApplicationRuntimeState
absence true = absent
absence false = unknown

module _ (env : Environment) where
  -- The tests of `inspect_lock`'s answer.
  unfoldable pub refuse_held : Exec (Unit {0})
  refuse_held = do
    lock ← ask (λ j. returned (env.inspect_lock j)) (λ _. silent)
    raise_if (is_held lock.state) (
        dploydb (
          new_error lock_unavailable_error
            "another DployDB operation still holds the deployment lock" false none
            (some "lock-owner")
            "Wait for the active operation, then run recovery diagnosis again."))
    raise_if (needs_recovery lock.state) (
        diagnosis_error "deployment lock evidence is contradictory" true none
          "Preserve the lock evidence and inspect the host manually.")

  -- `except ProductionInspectionError` of `_inspect_application`
  unfoldable pub not_inspected : Raised → Exec ApplicationRuntimeState
  not_inspected (production_inspection_error m) = pure unknown
  not_inspected e = raise e

  unfoldable pub inspect_handle : ProductionApplicationHandle → Exec ApplicationRuntimeState
  inspect_handle h =
      try_except
        (do
          inspection ← ask (λ j. env.inspect_live j h) (ran_entry inspect_live)
          pure (runtime_state inspection.running))
        not_inspected

  -- `_inspect_application`
  unfoldable pub inspect_application :
      Option ProductionApplicationHandle → Exec ApplicationRuntimeState
  inspect_application none = pure unknown
  inspect_application (some h) = inspect_handle h

  -- `except Exception` of `_inspect_new_application`
  unfoldable pub not_proven : Raised → Exec ApplicationRuntimeState
  not_proven (base_exception t) = raise (base_exception t)
  not_proven _ = pure unknown

  unfoldable pub prove_release_absent : ReleaseManifest → Exec ApplicationRuntimeState
  prove_release_absent r =
      try_except
        (do
          proven ←
              ask (λ j. env.prove_absent j r.release_id r.requested_version)
                (ran_entry prove_absent)
          pure (absence proven))
        not_proven

  unfoldable pub known_or_absent :
      ReleaseManifest → ApplicationRuntimeState → Exec ApplicationRuntimeState
  known_or_absent r state = if runtime_is_unknown state then prove_release_absent r else pure state

  -- `_inspect_new_application`; without a handle, `_inspect_application` answers `unknown`.
  unfoldable pub inspect_new_application : ReleaseManifest → Exec ApplicationRuntimeState
  inspect_new_application r = do
    state ← inspect_application r.new_application
    known_or_absent r state

  -- `with open_verified_configured_backup(…) as artifact`
  unfoldable pub open_verified : ℕ → Exec BackupArtifact
  open_verified id = ask (λ j. env.open_backup j id) (ran_entry open_backup)

  -- `except Exception: pass` round the backup
  unfoldable pub not_verified : Raised → Exec (Bool × Option ℕ)
  not_verified (base_exception t) = raise (base_exception t)
  not_verified _ = pure (false, none)

  unfoldable pub compare_backup : Option ℕ → ℕ → Exec (Bool × Option ℕ)
  compare_backup recorded id = do
    artifact ← open_verified id
    pure (option_eq (some artifact.sha256) recorded, some artifact.sha256)

  -- `final_verified` and `final_sha256`
  unfoldable pub final_facts : Option ℕ → Option ℕ → Exec (Bool × Option ℕ)
  final_facts none recorded = pure (false, none)
  final_facts (some id) recorded = try_except (compare_backup recorded id) not_verified

  -- `except Exception` round the digest of the production database
  unfoldable pub no_digest : Raised → Exec (Option ℕ)
  no_digest (base_exception t) = raise (base_exception t)
  no_digest _ = pure none

  unfoldable pub production_digest : Exec (Option ℕ)
  production_digest =
      try_except
        (do sha256 ← ask (λ j. env.production_sha256 j) (ran_entry digest); pure (some sha256))
        no_digest

  unfoldable pub require_operations : List OperationManifest → Exec (Unit {0})
  require_operations operations = raise_if (length operations == 0) (
      dploydb (
        new_error safety_check_error "there is no deployment operation to recover" false none
          (some "state") "Run dploydb status; no recovery action is required."))

  -- The rest of `diagnose_configured_recovery`, for one release and its operation.
  unfoldable pub plan_for : ReleaseManifest → OperationManifest → Exec RecoveryPlan
  plan_for release operation = do
    events ← Operations.read_events env operation.operation_id
    previous ← inspect_application release.previous_application
    new ← inspect_new_application release
    (verified, sha256) ← final_facts release.final_backup_id release.final_backup_sha256
    production ← production_digest
    pure (
        build_recovery_plan operation events release (record {
          previous_application = previous;
          new_application = new;
          final_backup_verified = verified;
          production_database_sha256 = production;
          final_backup_sha256 = sha256;
        }))

  -- `diagnose_configured_recovery`
  unfoldable pub diagnose : Bool → Exec RecoveryPlan
  diagnose check_lock = do
    when check_lock refuse_held
    operations ← Operations.list_operations env
    require_operations operations
    history ← Store.read_history env
    lift (refuse_incomplete (incomplete_resolution history.releases operations))
    (release, operation) ← lift (source_of history.releases operations)
    plan_for release operation
