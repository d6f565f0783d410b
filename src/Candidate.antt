-- ===== src/Candidate.antt =====
-- dploydb/candidate.py: `run_candidate_stage`, which reads production only: a preflight, a rehearsal
-- backup, the migration of a private copy and the checks of a candidate, each told to the
-- operation store and then to the observer. The rehearsal of dploydb/migration.py and
-- `_validate_runtime` are calls of the outside; so is the removal of the private workspace,
-- which is made however the checks end.
use dploy_db.Base.{ℕ, String, false, Option, none, some}
use dploy_db.Errors.{new_error, operation_failed_error}
use dploy_db.Models.State.{
  DeploymentState, preflight_passed, snapshot_verified, rehearsal_passed, candidate_healthy,
  in_progress, SafetyFacts,
}
use dploy_db.Models.Operation.{note}
use dploy_db.Raised.{Raised, dploydb, base_exception}
use dploy_db.World.{
  Environment, rehearsal, verify_sqlite, rehearse, check_rehearsal, validate_candidate,
  clean_workspace,
}
use dploy_db.Exec.{Exec, raise, try_except, try_finally, ◌>>=◌, ◌>>◌}
use dploy_db.Operations
use dploy_db.Calls.{run, make_backup}

-- `CandidateStageObserver`: the stage, and the backup identity that the snapshot's evidence holds.
abbrev pub Observer : Type 0
Observer = DeploymentState → Option (ℕ × ℕ) → Exec (Unit {0})

module _ (env : Environment) where
  -- `store.transition(…)` followed by `_notify_stage(…)`
  unfoldable pub tell :
      ℕ
      → Observer
      → DeploymentState
      → String
      → Option SafetyFacts
      → Option (ℕ × ℕ)
      → Exec (Unit {0})
  tell operation observer stage name safety evidence = do
    Operations.transition env operation in_progress name "Candidate stage." note safety none
    observer stage evidence

  -- `except Exception` of `run_candidate_stage`
  unfoldable pub candidate_failed : Raised → Exec (Unit {0})
  candidate_failed (dploydb e) = raise (dploydb e)
  candidate_failed (base_exception t) = raise (base_exception t)
  candidate_failed e = raise (
      dploydb (
        new_error operation_failed_error "candidate validation failed safely" false none
          (some "events.jsonl")
          "Production was not changed; inspect the candidate event log, correct the failure, and retry."))

  -- The body of `with migration_rehearsal(…)`
  unfoldable pub rehearsed : ℕ → Observer → Exec (Unit {0})
  rehearsed operation observer = do
    run env rehearse
    Operations.append_event env operation "Candidate migration command reached a terminal outcome."
        note
    run env check_rehearsal
    tell operation observer rehearsal_passed "rehearsal_passed" none none
    run env validate_candidate

  -- `run_candidate_stage`, with `complete_operation=False`
  unfoldable pub run_candidate_stage : ℕ → Observer → Exec (Unit {0})
  run_candidate_stage operation observer =
      try_except
        (do
          run env verify_sqlite
          tell operation observer preflight_passed "preflight_passed" none none
          snapshot ← make_backup env rehearsal operation
          tell operation observer snapshot_verified "snapshot_verified" none
              (some (snapshot.backup_id, snapshot.sha256))
          try_finally (rehearsed operation observer) (run env clean_workspace)
          tell operation observer candidate_healthy "candidate_healthy"
              (some (record {
                production_changed = false;
                previous_application_running = none;
                recovery_required = false;
              }))
              none)
        candidate_failed
