-- ===== src/Models/Operation.antt =====
-- dploydb/models.py: `OperationManifest`, `OperationEvent` and their validators. Evidence is kept
-- where the code reads it, which is the traffic-hook evidence and the source plan of a
-- recovery; all other is `note`.
use dploy_db.Base.{
  ℕ, String, Bool, not, ◌&&◌, Option, some, List, [], ◌∷◌, ltb, is_none, is_some, option_eq,
  bool_eq,
}
use dploy_db.Command.{TrafficAction, CommandOutcome}
use dploy_db.Models.State.{
  OperationStatus, is_terminal_operation, is_failed_operation, is_recovery_required, SafetyFacts,
  FailureRecord, Check,
}

pub data Evidence : Type 0 where
  note : Evidence
  -- action, passed, outcome and exit code of `TrafficHookResult.as_evidence()`
  traffic_hook : TrafficAction → Bool → CommandOutcome → Option ℕ → Evidence
  -- `operation_id` and `release_id` of the `source_plan` of a recovery
  source_plan : ℕ → ℕ → Evidence

pub record OperationManifest : Type 0 where
  pub operation_id : ℕ
  pub operation_type : String
  pub project : String
  pub status : OperationStatus
  pub stage : String
  pub configuration_fingerprint : ℕ
  pub safety : SafetyFacts
  pub started_at : ℕ
  pub updated_at : ℕ
  pub completed_at : Option ℕ
  pub failure : Option FailureRecord
  pub last_event_sequence : ℕ

pub record OperationEvent : Type 0 where
  pub sequence : ℕ
  pub timestamp : ℕ
  pub operation_id : ℕ
  pub status : OperationStatus
  pub stage : String
  pub message : String
  pub evidence : Evidence

-- `validate_lifecycle`
unfoldable pub operation_checks : OperationManifest → List Check
unfolding is_terminal_operation is_failed_operation is_recovery_required
operation_checks m =
    record {
      violated = ltb m.updated_at m.started_at;
      message = "updated_at must not precede started_at";
    }
    ∷ record {
      violated = is_terminal_operation m.status && is_none m.completed_at;
      message = "terminal operation requires completed_at";
    }
    ∷ record {
      violated =
          is_terminal_operation m.status && not (option_eq m.completed_at (some m.updated_at));
      message = "completed_at must equal updated_at for a terminal operation";
    }
    ∷ record {
      violated = not (is_terminal_operation m.status) && is_some m.completed_at;
      message = "in-progress operation must not have completed_at";
    }
    ∷ record {
      violated = not (bool_eq (is_failed_operation m.status) (is_some m.failure));
      message = "failure details must be present exactly for failed operations";
    }
    ∷ record {
      violated = not (bool_eq m.safety.recovery_required (is_recovery_required m.status));
      message = "recovery_required safety fact must match operation status";
    }
    ∷ []
