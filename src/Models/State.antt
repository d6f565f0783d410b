-- ===== src/Models/State.antt =====
-- dploydb/models.py: the enumerations `DeploymentState` and `OperationStatus`, the sets of states
-- that the code tests, and the small records `SafetyFacts` and `FailureRecord`.
use dploy_db.Base.{ℕ, String, Bool, true, false, ◌||◌, Option, List, [], ◌∷◌, ◌==◌}

pub data DeploymentState : Type 0 where
  created preflight_passed snapshot_verified rehearsal_passed candidate_healthy maintenance_enabled
        current_app_stopped final_snapshot_verified production_migrated new_app_healthy
        traffic_activated active rollback_started rolled_back failed_safe recovery_required
        manual_restore_started manual_restore_completed :
      DeploymentState

-- The place of a member in its class, by which members are compared.
unfoldable pub state_index : DeploymentState → ℕ
state_index created = 0
state_index preflight_passed = 1
state_index snapshot_verified = 2
state_index rehearsal_passed = 3
state_index candidate_healthy = 4
state_index maintenance_enabled = 5
state_index current_app_stopped = 6
state_index final_snapshot_verified = 7
state_index production_migrated = 8
state_index new_app_healthy = 9
state_index traffic_activated = 10
state_index active = 11
state_index rollback_started = 12
state_index rolled_back = 13
state_index failed_safe = 14
state_index recovery_required = 15
state_index manual_restore_started = 16
state_index manual_restore_completed = 17

-- `a is b`
unfoldable pub state_is : DeploymentState → DeploymentState → Bool
unfolding state_index
state_is a b = state_index a == state_index b

-- `a in {…}`
unfoldable pub state_in : DeploymentState → List DeploymentState → Bool
unfolding state_is
state_in a [] = false
state_in a (b ∷ bs) = state_is a b || state_in a bs

-- `status.value`, the text that is stored as an operation's stage.
unfoldable pub state_value : DeploymentState → String
state_value created = "created"
state_value preflight_passed = "preflight_passed"
state_value snapshot_verified = "snapshot_verified"
state_value rehearsal_passed = "rehearsal_passed"
state_value candidate_healthy = "candidate_healthy"
state_value maintenance_enabled = "maintenance_enabled"
state_value current_app_stopped = "current_app_stopped"
state_value final_snapshot_verified = "final_snapshot_verified"
state_value production_migrated = "production_migrated"
state_value new_app_healthy = "new_app_healthy"
state_value traffic_activated = "traffic_activated"
state_value active = "active"
state_value rollback_started = "rollback_started"
state_value rolled_back = "rolled_back"
state_value failed_safe = "failed_safe"
state_value recovery_required = "recovery_required"
state_value manual_restore_started = "manual_restore_started"
state_value manual_restore_completed = "manual_restore_completed"

pub data OperationStatus : Type 0 where
  in_progress succeeded failed_safe recovery_required : OperationStatus

-- `status is not OperationStatus.IN_PROGRESS`
unfoldable pub is_terminal_operation : OperationStatus → Bool
is_terminal_operation in_progress = false
is_terminal_operation _ = true

unfoldable pub is_failed_operation : OperationStatus → Bool
is_failed_operation OperationStatus.failed_safe = true
is_failed_operation OperationStatus.recovery_required = true
is_failed_operation _ = false

unfoldable pub is_recovery_required : OperationStatus → Bool
is_recovery_required OperationStatus.recovery_required = true
is_recovery_required _ = false

unfoldable pub status_index : OperationStatus → ℕ
status_index in_progress = 0
status_index succeeded = 1
status_index OperationStatus.failed_safe = 2
status_index OperationStatus.recovery_required = 3

-- `status.value`
unfoldable pub status_value : OperationStatus → String
status_value in_progress = "in_progress"
status_value succeeded = "succeeded"
status_value OperationStatus.failed_safe = "failed_safe"
status_value OperationStatus.recovery_required = "recovery_required"

pub record SafetyFacts : Type 0 where
  pub production_changed : Bool
  pub previous_application_running : Option Bool
  pub recovery_required : Bool

pub record FailureRecord : Type 0 where
  pub error_code : String
  pub what_failed : String
  pub log_path : Option String
  pub next_safe_action : String

-- A validator of the models: a list of tests in the order of the code, each with the message of
-- the `ValueError` that it raises.
pub record Check : Type 0 where
  pub violated : Bool
  pub message : String
