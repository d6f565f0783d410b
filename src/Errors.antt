-- ===== src/Errors.antt =====
-- dploydb/errors.py: the taxonomy of expected failures, their payload and exit codes, and
-- dploydb/redaction.py as an interface. `FailurePayload` is the frozen data class of
-- dploydb/models.py; its check that no text is blank is not modelled.
pub mod Laws
use dploy_db.Base.{ℕ, String, Bool, true, false, Option, none, some}

-- `SecretRegistry`: what the other components use of it. What a text is replaced by is left open.
pub record Secrets : Type 0 where
  pub redact_text : String → String

pub data ExitCode : Type 0 where
  success usage configuration safety_check lock_unavailable external_command operation_failed
        recovery_required internal_error :
      ExitCode

-- `int(code)`
unfoldable pub exit_value : ExitCode → ℕ
exit_value success = 0
exit_value usage = 2
exit_value configuration = 10
exit_value safety_check = 20
exit_value lock_unavailable = 30
exit_value external_command = 40
exit_value operation_failed = 50
exit_value recovery_required = 60
exit_value internal_error = 70

pub data ErrorKind : Type 0 where
  configuration safety_check lock_unavailable external_command operation_failed recovery_required
        internal_error :
      ErrorKind

-- `kind.value`
unfoldable pub kind_value : ErrorKind → String
kind_value ErrorKind.configuration = "configuration_error"
kind_value ErrorKind.safety_check = "safety_check_failed"
kind_value ErrorKind.lock_unavailable = "deployment_lock_unavailable"
kind_value ErrorKind.external_command = "external_command_failed"
kind_value ErrorKind.operation_failed = "operation_failed"
kind_value ErrorKind.recovery_required = "recovery_required"
kind_value ErrorKind.internal_error = "internal_error"

-- `ERROR_EXIT_CODES[kind]`
unfoldable pub error_exit_code : ErrorKind → ExitCode
error_exit_code ErrorKind.configuration = ExitCode.configuration
error_exit_code ErrorKind.safety_check = ExitCode.safety_check
error_exit_code ErrorKind.lock_unavailable = ExitCode.lock_unavailable
error_exit_code ErrorKind.external_command = ExitCode.external_command
error_exit_code ErrorKind.operation_failed = ExitCode.operation_failed
error_exit_code ErrorKind.recovery_required = ExitCode.recovery_required
error_exit_code ErrorKind.internal_error = ExitCode.internal_error

-- The exception classes, `DployDBError` itself among them.
pub data ErrorClass : Type 0 where
  dploydb_error configuration_error safety_check_error lock_unavailable_error external_command_error
        operation_failed_error recovery_required_error state_corruption_error internal_error :
      ErrorClass

-- The class variable `kind`.
unfoldable pub error_kind : ErrorClass → ErrorKind
error_kind ErrorClass.dploydb_error = ErrorKind.operation_failed
error_kind ErrorClass.configuration_error = ErrorKind.configuration
error_kind ErrorClass.safety_check_error = ErrorKind.safety_check
error_kind ErrorClass.lock_unavailable_error = ErrorKind.lock_unavailable
error_kind ErrorClass.external_command_error = ErrorKind.external_command
error_kind ErrorClass.operation_failed_error = ErrorKind.operation_failed
error_kind ErrorClass.recovery_required_error = ErrorKind.recovery_required
error_kind ErrorClass.state_corruption_error = ErrorKind.recovery_required
error_kind ErrorClass.internal_error = ErrorKind.internal_error

-- The class variable `requires_recovery`.
unfoldable pub requires_recovery : ErrorClass → Bool
requires_recovery ErrorClass.recovery_required_error = true
requires_recovery ErrorClass.state_corruption_error = true
requires_recovery _ = false

pub record FailurePayload : Type 0 where
  pub error_code : String
  pub exit_code : ℕ
  pub what_failed : String
  pub production_changed : Bool
  pub previous_application_running : Option Bool
  pub recovery_required : Bool
  pub log_path : Option String
  pub next_safe_action : String

pub record DployDbError : Type 0 where
  pub error_class : ErrorClass
  pub payload : FailurePayload

-- `DployDBError.__init__`, for the class that is called.
unfoldable pub new_error :
    ErrorClass → String → Bool → Option Bool → Option String → String → DployDbError
unfolding error_kind error_exit_code exit_value kind_value requires_recovery
new_error c what changed running log next = record {
  error_class = c;
  payload = record {
    error_code = kind_value (error_kind c);
    exit_code = exit_value (error_exit_code (error_kind c));
    what_failed = what;
    production_changed = changed;
    previous_application_running = running;
    recovery_required = requires_recovery c;
    log_path = log;
    next_safe_action = next;
  };
}

-- The property `exit_code`.
unfoldable pub exit_code : DployDbError → ExitCode
unfolding error_kind error_exit_code
exit_code e = error_exit_code (error_kind e.error_class)

redact_option : Secrets → Option String → Option String
redact_option s none = none
redact_option s (some t) = some (s.redact_text t)

-- `redact_error`: the error is built again, by its own class, from redacted texts.
unfoldable pub redact_error : Secrets → DployDbError → DployDbError
unfolding new_error redact_option
redact_error s e =
    new_error e.error_class (s.redact_text e.payload.what_failed) e.payload.production_changed
      e.payload.previous_application_running (redact_option s e.payload.log_path)
      (s.redact_text e.payload.next_safe_action)
