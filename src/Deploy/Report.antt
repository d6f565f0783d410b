-- ===== src/Deploy/Report.antt =====
-- dploydb/deploy.py: how the coordinator turns exceptions and hook results into expected failures
-- and failure records. A message is kept without the details that are formatted into it.
pub mod Laws
use dploy_db.Base.{
  String, Bool, true, false, not, ◌&&◌, ◌||◌, Option, none, some, if◌then◌else◌, is_some,
}
use dploy_db.Command.{
  CommandOutcome, succeeded, nonzero_exit, start_failed, timed_out, cancelled, cleanup_failed,
  outcome_is, CommandResult, output_complete, TrafficHookResult,
}
use dploy_db.Errors.{
  ErrorClass, DployDbError, new_error, external_command_error, operation_failed_error,
  recovery_required_error,
}
use dploy_db.Models.State.{FailureRecord}
use dploy_db.Raised.{
  Raised, dploydb, production_start_error, production_cleanup_error, production_inspection_error,
  production_runner_error, readiness_check_error, smoke_check_error, other_exception,
  base_exception,
}
use dploy_db.World.{Context}

abbrev pub operation_log : Option String
operation_log = some "events.jsonl"

-- `_failure_record`
unfoldable pub failure_record : DployDbError → FailureRecord
failure_record e = record {
  error_code = e.payload.error_code;
  what_failed = e.payload.what_failed;
  log_path = e.payload.log_path;
  next_safe_action = e.payload.next_safe_action;
}

unfoldable pub or_log : Option String → Option String
or_log none = operation_log
or_log (some p) = some p

-- `False if context.stopped is not None else …`
abbrev stopped_or : Context → Option Bool → Option Bool
stopped_or c other = if is_some c.stopped then some false else other

unfoldable pub proven : Option Bool → Bool
proven (some true) = true
proven _ = false

unfoldable pub cleanup_failed_in : Option CommandOutcome → Bool
cleanup_failed_in none = false
cleanup_failed_in (some o) = outcome_is o cleanup_failed

-- `_normalize_deployment_error`; `none` lets the exception through.
unfoldable pub normalize : Context → Raised → Option DployDbError
unfolding or_log proven cleanup_failed_in
normalize c (dploydb e) =
    if c.production_may_have_changed && not e.payload.production_changed
    then some (
        new_error e.error_class e.payload.what_failed true (some false) (or_log e.payload.log_path)
          e.payload.next_safe_action)
    else some e
normalize c (production_start_error m cleanup) = some (
    new_error (if proven cleanup then operation_failed_error else recovery_required_error) m true
      (some false) operation_log
      "Keep maintenance enabled and inspect the operation-labeled new release before database rollback.")
normalize c (production_cleanup_error m) = some (
    new_error recovery_required_error m c.production_may_have_changed (some false) operation_log
      "Keep traffic blocked and inspect the failed new release.")
normalize c (production_inspection_error m) = some (
    new_error recovery_required_error m c.production_may_have_changed none operation_log
      "Preserve the contradictory container inspection evidence.")
normalize c (production_runner_error m command) = some (
    new_error
      (if cleanup_failed_in command then recovery_required_error else operation_failed_error) m
      c.production_may_have_changed (stopped_or c none) operation_log
      "Keep maintenance enabled and inspect the recorded container state.")
normalize c (readiness_check_error reason) = some (
    new_error operation_failed_error reason c.production_may_have_changed (some false) operation_log
      "Keep traffic blocked and roll back the checked release.")
normalize c (smoke_check_error m cleanup) = some (
    new_error (if cleanup then operation_failed_error else recovery_required_error) m
      c.production_may_have_changed (some false) operation_log
      "Keep traffic blocked and inspect smoke-command cleanup evidence.")
normalize c (other_exception m) = some (
    new_error recovery_required_error "unexpected deployment boundary failure"
      c.production_may_have_changed (stopped_or c none) operation_log
      "Preserve all evidence and inspect production before recovery.")
normalize c (base_exception m) = none

-- `_hook_description`
unfoldable pub hook_description : TrafficHookResult → String
unfolding output_complete
hook_description r =
    if not (output_complete r.command)
    then "traffic hook: complete output evidence was unavailable"
    else by_outcome r.command.outcome
  where
    by_outcome : CommandOutcome → String
    by_outcome nonzero_exit = "traffic hook exited with a status"
    by_outcome timed_out = "traffic hook timed out"
    by_outcome cancelled = "traffic hook was cancelled"
    by_outcome cleanup_failed = "traffic hook process cleanup could not be proven"
    by_outcome start_failed = "traffic hook could not start"
    by_outcome succeeded = "traffic hook returned invalid success evidence"

-- `_hook_error`
unfoldable pub hook_error : TrafficHookResult → Context → Bool → Bool → DployDbError
unfolding outcome_is
hook_error r c changed recovery =
    new_error
      (if recovery || outcome_is r.command.outcome cleanup_failed
        then recovery_required_error
        else external_command_error)
      (hook_description r) changed (stopped_or c (some true)) operation_log
      "Keep traffic blocked and inspect the recorded hook evidence."

-- `_require_complete_logs`; `none` is a return.
unfoldable pub incomplete_logs : CommandResult → Option DployDbError
unfolding outcome_is output_complete
incomplete_logs command =
    if outcome_is command.outcome succeeded && output_complete command
    then none
    else some (
        new_error
          (if outcome_is command.outcome cleanup_failed
            then recovery_required_error
            else operation_failed_error)
          "new production application logs were not captured completely" true (some false)
          operation_log "Keep traffic blocked and inspect the new application directly.")
