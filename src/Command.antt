-- ===== src/Command.antt =====
-- dploydb/subprocesses.py: the outcome and the terminal evidence of one bounded command, and
-- dploydb/traffic.py: the traffic hooks and when one has passed. How a hook is run is a
-- field of the environment (World.antt).
pub mod Laws
use dploy_db.Base.{
  ℕ, String, Bool, false, not, ◌&&◌, ◌||◌, Option, none, some, ltb, ◌==◌, is_none, is_some, bool_eq,
  if◌then◌else◌,
}

pub data CommandOutcome : Type 0 where
  succeeded nonzero_exit start_failed timed_out cancelled cleanup_failed : CommandOutcome

unfoldable pub outcome_index : CommandOutcome → ℕ
outcome_index succeeded = 0
outcome_index nonzero_exit = 1
outcome_index start_failed = 2
outcome_index timed_out = 3
outcome_index cancelled = 4
outcome_index cleanup_failed = 5

-- `a is b`
unfoldable pub outcome_is : CommandOutcome → CommandOutcome → Bool
unfolding outcome_index
outcome_is a b = outcome_index a == outcome_index b

pub data TerminationReason : Type 0 where
  timeout cancellation interruption : TerminationReason

-- One captured stream, without its text.
pub record CapturedOutput : Type 0 where
  pub total_bytes : ℕ
  pub retained_bytes : ℕ
  pub truncated : Bool

-- `CapturedOutput.__post_init__` accepts the value.
unfoldable pub valid_output : CapturedOutput → Bool
valid_output o =
    not (ltb o.total_bytes o.retained_bytes)
    && bool_eq o.truncated (ltb o.retained_bytes o.total_bytes)

-- `CommandResult`, without the argument vector, the texts and the duration. A process that a signal
-- ended has a negative exit code: an exit code is kept as `none`, or as some number that is 0
-- exactly for the code 0.
pub record CommandResult : Type 0 where
  pub outcome : CommandOutcome
  pub exit_code : Option ℕ
  pub stdout : CapturedOutput
  pub stderr : CapturedOutput
  pub termination_reason : Option TerminationReason
  pub termination_attempted : Bool
  pub forced_kill : Bool
  pub start_error : Option String
  pub cleanup_error : Option String

exit_is_zero : Option ℕ → Bool
exit_is_zero none = false
exit_is_zero (some n) = n == 0

-- `CommandResult.__post_init__` accepts the value; the tests on the arguments and on the duration
-- are left out with those fields.
unfoldable pub valid_result : CommandResult → Bool
unfolding outcome_is exit_is_zero
valid_result r =
    not (outcome_is r.outcome succeeded && not (exit_is_zero r.exit_code))
    && not (outcome_is r.outcome nonzero_exit && (is_none r.exit_code || exit_is_zero r.exit_code))
    && (if outcome_is r.outcome start_failed
        then is_none r.exit_code && is_some r.start_error
        else is_none r.start_error)
    && (if outcome_is r.outcome cleanup_failed
        then is_some r.cleanup_error
        else is_none r.cleanup_error)
    && not (
        (outcome_is r.outcome timed_out || outcome_is r.outcome cancelled)
        && is_none r.termination_reason)
    && not (outcome_is r.outcome timed_out && not r.termination_attempted)
    && not (outcome_is r.outcome cancelled && is_some r.exit_code && not r.termination_attempted)
    && not (outcome_is r.outcome cleanup_failed && is_none r.termination_reason)
    && not (r.forced_kill && not r.termination_attempted)

-- Both streams were captured completely.
unfoldable pub output_complete : CommandResult → Bool
output_complete r = not r.stdout.truncated && not r.stderr.truncated

pub data TrafficAction : Type 0 where
  enable_maintenance disable_maintenance activate_new activate_old : TrafficAction

-- `TrafficHookResult` and its property `passed`.
pub record TrafficHookResult : Type 0 where
  pub action : TrafficAction
  pub command : CommandResult

unfoldable pub passed : TrafficHookResult → Bool
unfolding outcome_is output_complete
passed r = outcome_is r.command.outcome succeeded && output_complete r.command

-- `_hook_may_have_run` of dploydb/deploy.py (and its copy in dploydb/manual_restore.py).
unfoldable pub hook_may_have_run : TrafficHookResult → Bool
unfolding outcome_is
hook_may_have_run r = not (
    outcome_is r.command.outcome start_failed
    || (outcome_is r.command.outcome cancelled && is_none r.command.exit_code))
