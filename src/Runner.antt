-- ===== src/Runner.antt =====
-- dploydb/subprocesses.py: `SubprocessRunner.run` once the arguments are checked. What is seen of the
-- child at each look is a field of `Child`; the return code is kept once it was seen, as Python's
-- `Popen` does. Each look may let time pass, and so may a sleep, a join or a wait. The loops run on
-- fuel: a look takes at least one clock tick, so as many turns as a timeout has ticks, and one, are
-- enough. An error text stands for the details that the code joins to it. Not here: an exception
-- such as an interrupt in the midst of a run.
pub mod Waits
pub mod Laws
use dploy_db.Base.{
  ℕ, zero, suc, ◌+◌, String, Bool, false, true, not, ◌&&◌, ◌||◌, Option, none, some, List, [], leb,
  ◌==◌, if◌then◌else◌, is_some,
}
use dploy_db.Command.{
  CommandOutcome, succeeded, nonzero_exit, start_failed, timed_out, cancelled, cleanup_failed,
  TerminationReason, timeout, cancellation, interruption, CapturedOutput, CommandResult,
}
use dploy_db.Capture.{new_capture, drain, snapshot}

-- The settings of the runner, and what each look at the child and at the clock gives.
pub record Child : Type 0 where
  pub timeout_seconds : ℕ
  pub termination_grace_seconds : ℕ
  pub max_output_bytes : ℕ
  pub elapsed : ℕ → ℕ
  pub is_cancelled : ℕ → Bool
  pub start_error : Option String
  pub exited : ℕ → Option ℕ
  pub group_exists : ℕ → Bool
  pub readers_alive : ℕ → Bool
  pub reader_error : ℕ → Option String
  pub signal_error : ℕ → Option String
  pub stdout_chunks : ℕ → List (List ℕ)
  pub stderr_chunks : ℕ → List (List ℕ)

-- The looks so far, the time, and the `returncode` of the process.
pub record Run : Type 0 where
  pub looks : ℕ
  pub time : ℕ
  pub returncode : Option ℕ

-- `_CleanupResult`
pub record CleanupResult : Type 0 where
  pub forced_kill : Bool
  pub error : Option String

-- The first error of two, which stands for both.
unfoldable pub joined : Option String → Option String → Option String
joined none e = e
joined (some d) e = some d

abbrev empty : CapturedOutput
empty = record { total_bytes = 0; retained_bytes = 0; truncated = false }

-- A result without a process.
unfoldable pub unstarted : CommandOutcome → Option TerminationReason → Option String → CommandResult
unstarted outcome reason error = record {
  outcome = outcome;
  exit_code = none;
  stdout = empty;
  stderr = empty;
  termination_reason = reason;
  termination_attempted = false;
  forced_kill = false;
  start_error = error;
  cleanup_error = none;
}

unfoldable pub exit_outcome : Option ℕ → CommandOutcome
exit_outcome none = nonzero_exit
exit_outcome (some zero) = succeeded
exit_outcome (some (suc n)) = nonzero_exit

unfoldable pub reason_outcome : TerminationReason → CommandOutcome
reason_outcome timeout = timed_out
reason_outcome _ = cancelled

unfoldable pub terminated_outcome : TerminationReason → Option String → CommandOutcome
unfolding reason_outcome
terminated_outcome reason none = reason_outcome reason
terminated_outcome reason (some e) = cleanup_failed

module _ (env : Child) where
  unfoldable pub tick : Run → Run
  tick r = record {
    looks = suc r.looks;
    time = r.time + env.elapsed r.looks;
    returncode = r.returncode;
  }

  unfoldable pub kept_code : Option ℕ → ℕ → Option ℕ
  kept_code (some n) look = some n
  kept_code none look = env.exited look

  -- `process.poll()`
  unfoldable pub poll : Run → Run
  unfolding tick kept_code
  poll r = record (tick r) { returncode = kept_code r.returncode r.looks }

  -- `_wait_for_completion`: no reason where the process and the readers have ended.
  unfoldable pub wait_for_completion : ℕ → ℕ → Run → Option (Option TerminationReason × Run)
  unfolding poll tick
  wait_for_completion zero deadline r = none
  wait_for_completion (suc fuel) deadline r =
      let polled = poll r in
      let seen = tick polled in
      let asked = tick seen in
      let timed = tick asked in
      let rest = wait_for_completion fuel deadline (tick timed) in
      if is_some polled.returncode && not (env.readers_alive polled.looks)
      then some (none, seen)
      else if env.is_cancelled seen.looks
      then some (some cancellation, asked)
      else if leb deadline timed.time
      then some (some timeout, timed)
      else rest

  -- The group, the process and the readers have ended, by two looks from this one on.
  unfoldable pub is_gone : Run → Bool
  is_gone r =
      not (env.group_exists r.looks)
      && is_some r.returncode
      && not (env.readers_alive (suc r.looks))

  -- `process.wait` with a timeout, where the return code is not known.
  unfoldable pub wait_for_process : Run → Run
  unfolding poll
  wait_for_process r = if is_some r.returncode then r else poll r

  -- `_wait_for_group_cleanup`
  unfoldable pub group_cleanup : ℕ → ℕ → Run → Option (Bool × Run)
  unfolding poll tick is_gone wait_for_process
  group_cleanup zero deadline r = none
  group_cleanup (suc fuel) deadline r =
      let polled = poll r in
      let seen = tick (tick polled) in
      let timed = tick seen in
      let last = poll timed in
      let rest = group_cleanup fuel deadline (wait_for_process (tick (tick timed))) in
      if is_gone polled
      then some (true, seen)
      else if leb deadline timed.time
      then some (is_gone last, tick (tick last))
      else rest

  -- `_wait_for_group_cleanup` from its deadline on.
  unfoldable pub wait_for_group_cleanup : Run → Option (Bool × Run)
  unfolding group_cleanup tick
  wait_for_group_cleanup r =
      group_cleanup (suc env.termination_grace_seconds)
        ((tick r).time + env.termination_grace_seconds) (tick r)

  unfoldable pub cleaned : Bool → Option String → Run → CleanupResult × Run
  unfolding joined tick
  cleaned forced errors r =
      (record { forced_kill = forced; error = joined errors (env.reader_error r.looks) }, tick r)

  -- The end of `_terminate_group` after SIGKILL.
  unfoldable pub after_kill : Option String → Option (Bool × Run) → Option (CleanupResult × Run)
  unfolding cleaned joined
  after_kill errors none = none
  after_kill errors (some (true, r)) = some (cleaned true errors r)
  after_kill errors (some (false, r)) =
      some (cleaned true (joined errors (some "process group remained after forced termination")) r)

  -- `_terminate_group` after SIGTERM.
  unfoldable pub after_term : Option String → Option (Bool × Run) → Option (CleanupResult × Run)
  unfolding cleaned after_kill joined tick wait_for_group_cleanup
  after_term errors none = none
  after_term errors (some (true, r)) = some (cleaned false errors r)
  after_term errors (some (false, r)) =
      after_kill (joined errors (env.signal_error r.looks)) (wait_for_group_cleanup (tick r))

  -- `_terminate_group`
  unfoldable pub terminate_group : Run → Option (CleanupResult × Run)
  unfolding after_term tick wait_for_group_cleanup
  terminate_group r = after_term (env.signal_error r.looks) (wait_for_group_cleanup (tick r))

  -- `_result`
  unfoldable pub result :
      CommandOutcome → Option TerminationReason → Bool → Bool → Option String → Run → CommandResult
  result outcome reason attempted forced error r = record {
    outcome = outcome;
    exit_code = r.returncode;
    stdout = snapshot (drain (new_capture env.max_output_bytes) (env.stdout_chunks r.looks));
    stderr = snapshot (drain (new_capture env.max_output_bytes) (env.stderr_chunks r.looks));
    termination_reason = reason;
    termination_attempted = attempted;
    forced_kill = forced;
    start_error = none;
    cleanup_error = error;
  }

  -- The result after a cleanup for a timeout or a cancellation.
  unfoldable pub terminated :
      TerminationReason → Option (CleanupResult × Run) → Option (CommandResult × Run)
  unfolding result terminated_outcome
  terminated reason none = none
  terminated reason (some (c, r)) =
      some
        (result (terminated_outcome reason c.error) (some reason) true c.forced_kill c.error r, r)

  -- The result after a cleanup for a failed capture.
  unfoldable pub capture_failed :
      String → Option (CleanupResult × Run) → Option (CommandResult × Run)
  unfolding result
  capture_failed e none = none
  capture_failed e (some (c, r)) =
      some (result cleanup_failed (some interruption) true c.forced_kill (some e) r, r)

  unfoldable pub completed : Run → Option String → Option (CommandResult × Run)
  unfolding result exit_outcome capture_failed terminate_group
  completed r none = some (result (exit_outcome r.returncode) none false false none r, r)
  completed r (some e) = capture_failed e (terminate_group r)

  unfoldable pub after_wait : Option (Option TerminationReason × Run) → Option (CommandResult × Run)
  unfolding completed terminated terminate_group tick
  after_wait none = none
  after_wait (some (none, r)) = completed (tick r) (env.reader_error r.looks)
  after_wait (some (some reason, r)) = terminated reason (terminate_group r)

  unfoldable pub started : Run → Option String → Option (CommandResult × Run)
  unfolding after_wait wait_for_completion unstarted tick
  started r (some e) = some (unstarted start_failed none (some e), r)
  started r none =
      after_wait
        (wait_for_completion (suc env.timeout_seconds) (r.time + env.timeout_seconds) (tick r))

  -- `run`, from the look at the clock on, with the state in which it ends.
  unfoldable pub run : Run → Option (CommandResult × Run)
  unfolding started unstarted tick
  run r =
      let begun = tick r in
      if env.is_cancelled begun.looks
      then some (unstarted cancelled (some cancellation) none, tick begun)
      else started begun env.start_error
