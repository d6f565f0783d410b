-- ===== src/Runner/Laws.antt =====
-- dploydb/subprocesses.py: what the result of a run says, and that a run ends.
use dploy_db.Base.{
  ℕ, zero, suc, ◌+◌, ◌≤◌, String, Bool, false, true, ◌&&◌, ◌||◌, Option, none, some, is_some, ◌≡◌,
  refl, arith,
}
use dploy_db.Command.{
  CommandOutcome, succeeded, nonzero_exit, start_failed, timed_out, cancelled, cleanup_failed,
  TerminationReason, timeout, cancellation, interruption, CommandResult, valid_result, valid_output,
  outcome_is, outcome_index,
}
use dploy_db.Capture.Laws.{drain-Faithful}
use dploy_db.Runner.{
  Child, Run, CleanupResult, unstarted, exit_outcome, reason_outcome, terminated_outcome, tick,
  result, terminated, capture_failed, completed, after_wait, started, run,
}
use dploy_db.Runner.Waits.{
  Gives, Gone, Captured, Waited, Terminated, chosen, wait-Waited, terminate_group-Terminated,
}

-- The process was started and then stopped by the runner.
abbrev pub was_stopped : CommandResult → Bool
was_stopped r =
    outcome_is r.outcome timed_out || (outcome_is r.outcome cancelled && is_some r.exit_code)

-- What a result says of the run that made its looks between the two.
pub record Concluded (env : Child) (first last : ℕ) (r : CommandResult) : Type 0 where
  pub valid : valid_result r ≡ true
  pub valid_streams : (valid_output r.stdout ≡ true) × (valid_output r.stderr ≡ true)
  pub bounded :
      (r.stdout.retained_bytes ≤ env.max_output_bytes)
      × (r.stderr.retained_bytes ≤ env.max_output_bytes)
  pub gone : was_stopped r ≡ true → Gone env first last
  pub captured : outcome_is r.outcome succeeded ≡ true → Captured env first last

-- The same of a result with the state in which the run ends.
abbrev Ended : Child → ℕ → CommandResult × Run → Type 0
Ended env first (c, r) = Concluded env first r.looks c

unstarted-Concluded :
    (env : Child) (first last : ℕ) (outcome : CommandOutcome) (reason : Option TerminationReason)
    (error : Option String)
    → valid_result (unstarted outcome reason error) ≡ true
    → outcome_is outcome timed_out ≡ false
    → outcome_is outcome succeeded ≡ false
    → Concluded env first last (unstarted outcome reason error)
unfolding unstarted valid_output
unstarted-Concluded env first last outcome reason error v t s = record {
  valid = v;
  valid_streams = (refl, refl);
  bounded = (omega arith, omega arith);
  gone = λ g. ground arith;
  captured = λ c. ground arith;
}

module _ (env : Child) (first : ℕ) where
  result-Concluded :
      (outcome : CommandOutcome) (reason : Option TerminationReason) (attempted forced : Bool)
      (error : Option String) (r : Run)
      → valid_result (result env outcome reason attempted forced error r) ≡ true
      → (was_stopped (result env outcome reason attempted forced error r) ≡ true
          → Gone env first r.looks)
      → (outcome_is outcome succeeded ≡ true → Captured env first r.looks)
      → Concluded env first r.looks (result env outcome reason attempted forced error r)
  unfolding result
  result-Concluded outcome reason attempted forced error r v g c =
      let out = drain-Faithful env.max_output_bytes (env.stdout_chunks r.looks) in
      let err = drain-Faithful env.max_output_bytes (env.stderr_chunks r.looks) in
      record {
        valid = v;
        valid_streams = (out.valid, err.valid);
        bounded = (out.bounded, err.bounded);
        gone = g;
        captured = c;
      }

  stopped-Concluded :
      (reason : TerminationReason) (forced : Bool) (error : Option String) (r : Run)
      → (error ≡ none → Gone env first r.looks × (is_some r.returncode ≡ true))
      → Concluded env first r.looks
          (result env (terminated_outcome reason error) (some reason) true forced error r)
  unfolding terminated_outcome reason_outcome valid_result outcome_is outcome_index result
  stopped-Concluded timeout forced none r h =
      result-Concluded timed_out (some timeout) true forced none r (ground arith) (λ g. (h refl).0)
        (λ s. ground arith)
  stopped-Concluded cancellation forced none r h =
      result-Concluded cancelled (some cancellation) true forced none r (ground arith)
        (λ g. (h refl).0) (λ s. ground arith)
  stopped-Concluded interruption forced none r h =
      result-Concluded cancelled (some interruption) true forced none r (ground arith)
        (λ g. (h refl).0) (λ s. ground arith)
  stopped-Concluded reason forced (some e) r h =
      result-Concluded cleanup_failed (some reason) true forced (some e) r (ground arith)
        (λ g. ground arith) (λ s. ground arith)

  terminated-Concluded :
      (reason : TerminationReason) (o : Option (CleanupResult × Run))
      → Gives (Terminated env first) o
      → Gives (Ended env first) (terminated env reason o)
  unfolding terminated Terminated
  terminated-Concluded reason none h = h
  terminated-Concluded reason (some (c, q)) h = stopped-Concluded reason c.forced_kill c.error q h

  capture_failed-Concluded :
      (e : String) (o : Option (CleanupResult × Run))
      → Gives (Terminated env first) o
      → Gives (Ended env first) (capture_failed env e o)
  unfolding capture_failed valid_result outcome_is outcome_index result
  capture_failed-Concluded e none h = h
  capture_failed-Concluded e (some (c, q)) h =
      result-Concluded cleanup_failed (some interruption) true c.forced_kill (some e) q
        (ground arith) (λ g. ground arith) (λ s. ground arith)

  exited-Concluded :
      (r : Run) (code : Option ℕ)
      → r.returncode ≡ code
      → is_some code ≡ true
      → Captured env first r.looks
      → Concluded env first r.looks (result env (exit_outcome code) none false false none r)
  unfolding exit_outcome result valid_result outcome_is outcome_index
  exited-Concluded r none e s c = ground arith
  exited-Concluded r (some zero) e s c =
      result-Concluded succeeded none false false none r (ground arith) (λ g. ground arith) (λ h. c)
  exited-Concluded r (some (suc n)) e s c =
      result-Concluded nonzero_exit none false false none r (ground arith) (λ g. ground arith)
        (λ h. ground arith)

module _ (env : Child) (ticks : (n : ℕ) → 1 ≤ env.elapsed n) (first : ℕ) where
  completed-Concluded :
      (r : Run) (e : Option String)
      → env.reader_error r.looks ≡ e
      → Waited env first (none, r)
      → Gives (Ended env first) (completed env (tick env r) e)
  unfolding completed Waited Captured tick
  completed-Concluded r none h (code, n, f, l, ended) =
      exited-Concluded env first (tick env r) r.returncode refl code
        (n, r.looks, f, l, omega arith, ended, h)
  completed-Concluded r (some e) h (code, n, f, l, ended) =
      capture_failed-Concluded env first e _
        (terminate_group-Terminated env ticks first (tick env r) (omega arith))

  after_wait-Concluded :
      (o : Option (Option TerminationReason × Run))
      → Gives (Waited env first) o
      → Gives (Ended env first) (after_wait env o)
  unfolding after_wait Waited
  after_wait-Concluded none h = h
  after_wait-Concluded (some (none, r)) h = completed-Concluded r (env.reader_error r.looks) refl h
  after_wait-Concluded (some (some reason, r)) h =
      terminated-Concluded env first reason _ (terminate_group-Terminated env ticks first r h)

  started-Concluded :
      (r : Run) (e : Option String) → first ≤ r.looks → Gives (Ended env first) (started env r e)
  unfolding started valid_result outcome_is outcome_index unstarted tick
  started-Concluded r (some e) f =
      unstarted-Concluded env first r.looks start_failed none (some e) refl refl refl
  started-Concluded r none f = after_wait-Concluded _ (
      wait-Waited env ticks first (suc env.timeout_seconds) (r.time + env.timeout_seconds)
        (tick env r) (omega arith) (omega arith))

given : {A : Type 0} (P : A → Type 0) (o : Option A) → Gives P o → (a : A) × (o ≡ some a) × P a
given P none h = ground arith
given P (some a) h = (a, refl, h)

-- Where every look takes at least a tick of the clock, a run of a command ends, and its result passes
-- its own validation, with valid streams within the limit. A result that the runner stopped the
-- started command comes only after looks of this run that found no process group and no live
-- reader, and one of success only after looks that found the readers ended and none failed.
pub run-Concluded :
    (env : Child) (r : Run)
    → ((n : ℕ) → 1 ≤ env.elapsed n)
    → (c : CommandResult) × (last : Run) × (run env r ≡ some (c, last))
      × Concluded env r.looks last.looks c
unfolding run unstarted valid_result outcome_is outcome_index tick
run-Concluded env r ticks =
    let ((c, last), e, h) = given (Ended env r.looks) (run env r) (
      chosen (Ended env r.looks) (env.is_cancelled (tick env r).looks) _ _
        (λ c. unstarted-Concluded env r.looks _ cancelled (some cancellation) none refl refl refl)
        (λ c. started-Concluded env ticks r.looks (tick env r) env.start_error (omega arith))) in
    (c, last, e, h)
