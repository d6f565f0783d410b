-- ===== src/Command/Laws.antt =====
-- What the evidence of a traffic hook (dploydb/traffic.py, dploydb/subprocesses.py) rules out.
use dploy_db.Base.{◌≡◌, true, false, none, some, arith}
use dploy_db.Command.{TrafficHookResult, valid_result, valid_output, passed, hook_may_have_run}

-- A hook that passed did run, exited with code 0, and every byte of both of its streams was
-- retained.
pub passed_evidence :
    (r : TrafficHookResult)
    → valid_result r.command ≡ true
    → valid_output r.command.stdout ≡ true
    → valid_output r.command.stderr ≡ true
    → passed r ≡ true
    → (hook_may_have_run r ≡ true)
      × (r.command.exit_code ≡ some 0)
      × (r.command.stdout.retained_bytes ≡ r.command.stdout.total_bytes)
      × (r.command.stderr.retained_bytes ≡ r.command.stderr.total_bytes)
unfolding valid_result valid_output passed hook_may_have_run
passed_evidence r v o e p = (ground arith, ground arith, ground arith, ground arith)

-- A hook that is taken not to have run has no exit code, so no process of it ended.
pub not_run_no_exit_code :
    (r : TrafficHookResult)
    → valid_result r.command ≡ true
    → hook_may_have_run r ≡ false
    → r.command.exit_code ≡ none
unfolding valid_result hook_may_have_run
not_run_no_exit_code r v n = ground arith
