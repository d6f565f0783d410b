-- ===== src/Tests/Checks.antt =====
-- Runs of the bounded capture, of a command, of health checks and of two lock instances.
use dploy_db.Base.{ℕ, ◌≡◌, refl, List, false, none, some, ◌∷◌, [], arith, if◌then◌else◌, ltb}
use dploy_db.Capture.{new_capture, drain}
use dploy_db.Capture.Laws.{kept_of, received, drain-kept_of, drain-Faithful, Faithful}
use dploy_db.Health.{
  Readiness, HealthCheck, failed, answered, Moment, Endpoint, wait_until_ready, check_application,
}
use dploy_db.Health.Laws.{Sound, Proven, wait_until_ready-decides, check_application-Proven}
use dploy_db.Locking.{
  LockOutside, missing, acquire, opened, locked, record_owner, same_record, refused,
}
use dploy_db.Locking.Exclusion.{
  System, acquires, records, Reachable, started, called, performed, Excluded, Reachable-Excluded,
  put, after, new_instance,
}
use dploy_db.World.{written}
use dploy_db.Runner.{Child, Run, run}
use dploy_db.Runner.Laws.{Concluded, run-Concluded}
use dploy_db.Command.{CommandResult}
use dploy_db.Tests.Data.{good_command}

-- "health ok\n" in three pieces, through a capture of four bytes.
abbrev pieces : List (List ℕ)
pieces = (104 ∷ 101 ∷ 97 ∷ 108 ∷ []) ∷ (116 ∷ 104 ∷ []) ∷ (32 ∷ 111 ∷ 107 ∷ 10 ∷ []) ∷ [] ∷ []

drain-kept_of_example : drain (new_capture 4) pieces ≡ kept_of 4 (received pieces)
drain-kept_of_example = drain-kept_of 4 pieces

drain-Faithful_example : Faithful 4 (received pieces) (drain (new_capture 4) pieces)
drain-Faithful_example = drain-Faithful 4 pieces

-- An application that refuses the first request, and then answers.
abbrev slow_start : Endpoint
slow_start = record {
  startup_timeout = 30;
  retry_interval = 2;
  max_response_bytes = 4;
  elapsed = λ n. 1;
  is_cancelled = λ n. false;
  request = λ n. if ltb n 6 then failed else answered 200 ((111 ∷ 107 ∷ []) ∷ []) false;
}

abbrev no_time : Moment
no_time = record { looks = 0; time = 0 }

wait_until_ready-decides_example :
    (r : Readiness) × (wait_until_ready slow_start no_time ≡ some r) × Sound r
wait_until_ready-decides_example = wait_until_ready-decides slow_start no_time (omega arith)

check_application-Proven_example :
    (c : HealthCheck) × (check_application slow_start (some good_command) no_time ≡ some c)
    × Proven c
check_application-Proven_example =
    check_application-Proven slow_start (some good_command) no_time (omega arith)

-- A command that outlives its timeout, and goes only after SIGKILL.
abbrev stubborn : Child
stubborn = record {
  timeout_seconds = 6;
  termination_grace_seconds = 4;
  max_output_bytes = 4;
  elapsed = λ n. 1;
  is_cancelled = λ n. false;
  start_error = none;
  exited = λ n. if ltb n 25 then none else some 9;
  group_exists = λ n. ltb n 25;
  readers_alive = λ n. ltb n 25;
  reader_error = λ n. none;
  signal_error = λ n. none;
  stdout_chunks = λ n. pieces;
  stderr_chunks = λ n. [];
}

abbrev no_looks : Run
no_looks = record { looks = 0; time = 0; returncode = none }

run-Concluded_example :
    (c : CommandResult) × (last : Run) × (run stubborn no_looks ≡ some (c, last))
    × Concluded stubborn 0 last.looks c
run-Concluded_example = run-Concluded stubborn no_looks (λ n. omega arith)

-- Two instances on a missing owner file: the first acquires the lock and records itself.
abbrev calm : LockOutside
calm = record {
  process = record { pid = 7; hostname = "db-1" };
  now = 10;
  fresh = 3;
  open_failure = none;
  write = written;
  unlock_failed = false;
}

abbrev unlocked : System
unlocked = record {
  shared = record { owner_file = missing; holder = none };
  instances = λ i. new_instance;
}

abbrev recorded : System
recorded = performed (records 0 calm 5 "deploy" none) (performed (acquires 0 calm) unlocked)

recorded-Reachable : Reachable recorded
recorded-Reachable =
    called (called (started missing) (acquires 0 calm)) (records 0 calm 5 "deploy" none)

Reachable-Excluded_example : Excluded recorded 0
unfolding performed acquire put after opened locked record_owner same_record refused
Reachable-Excluded_example = Reachable-Excluded recorded 0 recorded-Reachable refl
