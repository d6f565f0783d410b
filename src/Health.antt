-- ===== src/Health.antt =====
-- dploydb/health.py: `check_application`, `wait_until_ready` and `_request_once`. Time is a number of clock ticks that never
-- goes back: each look at the outside may let time pass, and a sleep lets at least its argument
-- pass, which is what Python promises of `monotonic` and `sleep`. Durations, the URL and the
-- details formatted into reasons are left out.
pub mod Laws
use dploy_db.Base.{
  ℕ, zero, suc, ◌+◌, ◌-◌, String, Bool, true, false, not, ◌&&◌, ◌||◌, Option, none, some, List, [],
  ◌∷◌, ltb, leb, ◌==◌, if◌then◌else◌,
}
use dploy_db.Models.State.{Check}
use dploy_db.Command.{
  CapturedOutput, CommandOutcome, succeeded, nonzero_exit, timed_out, cleanup_failed, start_failed,
  outcome_is, CommandResult,
}
use dploy_db.Capture.{BoundedCapture, new_capture, append, snapshot}

pub data HealthAttemptOutcome : Type 0 where
  healthy unhealthy_http redirect_refused transport_error deadline_expired cancelled :
      HealthAttemptOutcome

pub record HealthAttemptEvidence : Type 0 where
  pub attempt : ℕ
  pub outcome : HealthAttemptOutcome
  pub status_code : Option ℕ
  pub body : Option CapturedOutput
  pub reason : String

pub record ReadinessEvidence : Type 0 where
  pub healthy : Bool
  pub attempt_count : ℕ
  pub last_attempt : Option HealthAttemptEvidence
  pub reason : String

-- What `wait_until_ready` ends in: it returns the evidence, or raises `ReadinessCheckError` with it.
pub data Readiness : Type 0 where
  ready : ReadinessEvidence → Readiness
  not_ready : ReadinessEvidence → Readiness

-- What a request gives: a transport error, or a status and the chunks of the body, and whether a
-- transport error comes after them.
pub data Response : Type 0 where
  failed : Response
  answered : ℕ → List (List ℕ) → Bool → Response

-- The number of looks at the outside so far, and the time.
pub record Moment : Type 0 where
  pub looks : ℕ
  pub time : ℕ

-- The checked application, the limits of the checker, and how long each look takes.
pub record Endpoint : Type 0 where
  pub startup_timeout : ℕ
  pub retry_interval : ℕ
  pub max_response_bytes : ℕ
  pub elapsed : ℕ → ℕ
  pub is_cancelled : ℕ → Bool
  pub request : ℕ → Response

unfoldable pub is_healthy : HealthAttemptOutcome → Bool
is_healthy healthy = true
is_healthy _ = false

-- `ReadinessEvidence.__post_init__` on the last attempt.
unfoldable pub last_matches : Option HealthAttemptEvidence → ℕ → Bool
last_matches none count = count == 0
last_matches (some a) count = a.attempt == count

unfoldable pub last_is_healthy : Option HealthAttemptEvidence → Bool
unfolding is_healthy
last_is_healthy none = false
last_is_healthy (some a) = is_healthy a.outcome

-- `ReadinessEvidence.__post_init__` accepts the value. The reasons are fixed texts.
unfoldable pub valid_readiness : ReadinessEvidence → Bool
unfolding last_matches last_is_healthy
valid_readiness e =
    last_matches e.last_attempt e.attempt_count && (not e.healthy || last_is_healthy e.last_attempt)

-- The outcome of a status code.
unfoldable pub status_outcome : ℕ → HealthAttemptOutcome
status_outcome code =
    if leb 200 code && ltb code 300
    then healthy
    else if leb 300 code && ltb code 400
    then redirect_refused
    else unhealthy_http

unfoldable pub outcome_reason : HealthAttemptOutcome → String
outcome_reason healthy = "HTTP success"
outcome_reason unhealthy_http = "HTTP response was not healthy"
outcome_reason redirect_refused = "HTTP redirect was refused"
outcome_reason transport_error = "readiness request failed"
outcome_reason deadline_expired = "readiness request reached the overall startup deadline"
outcome_reason cancelled = "readiness request was cancelled"

-- `_attempt`
unfoldable pub make_attempt :
    ℕ → HealthAttemptOutcome → Option ℕ → Option CapturedOutput → HealthAttemptEvidence
unfolding outcome_reason
make_attempt attempt outcome code body = record {
  attempt = attempt;
  outcome = outcome;
  status_code = code;
  body = body;
  reason = outcome_reason outcome;
}

-- How the reading of a body ends.
pub data Body : Type 0 where
  whole : BoundedCapture → Body
  body_cancelled : Body
  body_expired : Body
  body_broken : Body

unfoldable pub body_attempt : ℕ → ℕ → Body → HealthAttemptEvidence
unfolding make_attempt status_outcome
body_attempt attempt code (whole c) =
    make_attempt attempt (status_outcome code) (some code) (some (snapshot c))
body_attempt attempt code body_cancelled = make_attempt attempt cancelled (some code) none
body_attempt attempt code body_expired = make_attempt attempt deadline_expired (some code) none
body_attempt attempt code body_broken = make_attempt attempt transport_error none none

unfoldable pub unready : ℕ → Option HealthAttemptEvidence → String → Readiness
unready count last reason =
    not_ready
      (record { healthy = false; attempt_count = count; last_attempt = last; reason = reason })

-- What the attempt decides; where it decides nothing the loop goes on.
unfoldable pub decide_by :
    HealthAttemptOutcome → HealthAttemptEvidence → Option Readiness → Option Readiness
unfolding unready
decide_by healthy a rest = some (
    ready (record {
      healthy = true;
      attempt_count = a.attempt;
      last_attempt = some a;
      reason = "candidate returned a real HTTP 2xx readiness response";
    }))
decide_by cancelled a rest =
    some (unready a.attempt (some a) "candidate readiness was cancelled before a passing response")
decide_by _ a rest = rest

-- `_smoke_failure`; `none` is a pass.
unfoldable pub smoke_failure : CommandResult → Option String
smoke_failure r =
    if r.stdout.truncated || r.stderr.truncated
    then some "candidate smoke output exceeded the complete-capture safety bound"
    else by_outcome r.outcome
  where
    by_outcome : CommandOutcome → Option String
    by_outcome succeeded = none
    by_outcome nonzero_exit = some "candidate smoke command exited with status"
    by_outcome timed_out =
        some "candidate smoke command timed out and its process group was terminated"
    by_outcome CommandOutcome.cancelled =
        some "candidate smoke command was cancelled and its process group was terminated"
    by_outcome cleanup_failed = some "candidate smoke process cleanup could not be proven"
    by_outcome start_failed = some "candidate smoke command could not start"

-- What `check_application` ends in: it returns a result, or raises one of two errors.
pub data HealthCheck : Type 0 where
  check_passed : ReadinessEvidence → Option CommandResult → HealthCheck
  readiness_error : ReadinessEvidence → HealthCheck
  smoke_error : String → ReadinessEvidence → CommandResult → HealthCheck

-- `CandidateHealthResult.__post_init__` accepts the value.
unfoldable pub valid_health_result : ReadinessEvidence → Option CommandResult → Bool
unfolding outcome_is
valid_health_result e none = e.healthy
valid_health_result e (some r) =
    e.healthy && outcome_is r.outcome succeeded && not r.stdout.truncated && not r.stderr.truncated

unfoldable pub after_smoke : ReadinessEvidence → CommandResult → Option String → HealthCheck
after_smoke e r none = check_passed e (some r)
after_smoke e r (some failure) = smoke_error failure e r

-- `check_application` from the readiness on. The result of the smoke command, where one is
-- configured, is an answer of the outside.
unfoldable pub after_readiness : Option CommandResult → Readiness → HealthCheck
unfolding smoke_failure after_smoke
after_readiness smoke (not_ready e) = readiness_error e
after_readiness none (ready e) = check_passed e none
after_readiness (some r) (ready e) = after_smoke e r (smoke_failure r)

module _ (env : Endpoint) where
  -- One look at the outside.
  unfoldable pub later : Moment → Moment
  later m = record { looks = suc m.looks; time = m.time + env.elapsed m.looks }

  -- `sleep(seconds)`
  unfoldable pub slept : ℕ → Moment → Moment
  slept d m = record { looks = suc m.looks; time = m.time + d + env.elapsed m.looks }

  -- The loop over the chunks: a test of the cancellation and of the clock before each.
  unfoldable pub read_body : ℕ → Bool → BoundedCapture → List (List ℕ) → Moment → Body × Moment
  read_body deadline breaks c [] m = (if breaks then body_broken else whole c, m)
  read_body deadline breaks c (chunk ∷ chunks) m =
      let now = later (later m) in
      let rest = read_body deadline breaks (append c chunk) chunks now in
      if env.is_cancelled m.looks
      then (body_cancelled, later m)
      else if leb deadline now.time
      then (body_expired, now)
      else rest

  unfoldable pub receive : ℕ → ℕ → Response → Moment → HealthAttemptEvidence × Moment
  receive deadline attempt failed m = (make_attempt attempt transport_error none none, m)
  receive deadline attempt (answered code chunks breaks) m =
      let (body, m') = read_body deadline breaks (new_capture env.max_response_bytes) chunks m in
      (body_attempt attempt code body, m')

  -- `_request_once`
  unfoldable pub request_once : ℕ → ℕ → Moment → HealthAttemptEvidence × Moment
  request_once deadline attempt m =
      let started = later m in
      if leb deadline started.time
      then (make_attempt attempt deadline_expired none none, started)
      else receive deadline attempt (env.request started.looks) (later started)

  -- `min(retry_interval, remaining)`
  unfoldable pub pause : ℕ → ℕ → ℕ
  pause deadline now =
      if ltb env.retry_interval (deadline - now) then env.retry_interval else deadline - now

  -- The end of one turn of the loop: the clock, and the sleep unless the deadline has come.
  unfoldable pub rest_a_while : ℕ → Moment → Moment
  rest_a_while deadline m =
      let now = later m in
      if leb deadline now.time then now else slept (pause deadline now.time) now

  -- The loop, for at most `fuel` turns; `none` where these are not enough.
  unfoldable pub wait_loop : ℕ → ℕ → ℕ → Option HealthAttemptEvidence → Moment → Option Readiness
  wait_loop zero deadline count last m = none
  wait_loop (suc fuel) deadline count last m =
      let now = later (later m) in
      let (a, done) = request_once deadline (suc count) now in
      let rest = wait_loop fuel deadline (suc count) (some a) (rest_a_while deadline done) in
      if env.is_cancelled m.looks
      then some (unready count last "candidate readiness was cancelled before a passing response")
      else if leb deadline now.time
      then some (unready count last "candidate readiness deadline expired")
      else decide_by a.outcome a rest

  -- `wait_until_ready`: as many turns as the timeout has ticks, and one more.
  unfoldable pub wait_until_ready : Moment → Option Readiness
  wait_until_ready m =
      let started = later m in
      wait_loop (suc env.startup_timeout) (started.time + env.startup_timeout) 0 none started

  unfoldable pub checked : Option CommandResult → Option Readiness → Option HealthCheck
  checked smoke none = none
  checked smoke (some r) = some (after_readiness smoke r)

  -- `check_application`
  unfoldable pub check_application : Option CommandResult → Moment → Option HealthCheck
  check_application smoke m = checked smoke (wait_until_ready m)
