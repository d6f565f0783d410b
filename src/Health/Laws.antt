-- ===== src/Health/Laws.antt =====
-- `wait_until_ready` (dploydb/health.py) comes to a decision, and its evidence is sound.
use dploy_db.Base.{
  ℕ, String, zero, suc, ◌+◌, ◌-◌, ◌≤◌, ◌<◌, ◌≡◌, refl, Bool, true, false, Option, none, some, List,
  [], ◌∷◌, leb, if◌then◌else◌, is_some, arith, ◌⊎◌, Bool-cases, inl, inr,
}
use dploy_db.Capture.{BoundedCapture, new_capture, append}
use dploy_db.Health.{
  HealthAttemptOutcome, healthy, unhealthy_http, redirect_refused, transport_error,
  deadline_expired, cancelled, HealthAttemptEvidence, ReadinessEvidence, Readiness, ready,
  not_ready, Response, failed, answered, Moment, Endpoint, is_healthy, last_matches,
  last_is_healthy, valid_readiness, status_outcome, make_attempt, Body, whole, body_cancelled,
  body_expired, body_broken, body_attempt, unready, later, slept, read_body, receive, request_once,
  pause, rest_a_while, decide_by, wait_loop, wait_until_ready, smoke_failure, HealthCheck,
  check_passed, readiness_error, smoke_error, valid_health_result, after_smoke, after_readiness,
  checked, check_application,
}
use dploy_db.Command.{CommandResult, outcome_is, outcome_index}

-- The attempt had a complete response with a status of success.
abbrev pub Succeeded : HealthAttemptEvidence → Type 0
Succeeded a =
    (code : ℕ) × (a.status_code ≡ some code) × (200 ≤ code) × (code < 300) × (is_some a.body ≡ true)

-- What the attempt says, if it is healthy.
abbrev Honest : HealthAttemptEvidence → Type 0
Honest a = is_healthy a.outcome ≡ true → Succeeded a

-- The evidence passes its own validation, and says ready only of an attempt that succeeded.
abbrev pub Sound : Readiness → Type 0
Sound (ready e) =
    (valid_readiness e ≡ true)
    × (e.healthy ≡ true)
    × ((a : HealthAttemptEvidence) × (e.last_attempt ≡ some a) × Succeeded a)
Sound (not_ready e) = (valid_readiness e ≡ true) × (e.healthy ≡ false)

body_attempt-Honest :
    (attempt code : ℕ) (b : Body)
    → Honest (body_attempt attempt code b) × ((body_attempt attempt code b).attempt ≡ attempt)
unfolding body_attempt make_attempt status_outcome is_healthy
body_attempt-Honest attempt code (whole c) =
    (λ h. (code, refl, ground arith, ground arith, refl), refl)
body_attempt-Honest attempt code body_cancelled = (λ h. ground arith, refl)
body_attempt-Honest attempt code body_expired = (λ h. ground arith, refl)
body_attempt-Honest attempt code body_broken = (λ h. ground arith, refl)

module _ (env : Endpoint) where
  -- Time does not go back.
  later_in_time : (m : Moment) → m.time ≤ (later env m).time
  unfolding later
  later_in_time m = omega arith

  read_body_in_time :
      (deadline : ℕ) (breaks : Bool) (c : BoundedCapture) (chunks : List (List ℕ)) (m : Moment)
      → m.time ≤ (read_body env deadline breaks c chunks m).1.time
  unfolding read_body
  read_body_in_time deadline breaks c [] m = omega arith
  read_body_in_time deadline breaks c (chunk ∷ chunks) m = ground (
    arith,
    later_in_time m,
    later_in_time (later env m),
    read_body_in_time deadline breaks (append c chunk) chunks (later env (later env m)),
  )

  receive_in_time :
      (deadline attempt : ℕ) (r : Response) (m : Moment)
      → m.time ≤ (receive env deadline attempt r m).1.time
  unfolding receive
  receive_in_time deadline attempt failed m = omega arith
  receive_in_time deadline attempt (answered code chunks breaks) m =
      read_body_in_time deadline breaks (new_capture env.max_response_bytes) chunks m

  request_in_time :
      (deadline attempt : ℕ) (m : Moment) → m.time ≤ (request_once env deadline attempt m).1.time
  unfolding request_once
  request_in_time deadline attempt m = ground (
    arith,
    later_in_time m,
    later_in_time (later env m),
    receive_in_time deadline attempt (env.request (later env m).looks) (later env (later env m)),
  )

  receive-Honest :
      (deadline attempt : ℕ) (r : Response) (m : Moment)
      → let a = (receive env deadline attempt r m).0 in Honest a × (a.attempt ≡ attempt)
  unfolding receive make_attempt is_healthy
  receive-Honest deadline attempt failed m = (λ h. ground arith, refl)
  receive-Honest deadline attempt (answered code chunks breaks) m =
      body_attempt-Honest attempt code
        (read_body env deadline breaks (new_capture env.max_response_bytes) chunks m).0

  request_once-Honest :
      (deadline attempt : ℕ) (m : Moment)
      → let a = (request_once env deadline attempt m).0 in Honest a × (a.attempt ≡ attempt)
  unfolding request_once make_attempt is_healthy
  request_once-Honest deadline attempt m = elim (Bool-cases (leb deadline (later env m).time)) [
    | inl late ↦ rw late (λ h. ground arith, refl)
    | inr early ↦ rw early (
        receive-Honest deadline attempt (env.request (later env m).looks) (later env (later env m)))
  ]

  -- After an undecided turn less time is left, or none.
  rest_in_time :
      (deadline : ℕ) (m : Moment)
      → 1 ≤ env.retry_interval
      → (deadline ≤ (rest_a_while env deadline m).time)
        ⊎ (suc m.time ≤ (rest_a_while env deadline m).time)
  unfolding rest_a_while slept pause later
  rest_in_time deadline m positive = ground arith

  leb-false : {a b : ℕ} → leb a b ≡ false → b < a
  leb-false h = ground arith

  matches : (a : HealthAttemptEvidence) (n : ℕ) → a.attempt ≡ n → last_matches (some a) n ≡ true
  unfolding last_matches
  matches a n e = ground arith

  abbrev Decided : Option Readiness → Type 0
  Decided o = (r : Readiness) × (o ≡ some r) × Sound r

  decide_by-Decided :
      (o : HealthAttemptOutcome) (a : HealthAttemptEvidence) (rest : Option Readiness)
      → a.outcome ≡ o
      → Honest a
      → Decided rest
      → Decided (decide_by o a rest)
  unfolding decide_by unready valid_readiness last_matches last_is_healthy is_healthy
  decide_by-Decided healthy a rest e honest decided =
      (_, refl, (ground (arith, e), refl, (a, refl, honest (ground (arith, e)))))
  decide_by-Decided cancelled a rest e honest decided = (_, refl, (ground (arith, e), refl))
  decide_by-Decided unhealthy_http a rest e honest decided = decided
  decide_by-Decided redirect_refused a rest e honest decided = decided
  decide_by-Decided transport_error a rest e honest decided = decided
  decide_by-Decided deadline_expired a rest e honest decided = decided

  -- What the loop knows of its last attempt.
  unready-Decided :
      (count : ℕ) (last : Option HealthAttemptEvidence) (reason : String)
      → last_matches last count ≡ true
      → Decided (some (unready count last reason))
  unfolding unready valid_readiness
  unready-Decided count last reason h = (_, refl, (ground arith, refl))

  chosen :
      (b c : Bool) (x y z : Option Readiness)
      → Decided x
      → Decided y
      → (c ≡ false → Decided z)
      → Decided (if b then x else if c then y else z)
  chosen true c x y z p q r = p
  chosen false true x y z p q r = q
  chosen false false x y z p q r = r refl

  enough_left :
      (fuel deadline count : ℕ) (m : Moment)
      → 1 ≤ env.retry_interval
      → deadline - m.time < suc fuel
      → leb deadline (later env (later env m)).time ≡ false
      → let turn = request_once env deadline (suc count) (later env (later env m)) in
        deadline - (rest_a_while env deadline turn.1).time < fuel
  enough_left fuel deadline count m positive enough early =
      let now = later env (later env m) in
      let turn = request_once env deadline (suc count) now in
      let a = later_in_time m in
      let b = later_in_time (later env m) in
      let c = request_in_time deadline (suc count) now in
      by_rest turn.1.time (rest_a_while env deadline turn.1).time c
        (rest_in_time deadline turn.1 positive)
    where
      by_rest :
          (done rested : ℕ)
          → (later env (later env m)).time ≤ done
          → (deadline ≤ rested) ⊎ (suc done ≤ rested)
          → deadline - rested < fuel
      by_rest done rested c (inl past) =
          omega (arith, later_in_time m, later_in_time (later env m), leb-false early)
      by_rest done rested c (inr more) =
          omega (arith, later_in_time m, later_in_time (later env m), leb-false early)

  loop-Decided :
      (fuel deadline count : ℕ) (last : Option HealthAttemptEvidence) (m : Moment)
      → 1 ≤ env.retry_interval
      → last_matches last count ≡ true
      → deadline - m.time < fuel
      → Decided (wait_loop env fuel deadline count last m)
  unfolding wait_loop
  loop-Decided zero deadline count last m positive h enough = ground arith
  loop-Decided (suc fuel) deadline count last m positive h enough =
      let now = later env (later env m) in
      let turn = request_once env deadline (suc count) now in
      let (honest, numbered) = request_once-Honest deadline (suc count) now in
      chosen (env.is_cancelled m.looks) (leb deadline now.time) _ _ _
        (unready-Decided count last _ h) (unready-Decided count last _ h)
        (λ early. decide_by-Decided turn.0.outcome turn.0 _ refl honest (
          loop-Decided fuel deadline (suc count) (some turn.0) (rest_a_while env deadline turn.1)
            positive (matches turn.0 (suc count) numbered)
            (enough_left fuel deadline count m positive enough early)))

-- Readiness is decided within as many turns of the loop as the timeout has ticks, and one: for any
-- times that looks and requests take, and any answers. The evidence passes its own validation, and
-- it is one of readiness only if its last attempt had a complete response with a status from 200
-- to 299.
pub wait_until_ready-decides :
    (env : Endpoint) (m : Moment)
    → 1 ≤ env.retry_interval
    → (r : Readiness) × (wait_until_ready env m ≡ some r) × Sound r
unfolding wait_until_ready last_matches
wait_until_ready-decides env m positive =
    loop-Decided env (suc env.startup_timeout) ((later env m).time + env.startup_timeout) 0 none
      (later env m) positive (ground arith) (omega arith)

-- What a decision of the whole check says.
abbrev pub Proven : HealthCheck → Type 0
Proven (check_passed e smoke) = (valid_health_result e smoke ≡ true) × Sound (ready e)
Proven (readiness_error e) = Sound (not_ready e)
Proven (smoke_error failure e r) = Sound (ready e) × (valid_health_result e (some r) ≡ false)

smoke_failure-passed :
    (e : ReadinessEvidence) (r : CommandResult)
    → e.healthy ≡ true
    → smoke_failure r ≡ none
    → valid_health_result e (some r) ≡ true
unfolding smoke_failure valid_health_result outcome_is outcome_index
smoke_failure-passed e r h passes = ground arith

smoke_failure-failed :
    (e : ReadinessEvidence) (r : CommandResult) (failure : String)
    → smoke_failure r ≡ some failure
    → valid_health_result e (some r) ≡ false
unfolding smoke_failure valid_health_result outcome_is outcome_index
smoke_failure-failed e r failure fails = ground arith

after_smoke-Proven :
    (e : ReadinessEvidence) (r : CommandResult) (o : Option String)
    → smoke_failure r ≡ o
    → Sound (ready e)
    → Proven (after_smoke e r o)
unfolding after_smoke
after_smoke-Proven e r none is sound = (smoke_failure-passed e r sound.1 is, sound)
after_smoke-Proven e r (some failure) is sound = (sound, smoke_failure-failed e r failure is)

after_readiness-Proven :
    (smoke : Option CommandResult) (r : Readiness) → Sound r → Proven (after_readiness smoke r)
unfolding after_readiness valid_health_result
after_readiness-Proven smoke (not_ready e) sound = sound
after_readiness-Proven none (ready e) sound = (sound.1, sound)
after_readiness-Proven (some r) (ready e) sound =
    after_smoke-Proven e r (smoke_failure r) refl sound

-- The check of an application is decided. It passes only with an attempt that had a complete response
-- with a status from 200 to 299 and, where a smoke command is configured, with its complete
-- success, so its result passes its own validation; otherwise the error carries evidence that
-- says the same: no readiness, or a smoke command that no valid result admits.
pub check_application-Proven :
    (env : Endpoint) (smoke : Option CommandResult) (m : Moment)
    → 1 ≤ env.retry_interval
    → (c : HealthCheck) × (check_application env smoke m ≡ some c) × Proven c
unfolding check_application checked
check_application-Proven env smoke m positive =
    let (r, decided, sound) = wait_until_ready-decides env m positive in
    (after_readiness smoke r, rw decided refl, after_readiness-Proven smoke r sound)
