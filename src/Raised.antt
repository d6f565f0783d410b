-- ===== src/Raised.antt =====
-- What a Python call can raise, as far as dploydb/deploy.py tells the classes apart, and the result
-- of a call. The classes are those of dploydb/errors.py, dploydb/runners/base.py and
-- dploydb/health.py.
use dploy_db.Base.{◌≡◌, refl, String, Bool, true, false, Option, if◌then◌else◌}
use dploy_db.Command.{CommandOutcome}
use dploy_db.Errors.{DployDbError}

pub data Raised : Type 0 where
  dploydb : DployDbError → Raised
  -- `ProductionStartError`, with its `cleanup_proven`
  production_start_error : String → Option Bool → Raised
  production_cleanup_error : String → Raised
  production_inspection_error : String → Raised
  -- any other `ProductionRunnerError`, with the outcome of its `command` where it has one
  production_runner_error : String → Option CommandOutcome → Raised
  -- `ReadinessCheckError`, with `evidence.reason`
  readiness_check_error : String → Raised
  -- `SmokeCheckError`, with its `cleanup_proven`
  smoke_check_error : String → Bool → Raised
  -- any other `Exception` (`ValueError`, pydantic's `ValidationError`, `OSError`, …)
  other_exception : String → Raised
  -- a `BaseException` that is no `Exception` (`KeyboardInterrupt`, `SystemExit`)
  base_exception : String → Raised

pub data Outcome (A : Type 0) : Type 0 where
  returned : A → Outcome A
  raised : Raised → Outcome A

-- A guard that raises, in front of a call that returned, did not hold.
pub guard-returned :
    {A : Type 0} (b : Bool) (e : Raised) (x : Outcome A) {a : A}
    → (if b then raised e else x) ≡ returned a
    → (b ≡ false) × (x ≡ returned a)
guard-returned true e x h = cc
guard-returned false e x h = (refl, h)
