-- ===== src/Errors/Laws.antt =====
-- What the payload of an expected failure (dploydb/errors.py) says of its class, and what
-- redaction leaves alone.
use dploy_db.Base.{◌≤◌, String, ◌≡◌, ◌↔◌, Bool, true, Option, arith}
use dploy_db.Errors.{
  Secrets, ErrorKind, ErrorClass, error_exit_code, exit_value, new_error, redact_error,
}

-- A failure payload asks for recovery exactly when its exit code is 60, whatever the class and the
-- arguments; every failure exit code is at least 10, so none is taken for success or for usage.
pub recovery_exit_code :
    (c : ErrorClass) (what : String) (changed : Bool) (running : Option Bool) (log : Option String)
    (next : String)
    → let p = (new_error c what changed running log next).payload in
      ((p.recovery_required ≡ true) ↔ (p.exit_code ≡ 60)) × (10 ≤ p.exit_code)
unfolding new_error
recovery_exit_code ErrorClass.dploydb_error what changed running log next = ground arith
recovery_exit_code _ what changed running log next = ground arith

-- Two kinds of failure with one exit code are the same kind: a script can tell the kind from the
-- exit status.
pub exit_value-injective :
    (j k : ErrorKind) → exit_value (error_exit_code j) ≡ exit_value (error_exit_code k) → j ≡ k
unfolding exit_value error_exit_code
exit_value-injective j k h = ground arith

-- Redaction keeps the class of an error and every safety fact that it reports (exit code, error
-- code, whether production changed, whether the previous application runs, whether recovery is
-- required), for every error that was built by its class.
pub redact_error_keeps_facts :
    (s : Secrets) (c : ErrorClass) (what : String) (changed : Bool) (running : Option Bool)
    (log : Option String) (next : String)
    → let e = new_error c what changed running log next in
      let r = redact_error s e in
      (r.error_class ≡ c)
      × (r.payload.exit_code ≡ e.payload.exit_code)
      × (r.payload.error_code ≡ e.payload.error_code)
      × (r.payload.production_changed ≡ changed)
      × (r.payload.previous_application_running ≡ running)
      × (r.payload.recovery_required ≡ e.payload.recovery_required)
      × (r.payload.what_failed ≡ s.redact_text what)
      × (r.payload.next_safe_action ≡ s.redact_text next)
unfolding redact_error new_error
redact_error_keeps_facts s c what changed running log next = ground arith
