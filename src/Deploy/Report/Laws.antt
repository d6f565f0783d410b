-- ===== src/Deploy/Report/Laws.antt =====
-- What the failures that a deployment reports (dploydb/deploy.py) say about production.
use dploy_db.Base.{◌≡◌, Bool, true, false, Option, some, arith}
use dploy_db.Errors.{DployDbError, new_error}
use dploy_db.Raised.{Raised, dploydb}
use dploy_db.World.{Context}
use dploy_db.Deploy.Report.{normalize}

-- The exception is an expected failure already.
abbrev is_expected : Raised → Bool
is_expected (dploydb _) = true
is_expected _ = false

-- `previous_application_running` is not `True`.
abbrev pub not_running : Option Bool → Bool
not_running (some true) = false
not_running _ = true

-- Once production may have changed, every failure that is reported says that it has changed.
pub normalize-production_changed :
    (c : Context) (raw : Raised) (e : DployDbError)
    → c.production_may_have_changed ≡ true
    → normalize c raw ≡ some e
    → e.payload.production_changed ≡ true
unfolding normalize new_error
normalize-production_changed c raw e h n = ground arith

-- An unexpected exception is never reported as one that left the previous application running.
pub normalize-never_running :
    (c : Context) (raw : Raised) (e : DployDbError)
    → normalize c raw ≡ some e
    → is_expected raw ≡ false
    → not_running e.payload.previous_application_running ≡ true
unfolding normalize new_error
normalize-never_running c raw e n u = ground arith
