-- ===== src/Models/Lock.antt =====
-- dploydb/models.py: `LockOwnerMetadata`, the diagnostic record beside the kernel lock, and its
-- validator.
use dploy_db.Base.{
  ℕ, String, Bool, true, false, not, ◌&&◌, Option, none, some, List, [], ◌∷◌, ltb, is_none, is_some,
}
use dploy_db.Models.State.{Check}

pub data LockOwnerState : Type 0 where
  active released : LockOwnerState

pub record ProcessIdentity : Type 0 where
  pub pid : ℕ
  pub hostname : String

pub record LockOwnerMetadata : Type 0 where
  pub owner_id : ℕ
  pub operation_id : ℕ
  pub operation_type : String
  pub process : ProcessIdentity
  pub state : LockOwnerState
  pub acquired_at : ℕ
  pub released_at : Option ℕ

-- `state is LockOwnerState.ACTIVE`
unfoldable pub is_active : LockOwnerState → Bool
is_active LockOwnerState.active = true
is_active released = false

-- There is an owner record, and its state is ACTIVE.
unfoldable pub owner_active : Option LockOwnerMetadata → Bool
unfolding is_active
owner_active none = false
owner_active (some o) = is_active o.state

-- `released_at is not None and released_at < acquired_at`
released_before : Option ℕ → ℕ → Bool
released_before none acquired = false
released_before (some t) acquired = ltb t acquired

-- `validate_lock_lifecycle`
unfoldable pub owner_checks : LockOwnerMetadata → List Check
unfolding is_active released_before
owner_checks o =
    record {
      violated = is_active o.state && is_some o.released_at;
      message = "active lock owner must not have released_at";
    }
    ∷ record {
      violated = not (is_active o.state) && is_none o.released_at;
      message = "released lock owner requires released_at";
    }
    ∷ record {
      violated = released_before o.released_at o.acquired_at;
      message = "released_at must not precede acquired_at";
    }
    ∷ []

-- dploydb/locking.py: `LockInspectionState` and `LockInspection`, without the fixed paths.
pub data LockInspectionState : Type 0 where
  idle active stale_owner recovery_required : LockInspectionState

pub record LockInspection : Type 0 where
  pub state : LockInspectionState
  pub lock_held : Bool
  pub owner : Option LockOwnerMetadata
  pub metadata_error : Option String

-- `state is LockInspectionState.ACTIVE`
unfoldable pub is_held : LockInspectionState → Bool
is_held LockInspectionState.active = true
is_held _ = false

-- `state is LockInspectionState.RECOVERY_REQUIRED`
unfoldable pub needs_recovery : LockInspectionState → Bool
needs_recovery recovery_required = true
needs_recovery _ = false
