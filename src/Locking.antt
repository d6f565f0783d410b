-- ===== src/Locking.antt =====
-- dploydb/locking.py: `DeploymentLock` and `inspect_lock`. The kernel lock is the identity of its
-- holder, shared by all instances, and the owner file is shared too; what the file system answers
-- to a call is a `LockOutside`. Layout, permissions, links and sizes are reasons for a call to
-- fail. Closing the descriptor, or the end of the process, gives the kernel lock back.
pub mod Exclusion
use text.Mathlib.Text.{◌==◌ as str_eq}
use dploy_db.Base.{
  ℕ, String, Bool, true, false, not, ◌&&◌, ◌||◌, Option, none, some, ltb, ◌==◌, if◌then◌else◌,
  is_some, option_eq,
}
use dploy_db.Errors.{
  DployDbError, new_error, lock_unavailable_error, recovery_required_error, safety_check_error,
}
use dploy_db.Models.Lock.{
  ProcessIdentity, LockOwnerState, LockOwnerMetadata, is_active, owner_active, LockInspectionState,
  LockInspection, idle, stale_owner,
}
use dploy_db.Raised.{Raised, dploydb, other_exception, Outcome, returned, raised}
use dploy_db.World.{DiskOutcome, written, not_written, not_synced}

-- The owner file: `unreadable` is one that is a link, truncated, invalid or not private.
pub data OwnerFile : Type 0 where
  missing unreadable : OwnerFile
  stored : LockOwnerMetadata → OwnerFile

-- What all instances share: the owner file, and which instance holds the kernel lock.
pub record Shared : Type 0 where
  pub owner_file : OwnerFile
  pub holder : Option ℕ

-- The fields of a `DeploymentLock`; the descriptor is kept as whether it is there.
pub record LockInstance : Type 0 where
  pub has_descriptor : Bool
  pub acquired_at : Option ℕ
  pub owner : Option LockOwnerMetadata
  pub previous_owner : Option LockOwnerMetadata

-- What the outside answers during one call.
pub record LockOutside : Type 0 where
  pub process : ProcessIdentity
  pub now : ℕ
  pub fresh : ℕ
  -- why the lock file could not be opened or locked, other than contention
  pub open_failure : Option String
  pub write : DiskOutcome
  pub unlock_failed : Bool

unfoldable pub safety_error : String → Raised
safety_error detail = dploydb (
    new_error safety_check_error detail false none (some "lock")
      "Correct the lock path safety problem before retrying.")

unfoldable pub recovery_error : String → Raised
recovery_error detail = dploydb (
    new_error recovery_required_error detail true none (some "lock-owner")
      "Preserve the lock metadata and inspect the recorded operation before retrying.")

unfoldable pub contention_error : Raised
contention_error = dploydb (
    new_error lock_unavailable_error "Another DployDB operation holds the deployment lock." false
      none (some "lock-owner")
      "Wait for the active operation to finish. If it does not, preserve the owner metadata and inspect operation state; do not delete the lock file.")

-- `_read_owner_metadata`
unfoldable pub read_owner : OwnerFile → Outcome (Option LockOwnerMetadata)
unfolding recovery_error
read_owner missing = returned none
read_owner unreadable =
    raised (recovery_error "deployment lock owner metadata is invalid or unreadable")
read_owner (stored o) = returned (some o)

unfoldable pub same_owner : LockOwnerMetadata → LockOwnerMetadata → Bool
unfolding is_active
same_owner a b =
    a.owner_id == b.owner_id
    && a.operation_id == b.operation_id
    && str_eq a.operation_type b.operation_type
    && a.process.pid == b.process.pid
    && str_eq a.process.hostname b.process.hostname
    && not (is_active a.state && not (is_active b.state))
    && not (is_active b.state && not (is_active a.state))
    && a.acquired_at == b.acquired_at
    && option_eq a.released_at b.released_at

-- `current == self.previous_owner`
unfoldable pub same_record : Option LockOwnerMetadata → Option LockOwnerMetadata → Bool
unfolding same_owner
same_record none none = true
same_record (some a) (some b) = same_owner a b
same_record _ _ = false

-- A call: its result, and the shared state and the instance after it.
abbrev pub Done : Type 0
Done = Outcome (Unit {0}) × Shared × LockInstance

unfoldable pub held_instance : ℕ → Option LockOwnerMetadata → LockInstance
held_instance now previous = record {
  has_descriptor = true;
  acquired_at = some now;
  owner = none;
  previous_owner = previous;
}

-- `acquire` with the kernel lock in hand: an unreadable owner file gives it back.
unfoldable pub locked :
    ℕ → LockOutside → Shared → LockInstance → Outcome (Option LockOwnerMetadata) → Done
unfolding held_instance
locked me o s l (raised e) = (raised e, s, l)
locked me o s l (returned previous) =
    (returned tt, record s { holder = some me }, held_instance o.now previous)

unfoldable pub opened : ℕ → LockOutside → Shared → LockInstance → Option String → Done
unfolding locked read_owner
opened me o s l (some detail) = (raised (safety_error detail), s, l)
opened me o s l none =
    if is_some s.holder
    then (raised contention_error, s, l)
    else locked me o s l (read_owner s.owner_file)

-- `acquire`
unfoldable pub acquire : ℕ → LockOutside → Shared → LockInstance → Done
unfolding opened
acquire me o s l =
    if l.has_descriptor
    then (raised (other_exception "deployment lock instance is already acquired"), s, l)
    else opened me o s l o.open_failure

-- `_atomic_write_owner`
unfoldable pub write_owner : DiskOutcome → LockOwnerMetadata → Shared → Outcome (Unit {0}) × Shared
write_owner written owner s = (returned tt, record s { owner_file = stored owner })
write_owner (not_written e) owner s = (raised e, s)
write_owner (not_synced e) owner s = (raised e, record s { owner_file = stored owner })

unfoldable pub remember : LockInstance → LockOwnerMetadata → Outcome (Unit {0}) × Shared → Done
remember l owner (returned _, s) = (returned tt, s, record l { owner = some owner })
remember l owner (raised e, s) = (raised e, s, l)

-- The new owner record.
unfoldable pub new_owner : LockOutside → ℕ → String → ℕ → LockOwnerMetadata
new_owner o operation operation_type acquired = record {
  owner_id = o.fresh;
  operation_id = operation;
  operation_type = operation_type;
  process = o.process;
  state = LockOwnerState.active;
  acquired_at = acquired;
  released_at = none;
}

-- The refusals of `record_owner` for the current owner record; `none` lets it be replaced.
unfoldable pub refused : Option LockOwnerMetadata → Option ℕ → Option Raised
unfolding is_active
refused none stale =
    if is_some stale
    then some (other_exception "replace_stale_owner_id was supplied without stale owner metadata")
    else none
refused (some current) stale =
    if is_active current.state
    then (if option_eq stale (some current.owner_id)
        then none
        else some (
            recovery_error
              "stale lock-owner evidence requires explicit owner-token acknowledgement"))
    else if is_some stale
    then some (other_exception "replace_stale_owner_id was supplied without stale owner metadata")
    else none

unfoldable pub record_new :
    LockOutside → ℕ → String → ℕ → Shared → LockInstance → Option Raised → Done
unfolding remember write_owner
record_new o operation operation_type acquired s l (some e) = (raised e, s, l)
record_new o operation operation_type acquired s l none =
    remember l (new_owner o operation operation_type acquired)
      (write_owner o.write (new_owner o operation operation_type acquired) s)

-- `record_owner` with the current owner record.
unfoldable pub replace :
    LockOutside
    → ℕ
    → String
    → Option ℕ
    → ℕ
    → Shared
    → LockInstance
    → Outcome (Option LockOwnerMetadata)
    → Done
unfolding record_new
replace o operation operation_type stale acquired s l (raised e) = (raised e, s, l)
replace o operation operation_type stale acquired s l (returned current) =
    if not (same_record current l.previous_owner)
    then (
      raised
          (recovery_error "deployment lock owner metadata changed while the kernel lock was held"),
      s,
      l,
    )
    else record_new o operation operation_type acquired s l (refused current stale)

-- `record_owner` from the time at which the lock was acquired.
unfoldable pub record_acquired :
    LockOutside → ℕ → String → Option ℕ → Shared → LockInstance → Option ℕ → Done
unfolding replace
record_acquired o operation operation_type stale s l none =
    (raised (other_exception "the kernel lock must be held before recording an owner"), s, l)
record_acquired o operation operation_type stale s l (some acquired) =
    if not l.has_descriptor
    then (raised (other_exception "the kernel lock must be held before recording an owner"), s, l)
    else if is_some l.owner
    then (raised (other_exception "this lock instance already recorded its owner"), s, l)
    else replace o operation operation_type stale acquired s l (read_owner s.owner_file)

-- `record_owner`
unfoldable pub record_owner : LockOutside → ℕ → String → Option ℕ → Shared → LockInstance → Done
unfolding record_acquired
record_owner o operation operation_type stale s l =
    record_acquired o operation operation_type stale s l l.acquired_at

unfoldable pub released_owner : LockOwnerMetadata → ℕ → LockOwnerMetadata
released_owner current now = record current {
  state = LockOwnerState.released;
  released_at = some now;
}

-- The record that was written, for the instance to keep.
unfoldable pub written_owner :
    LockOwnerMetadata → Outcome (Unit {0}) × Shared → Outcome (Option LockOwnerMetadata) × Shared
written_owner owner (returned _, s) = (returned (some owner), s)
written_owner owner (raised e, s) = (raised e, s)

-- The owner record at the release, where this instance wrote one.
unfoldable pub finalize :
    LockOutside
    → LockOwnerMetadata
    → Shared
    → Outcome (Option LockOwnerMetadata)
    → Outcome (Option LockOwnerMetadata) × Shared
unfolding write_owner written_owner released_owner is_active
finalize o mine s (raised e) = (raised e, s)
finalize o mine s (returned none) =
    (raised (recovery_error "deployment lock owner metadata no longer matches its holder"), s)
finalize o mine s (returned (some current)) =
    if not (current.owner_id == mine.owner_id)
    then (raised (recovery_error "deployment lock owner metadata no longer matches its holder"), s)
    else if not (is_active current.state)
    then (raised (recovery_error "deployment lock owner was not active during release"), s)
    else if ltb o.now current.acquired_at
    then (raised (other_exception "lock clock moved backwards"), s)
    else written_owner (released_owner current o.now)
        (write_owner o.write (released_owner current o.now) s)

unfoldable pub finalize_own :
    LockOutside → Option LockOwnerMetadata → Shared → Outcome (Option LockOwnerMetadata) × Shared
unfolding finalize
finalize_own o none s = (returned none, s)
finalize_own o (some mine) s = finalize o mine s (read_owner s.owner_file)

-- `_unlock_and_close`, and the error that is raised after it.
unfoldable pub unlock :
    LockOutside → LockInstance → Outcome (Option LockOwnerMetadata) × Shared → Done
unlock o l (raised e, s) =
    (raised e, record s { holder = none }, record l { has_descriptor = false; acquired_at = none })
unlock o l (returned owner, s) = (
  if o.unlock_failed
      then raised (recovery_error "deployment lock could not be explicitly unlocked")
      else returned tt,
  record s { holder = none },
  record l { has_descriptor = false; acquired_at = none; owner = owner },
)

-- `release`
unfoldable pub release : LockOutside → Shared → LockInstance → Done
unfolding unlock finalize_own
release o s l =
    if not l.has_descriptor then (returned tt, s, l) else unlock o l (finalize_own o l.owner s)

-- `_classify_available_lock`
unfoldable pub classify : Outcome (Option LockOwnerMetadata) → LockInspection
unfolding owner_active
classify (raised e) = record {
  state = LockInspectionState.recovery_required;
  lock_held = false;
  owner = none;
  metadata_error = some "deployment lock owner metadata is invalid or unreadable";
}
classify (returned owner) = record {
  state = if owner_active owner then stale_owner else idle;
  lock_held = false;
  owner = owner;
  metadata_error = none;
}

unfoldable pub contended : Outcome (Option LockOwnerMetadata) → LockInspection
contended (raised e) = record {
  state = LockInspectionState.active;
  lock_held = true;
  owner = none;
  metadata_error = some "deployment lock owner metadata is invalid or unreadable";
}
contended (returned owner) = record {
  state = LockInspectionState.active;
  lock_held = true;
  owner = owner;
  metadata_error = none;
}

-- `inspect_lock`, where the lock file can be probed: it writes nothing.
unfoldable pub inspect_lock : Shared → LockInspection
unfolding classify contended read_owner
inspect_lock s =
    if is_some s.holder
    then contended (read_owner s.owner_file)
    else classify (read_owner s.owner_file)
