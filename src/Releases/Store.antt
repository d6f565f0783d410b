-- ===== src/Releases/Store.antt =====
-- dploydb/releases.py: `ReleaseStore`, over the files of the world. Layout, permissions, symbolic
-- links and leftover temporary files are what `Environment.read` and `Environment.disk` may fail
-- for. A redaction changes the free texts alone.
pub mod Reads
pub mod Quiet
pub mod Effects
pub mod Selected
pub mod Atomic
use dploy_db.Base.{
  map, ℕ, String, Bool, true, false, not, Option, none, some, List, [], ◌∷◌, ◌==◌, if◌then◌else◌,
  lookup, insert,
}
use dploy_db.Errors.{Secrets, new_error, state_corruption_error}
use dploy_db.Models.State.{DeploymentState, created, active, state_is, FailureRecord}
use dploy_db.Models.Manifest.{
  ProductionApplicationHandle, ReleaseManifest, ReleasePointers, lifecycle_checks, pointer_checks,
  first_violation,
}
use dploy_db.Raised.{Raised, dploydb, other_exception, Outcome, returned, raised}
use dploy_db.World.{World, Environment, Call, silent}
use dploy_db.Exec.{Exec, pure, raise, lift, gets, ask, save, raise_if, ◌>>=◌, ◌>>◌}
use dploy_db.Releases.{
  Changes, validated, transition_manifest, intent_manifest, resolve_manifest, next_pointers,
  ReleaseHistory, started_later, selects_known,
}
use dploy_db.Sorting.{sort_by}

unfoldable pub redact_failure : Secrets → Option FailureRecord → Option FailureRecord
redact_failure s none = none
redact_failure s (some f) = some (record f {
  what_failed = s.redact_text f.what_failed;
  next_safe_action = s.redact_text f.next_safe_action;
})

-- `self.secrets.redact(…)` in `_atomic_write`
unfoldable pub redact_manifest : Secrets → ReleaseManifest → ReleaseManifest
unfolding redact_failure
redact_manifest s m = record m {
  project = s.redact_text m.project;
  operation_log_path = s.redact_text m.operation_log_path;
  failure = redact_failure s m.failure;
  recovery_failure = redact_failure s m.recovery_failure;
}

module _ (env : Environment) where
  -- `_corruption_error`
  unfoldable pub corruption : String → Raised
  corruption detail = dploydb (
      new_error state_corruption_error (env.secrets.redact_text detail) true none (some "releases")
        "Do not guess the active release; preserve state and inspect the release manifest and operation log.")

  unfoldable pub read_answer : Option Raised → Outcome (Unit {0})
  read_answer none = returned tt
  read_answer (some e) = raised e

  -- A file can be read, or the reading raises.
  unfoldable pub read_file : Exec (Unit {0})
  read_file = ask (λ j. read_answer (env.read j)) (λ _. silent)

  unfoldable pub now : Exec ℕ
  now = ask (λ j. returned (env.clock j)) (λ _. silent)

  -- `new_release_id()`
  unfoldable pub fresh_id : Exec ℕ
  fresh_id = ask (λ j. returned (env.fresh j)) (λ _. silent)

  -- What `read_manifest` makes of the file's content.
  unfoldable pub parsed_manifest : ℕ → Option ReleaseManifest → Outcome ReleaseManifest
  parsed_manifest id none = raised (corruption "release file is invalid or unreadable")
  parsed_manifest id (some m) = elim (first_violation (lifecycle_checks m)) [
    | some _ ↦ raised (corruption "release manifest is invalid")
    | none ↦
        if m.release_id == id
        then returned m
        else raised (corruption "release manifest ID does not match its path")
  ]

  -- `read_manifest`
  unfoldable pub read_manifest : ℕ → Exec ReleaseManifest
  read_manifest id = do
    read_file
    files ← gets (λ w. w.releases)
    lift (parsed_manifest id (lookup id files))

  -- `_atomic_write` of a manifest: it is redacted and validated again before the file is replaced.
  unfoldable pub write_manifest : ReleaseManifest → Exec (Unit {0})
  write_manifest m = do
    persisted ← lift (validated (redact_manifest env.secrets m))
    save env.disk (λ w. record w { releases = insert persisted.release_id persisted w.releases })

  -- `transition`
  unfoldable pub transition : ℕ → DeploymentState → Changes → Exec ReleaseManifest
  transition id s c = do
    current ← read_manifest id
    t ← now
    m ← lift (transition_manifest current t s c)
    write_manifest m
    read_manifest id

  -- `record_recovery_intent`
  unfoldable pub record_recovery_intent : ℕ → Bool → Bool → Exec ReleaseManifest
  record_recovery_intent id migration activation = do
    current ← read_manifest id
    t ← now
    m ← lift (intent_manifest current t migration activation)
    write_manifest m
    read_manifest id

  -- `resolve_recovery`
  unfoldable pub resolve_recovery : ℕ → DeploymentState → ℕ → Bool → Exec ReleaseManifest
  resolve_recovery id s recovery activated = do
    current ← read_manifest id
    t ← now
    m ← lift (resolve_manifest current t s recovery activated)
    write_manifest m
    read_manifest id

  unfoldable pub read_previous : Option ℕ → Exec (Unit {0})
  read_previous none = pure tt
  read_previous (some id) = do read_manifest id; pure tt

  unfoldable pub check_pointers : Option ReleasePointers → Exec (Option ReleasePointers)
  check_pointers none = pure none
  check_pointers (some p) = do
    read_file
    selected ← read_manifest p.active_release_id
    raise_if (not (state_is selected.status active))
        (corruption "release pointer does not select an active manifest")
    read_previous p.previous_release_id
    pure (some p)

  -- `read_pointers`
  unfoldable pub read_pointers : Exec (Option ReleasePointers)
  read_pointers = do p ← gets (λ w. w.pointers); check_pointers p

  -- The reads of `read_history`; the entries of the directory are the keys of the files.
  unfoldable pub read_releases : List ℕ → Exec (List ReleaseManifest)
  read_releases [] = pure []
  read_releases (id ∷ ids) = do m ← read_manifest id; rest ← read_releases ids; pure (m ∷ rest)

  -- `read_history`
  unfoldable pub read_history : Exec ReleaseHistory
  read_history = do
    files ← gets (λ w. w.releases)
    manifests ← read_releases (map (λ f. f.0) files)
    pointers ← read_pointers
    raise_if (not (selects_known pointers manifests))
        (corruption "release pointers select a manifest missing from history")
    pure (record { pointers = pointers; releases = sort_by started_later manifests })

  unfoldable pub read_active : Option ReleasePointers → Exec (Option ReleaseManifest)
  read_active none = pure none
  read_active (some p) = do m ← read_manifest p.active_release_id; pure (some m)

  -- `active_release`
  unfoldable pub active_release : Exec (Option ReleaseManifest)
  active_release = do p ← read_pointers; read_active p

  unfoldable pub valid_pointers : ReleasePointers → Outcome ReleasePointers
  valid_pointers p = elim (first_violation (pointer_checks p)) [
    | none ↦ returned p
    | some message ↦ raised (other_exception message)
  ]

  unfoldable pub reread_pointers : Option ReleasePointers → Exec ReleasePointers
  reread_pointers none = raise (other_exception "AssertionError")
  reread_pointers (some p) = pure p

  unfoldable pub select : ℕ → Option ReleasePointers → Exec ReleasePointers
  select id current = do
    t ← now
    p ← lift (valid_pointers (next_pointers current t id))
    save env.disk (λ w. record w { pointers = some p })
    again ← read_pointers
    reread_pointers again

  unfoldable pub keep_or_select : ℕ → Option ReleasePointers → Exec ReleasePointers
  keep_or_select id none = select id none
  keep_or_select id (some p) = if p.active_release_id == id then pure p else select id (some p)

  -- `activate_release`
  unfoldable pub activate_release : ℕ → Exec ReleasePointers
  activate_release id = do
    selected ← read_manifest id
    raise_if (not (state_is selected.status active))
        (other_exception "only an active release manifest can become current")
    current ← read_pointers
    keep_or_select id current

  unfoldable pub pointed : Option ReleasePointers → Option ℕ
  pointed none = none
  pointed (some p) = some p.active_release_id

  -- `create_release`
  unfoldable pub create_release :
      ℕ → String → Option ProductionApplicationHandle → Exec ReleaseManifest
  create_release operation log previous = do
    selected ← read_pointers
    id ← fresh_id
    t ← now
    m ← lift (
        validated (record {
          recovery_protocol_version = some 2;
          release_id = id;
          operation_id = operation;
          project = env.secrets.redact_text env.config.project;
          requested_version = env.config.version;
          status = created;
          configuration_fingerprint = env.config.fingerprint;
          operation_log_path = log;
          previous_release_id = pointed selected;
          previous_application = previous;
          new_application = none;
          rehearsal_backup_id = none;
          rehearsal_backup_sha256 = none;
          final_backup_id = none;
          final_backup_sha256 = none;
          production_health_passed = false;
          production_changed = false;
          production_migration_started = false;
          traffic_activation_attempted = false;
          traffic_activated = false;
          traffic_hooks = [];
          health_checks = [];
          started_at = t;
          updated_at = t;
          completed_at = none;
          failure = none;
          recovery_operation_id = none;
          recovered_at = none;
          recovery_failure = none;
        }))
    write_manifest m
    read_manifest id
