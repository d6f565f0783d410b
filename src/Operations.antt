-- ===== src/Operations.antt =====
-- dploydb/state.py: `StateStore`, the operation manifests and their append-only event logs. The
-- byte limits, permissions and links are what `Environment.read` and `Environment.disk` may fail
-- for; the limit on the number of events is kept.
pub mod Reads
pub mod Quiet
pub mod Trail
pub mod Effects
pub mod Log
use text.Mathlib.Text.{◌==◌ as str_eq}
use dploy_db.Base.{
  ℕ, suc, ◌+◌, String, Bool, true, false, not, ◌&&◌, ◌||◌, Option, none, some, List, [], ◌∷◌, ◌++◌,
  ltb, leb, ◌==◌, if◌then◌else◌, is_some, map, select, last?, length, lookup, insert,
}
use dploy_db.Errors.{
  Secrets, ErrorClass, DployDbError, new_error, state_corruption_error, operation_failed_error,
}
use dploy_db.Models.State.{
  OperationStatus, in_progress, is_terminal_operation, status_index, SafetyFacts, FailureRecord,
}
use dploy_db.Models.Manifest.{first_violation}
use dploy_db.Models.Operation.{Evidence, OperationManifest, OperationEvent, operation_checks}
use dploy_db.Raised.{Raised, dploydb, other_exception, Outcome, returned, raised}
use dploy_db.Sorting.{sort_by}
use dploy_db.World.{World, Environment, OperationFile, Call, silent}
use dploy_db.Exec.{Exec, pure, raise, lift, gets, ask, save, raise_if, try_except, ◌>>=◌, ◌>>◌}

abbrev pub max_event_count : ℕ
max_event_count = 256

-- The safety facts of a fresh operation: the defaults of `SafetyFacts`.
abbrev pub no_facts : SafetyFacts
no_facts = record {
  production_changed = false;
  previous_application_running = none;
  recovery_required = false;
}

-- `model_validate_json(updated.model_dump_json())`
unfoldable pub validated_operation : OperationManifest → Outcome OperationManifest
validated_operation m = elim (first_violation (operation_checks m)) [
  | none ↦ returned m
  | some message ↦ raised (other_exception message)
]

-- The time is earlier than that of the record before, where there is one.
abbrev pub earlier : Option ℕ → ℕ → Bool
earlier none t = false
earlier (some b) t = ltb t b

-- The tests of `read_events`, from one sequence number and one time on.
unfoldable pub trail_ok : ℕ → ℕ → Option ℕ → List OperationEvent → Bool
trail_ok id n before [] = true
trail_ok id n before (e ∷ es) =
    let rest = trail_ok id (suc n) (some e.timestamp) es in
    leb n max_event_count
    && e.sequence == n
    && e.operation_id == id
    && not (earlier before e.timestamp)
    && rest

-- The tests of `_read_consistent` on the last event.
unfoldable pub agrees : OperationManifest → List OperationEvent → Option OperationEvent → Bool
unfolding status_index
agrees m events none = false
agrees m events (some final) =
    m.last_event_sequence == length events
    && status_index final.status == status_index m.status
    && str_eq final.stage m.stage
    && final.timestamp == m.updated_at

unfoldable pub file_manifest : Option OperationFile → Option OperationManifest
file_manifest none = none
file_manifest (some f) = f.manifest

unfoldable pub file_events : Option OperationFile → List OperationEvent
file_events none = []
file_events (some f) = f.events

unfoldable pub append_to : OperationEvent → Option OperationFile → OperationFile
append_to e none = record { manifest = none; events = e ∷ [] }
append_to e (some f) = record f { events = f.events ++ e ∷ [] }

unfoldable pub replace_in : OperationManifest → Option OperationFile → OperationFile
replace_in m none = record { manifest = some m; events = [] }
replace_in m (some f) = record f { manifest = some m }

unfoldable pub is_operation_failed : ErrorClass → Bool
is_operation_failed operation_failed_error = true
is_operation_failed _ = false

unfoldable pub completed : OperationStatus → ℕ → Option ℕ
completed s t = if is_terminal_operation s then some t else none

unfoldable pub supplied : Option SafetyFacts → SafetyFacts → SafetyFacts
supplied none s = s
supplied (some s) _ = s

-- The order of `max` by `(started_at, operation_id)`.
unfoldable pub started_later : OperationManifest → OperationManifest → Bool
started_later a b =
    ltb b.started_at a.started_at
    || (a.started_at == b.started_at && ltb b.operation_id a.operation_id)

unfoldable pub later_of : OperationManifest → Option OperationManifest → OperationManifest
unfolding started_later
later_of m none = m
later_of m (some n) = if started_later n m then n else m

-- `max(operations, …)`, where there is one
unfoldable pub newest : List OperationManifest → Option OperationManifest
unfolding later_of
newest [] = none
newest (m ∷ ms) = let rest = newest ms in some (later_of m rest)

module _ (env : Environment) where
  -- `_corruption_error`, without a manifest and with one
  unfoldable pub corruption : String → Option SafetyFacts → Raised
  corruption detail none = dploydb (
      new_error state_corruption_error (env.secrets.redact_text detail) true none
        (some "operations")
        "Preserve the state files and inspect the recorded operation before any retry.")
  corruption detail (some safety) = dploydb (
      new_error state_corruption_error (env.secrets.redact_text detail) safety.production_changed
        safety.previous_application_running (some "operations")
        "Preserve the state files and inspect the recorded operation before any retry.")

  unfoldable pub read_answer : Option Raised → Outcome (Unit {0})
  read_answer none = returned tt
  read_answer (some e) = raised e

  unfoldable pub read_file : Exec (Unit {0})
  read_file = ask (λ j. read_answer (env.read j)) (λ _. silent)

  -- `self.clock()`
  unfoldable pub clock : Exec ℕ
  clock = ask (λ j. returned (env.clock j)) (λ _. silent)

  -- `new_operation_id()`
  unfoldable pub fresh_id : Exec ℕ
  fresh_id = ask (λ j. returned (env.fresh j)) (λ _. silent)

  -- `_now_not_before`: here a clock that went back raises.
  unfoldable pub now_not_before : ℕ → Exec ℕ
  now_not_before previous = do
    t ← clock
    raise_if (ltb t previous) (other_exception "state clock moved backwards")
    pure t

  -- What `read_manifest` makes of the file.
  unfoldable pub parsed_manifest : ℕ → Option OperationManifest → Outcome OperationManifest
  parsed_manifest id none = raised (corruption "state file is missing, unreadable, or unsafe" none)
  parsed_manifest id (some m) = elim (first_violation (operation_checks m)) [
    | some _ ↦ raised (corruption "operation manifest is invalid" none)
    | none ↦
        if m.operation_id == id
        then returned m
        else raised (corruption "operation manifest ID does not match its path" none)
  ]

  -- `read_manifest`
  unfoldable pub read_manifest : ℕ → Exec OperationManifest
  read_manifest id = do
    read_file
    files ← gets (λ w. w.operations)
    lift (parsed_manifest id (file_manifest (lookup id files)))

  -- `read_events`
  unfoldable pub read_events : ℕ → Exec (List OperationEvent)
  read_events id = do
    read_file
    files ← gets (λ w. w.operations)
    let events = file_events (lookup id files)
    raise_if (not (is_some (last? events)))
        (corruption "operation event log is empty or truncated" none)
    raise_if (not (trail_ok id 1 none events)) (corruption "operation event is invalid" none)
    pure events

  -- `_read_consistent`
  unfoldable pub read_consistent : ℕ → Exec (OperationManifest × List OperationEvent)
  read_consistent id = do
    m ← read_manifest id
    events ← read_events id
    raise_if (not (agrees m events (last? events)))
        (corruption "manifest and final event state disagree" (some m.safety))
    pure (m, events)

  -- `_append_event_record`: the log is read again, and then grows by one record.
  unfoldable pub append_event_record : ℕ → List OperationEvent → OperationEvent → Exec (Unit {0})
  append_event_record id known e = do
    existing ← read_events id
    raise_if (not (length existing == length known))
        (corruption "event log changed while preparing an append" none)
    raise_if (leb max_event_count (length known))
        (other_exception "operation event log cannot exceed 256 records")
    save env.disk (λ w. record w {
      operations = insert id (append_to e (lookup id w.operations)) w.operations;
    })

  -- `except OperationFailedError`: the event is durable and the manifest is not.
  unfoldable pub torn : SafetyFacts → Raised → Exec (Unit {0})
  torn safety (dploydb e) =
      if is_operation_failed e.error_class
      then raise (corruption "event was durable but its manifest was not updated" (some safety))
      else raise (dploydb e)
  torn safety e = raise e

  -- `_atomic_write_manifest`, and what its callers make of a failure
  unfoldable pub write_manifest : ℕ → OperationManifest → SafetyFacts → Exec (Unit {0})
  write_manifest id m safety =
      try_except
        (save env.disk (λ w. record w {
          operations = insert id (replace_in m (lookup id w.operations)) w.operations;
        }))
        (torn safety)

  unfoldable pub redact_failure : Option FailureRecord → Option FailureRecord
  redact_failure none = none
  redact_failure (some f) = some (record f {
    what_failed = env.secrets.redact_text f.what_failed;
    next_safe_action = env.secrets.redact_text f.next_safe_action;
  })

  -- `current.model_copy(update=…)` in `transition`
  unfoldable pub changed :
      OperationManifest
      → ℕ
      → OperationStatus
      → String
      → Option SafetyFacts
      → Option FailureRecord
      → OperationManifest
  changed m t s stage safety failure = record m {
    status = s;
    stage = stage;
    safety = supplied safety m.safety;
    updated_at = t;
    completed_at = completed s t;
    failure = redact_failure failure;
    last_event_sequence = m.last_event_sequence + 1;
  }

  -- `transition`
  unfoldable pub transition :
      ℕ
      → OperationStatus
      → String
      → String
      → Evidence
      → Option SafetyFacts
      → Option FailureRecord
      → Exec OperationManifest
  transition id s stage message evidence safety failure = do
    (current, events) ← read_consistent id
    raise_if (is_terminal_operation current.status)
        (other_exception "terminal operation cannot transition")
    raise_if (not (is_terminal_operation s) && str_eq stage current.stage)
        (other_exception "in-progress transition must change the operation stage")
    t ← now_not_before current.updated_at
    updated ← lift (validated_operation (changed current t s stage safety failure))
    append_event_record id events (record {
      sequence = updated.last_event_sequence;
      timestamp = t;
      operation_id = id;
      status = s;
      stage = stage;
      message = env.secrets.redact_text message;
      evidence = evidence;
    })
    write_manifest id updated current.safety
    read_manifest id

  -- `append_event`
  unfoldable pub append_event : ℕ → String → Evidence → Exec (Unit {0})
  append_event id message evidence = do
    (current, events) ← read_consistent id
    raise_if (is_terminal_operation current.status)
        (other_exception "terminal operations are immutable")
    t ← now_not_before current.updated_at
    append_event_record id events (record {
      sequence = current.last_event_sequence + 1;
      timestamp = t;
      operation_id = id;
      status = current.status;
      stage = current.stage;
      message = env.secrets.redact_text message;
      evidence = evidence;
    })
    updated ← lift (
        validated_operation (record current {
          updated_at = t;
          last_event_sequence = current.last_event_sequence + 1;
        }))
    write_manifest id updated current.safety
    read_events id
    pure tt

  -- `create_operation`: the first event, then the manifest.
  unfoldable pub create_operation : String → String → Evidence → Exec OperationManifest
  create_operation operation_type stage evidence = do
    id ← fresh_id
    t ← clock
    m ← lift (
        validated_operation (record {
          operation_id = id;
          operation_type = operation_type;
          project = env.config.project;
          status = in_progress;
          stage = stage;
          configuration_fingerprint = env.config.fingerprint;
          safety = no_facts;
          started_at = t;
          updated_at = t;
          completed_at = none;
          failure = none;
          last_event_sequence = 1;
        }))
    save env.disk (λ w. record w {
      operations =
          insert id
            (record {
              manifest = none;
              events =
                  record {
                    sequence = 1;
                    timestamp = t;
                    operation_id = id;
                    status = in_progress;
                    stage = stage;
                    message = "Operation started.";
                    evidence = evidence;
                  }
                  ∷ [];
            })
            w.operations;
    })
    write_manifest id m no_facts
    read_manifest id

  -- The reads of `list_operations`; the entries of the directory are the keys of the files.
  unfoldable pub read_all : List ℕ → Exec (List OperationManifest)
  read_all [] = pure []
  read_all (id ∷ ids) = do (m, _) ← read_consistent id; rest ← read_all ids; pure (m ∷ rest)

  -- `list_operations`: newest first
  unfoldable pub list_operations : Exec (List OperationManifest)
  list_operations = do
    files ← gets (λ w. w.operations)
    found ← read_all (map (λ f. f.0) files)
    pure (sort_by started_later found)

  -- `latest_operation`
  unfoldable pub latest_operation : Exec (Option OperationManifest)
  latest_operation = do
    operations ← list_operations
    raise_if (ltb 1 (length (select (λ m. not (is_terminal_operation m.status)) operations)))
        (corruption "multiple unfinished operations make the active state contradictory" none)
    pure (newest operations)
