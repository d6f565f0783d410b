-- ===== src/Operations/Trail.antt =====
-- The event log and the manifest of an operation (dploydb/state.py) agree, and an append keeps them
-- in agreement.
use dploy_db.Base.{
  ℕ, suc, ◌+◌, ◌≤◌, ◌<◌, ◌≡◌, ◌∙◌, true, false, Option, none, some, List, [], ◌∷◌, ◌++◌, length,
  last?, lookup, insert, length-append, last?-append, lookup-insert_self, arith, Option-cases, inl,
  inr,
}
use text.Mathlib.Text.{◌==◌ as str_eq}
use dploy_db.Models.State.{status_index}
use dploy_db.Models.Manifest.{first_violation}
use dploy_db.Models.Operation.{OperationManifest, OperationEvent, operation_checks}
use dploy_db.World.{OperationFile}
use dploy_db.Operations.{
  max_event_count, earlier, trail_ok, agrees, file_manifest, file_events, append_to, replace_in,
}

-- What `_read_consistent` tests: the two files of the operation `id` hold `m` and `events`, each
-- is valid, and the last event has the state of the manifest.
pub record Consistent (id : ℕ) (files : List (ℕ × OperationFile)) (m : OperationManifest)
    (events : List OperationEvent) : Type 0 where
  pub manifest : file_manifest (lookup id files) ≡ some m
  pub valid : first_violation (operation_checks m) ≡ none
  pub named : m.operation_id ≡ id
  pub log : file_events (lookup id files) ≡ events
  pub in_order : trail_ok id 1 none events ≡ true
  pub agreed : agrees m events (last? events) ≡ true

-- The time of the last record, or the given one where there is none.
abbrev last_time : Option ℕ → List OperationEvent → Option ℕ
last_time before [] = before
last_time before (e ∷ es) = last_time (some e.timestamp) es

appended_ok :
    (id n : ℕ) (before : Option ℕ) (es : List OperationEvent) (e : OperationEvent)
    → trail_ok id n before es ≡ true
    → e.sequence ≡ n + length es
    → e.operation_id ≡ id
    → n + length es ≤ max_event_count
    → earlier (last_time before es) e.timestamp ≡ false
    → trail_ok id n before (es ++ e ∷ []) ≡ true
unfolding trail_ok
appended_ok id n before [] e ok sequence named room late = ground arith
appended_ok id n before (x ∷ es) e ok sequence named room late =
    ground (arith, appended_ok id (suc n) (some x.timestamp) es e)

last_time-last? :
    (es : List OperationEvent) (before : Option ℕ) (e : OperationEvent)
    → last? es ≡ some e
    → last_time before es ≡ some e.timestamp
last_time-last? [] before e h = ground arith
last_time-last? (x ∷ []) before e h = ground arith
last_time-last? (x ∷ y ∷ es) before e h = last_time-last? (y ∷ es) (some x.timestamp) e h

-- The state of the new manifest that its event repeats.
pub record Describes (e : OperationEvent) (m' : OperationManifest) (id : ℕ) : Type 0 where
  pub sequence : e.sequence ≡ m'.last_event_sequence
  pub timestamp : e.timestamp ≡ m'.updated_at
  pub named : e.operation_id ≡ id
  pub status : status_index e.status ≡ status_index m'.status
  pub stage : str_eq e.stage m'.stage ≡ true

agrees-facts :
    (m : OperationManifest) (events : List OperationEvent)
    → agrees m events (last? events) ≡ true
    → (f : OperationEvent) × (last? events ≡ some f)
      × (m.last_event_sequence ≡ length events)
      × (f.timestamp ≡ m.updated_at)
unfolding agrees
agrees-facts m events h = elim (Option-cases (last? events)) [
  | inl missing ↦ ground arith
  | inr (f, there) ↦ (f, there, ground arith, ground arith)
]

agrees-append :
    (m' : OperationManifest) (id : ℕ) (events : List OperationEvent) (e : OperationEvent)
    → Describes e m' id
    → m'.last_event_sequence ≡ length events + 1
    → agrees m' (events ++ e ∷ []) (last? (events ++ e ∷ [])) ≡ true
unfolding agrees
agrees-append m' id events e d n =
    rw (last?-append events e, length-append events (e ∷ []), d.stage)
      (ground (arith, d.status, d.timestamp))

-- The log after the append is in order.
order-append :
    (id : ℕ) (m : OperationManifest) (events : List OperationEvent) (e : OperationEvent)
    → trail_ok id 1 none events ≡ true
    → agrees m events (last? events) ≡ true
    → e.sequence ≡ m.last_event_sequence + 1
    → e.operation_id ≡ id
    → length events < max_event_count
    → m.updated_at ≤ e.timestamp
    → trail_ok id 1 none (events ++ e ∷ []) ≡ true
order-append id m events e ok agreed sequence named room late =
    let (f, final, counted, stamped) = agrees-facts m events agreed in
    appended_ok id 1 none events e ok (omega arith) named (omega arith)
      (rw (last_time-last? events none f final) (ground arith))

-- One more record and the manifest that it describes: the files agree again.
pub Consistent-append :
    (id : ℕ) (files after : List (ℕ × OperationFile)) (m m' : OperationManifest)
    (events : List OperationEvent) (e : OperationEvent)
    → Consistent id files m events
    → Describes e m' id
    → m'.last_event_sequence ≡ m.last_event_sequence + 1
    → m'.operation_id ≡ id
    → first_violation (operation_checks m') ≡ none
    → m.updated_at ≤ e.timestamp
    → length events < max_event_count
    → file_manifest (lookup id after) ≡ some m'
    → file_events (lookup id after) ≡ events ++ e ∷ []
    → Consistent id after m' (events ++ e ∷ [])
Consistent-append id files after m m' events e c d grown named valid late room manifest log =
    let (_, _, counted, _) = agrees-facts m events c.agreed in
    record {
      manifest = manifest;
      valid = valid;
      named = named;
      log = log;
      in_order =
          order-append id m events e c.in_order c.agreed (d.sequence ∙ grown) d.named room late;
      agreed = agrees-append m' id events e d (omega arith);
    }

-- What the two writes of an append leave in the files.
pub manifest_after :
    (id : ℕ) (m' : OperationManifest) (e : OperationEvent) (files : List (ℕ × OperationFile))
    → file_manifest (
        lookup id (
          insert id
            (replace_in m' (lookup id (insert id (append_to e (lookup id files)) files)))
            (insert id (append_to e (lookup id files)) files)))
      ≡ some m'
unfolding file_manifest replace_in
manifest_after id m' e files = ground (
  arith,
  lookup-insert_self id
      (replace_in m' (lookup id (insert id (append_to e (lookup id files)) files)))
      (insert id (append_to e (lookup id files)) files),
)

pub log_after :
    (id : ℕ) (m' : OperationManifest) (e : OperationEvent) (files : List (ℕ × OperationFile))
    → file_events (
        lookup id (
          insert id
            (replace_in m' (lookup id (insert id (append_to e (lookup id files)) files)))
            (insert id (append_to e (lookup id files)) files)))
      ≡ file_events (lookup id files) ++ e ∷ []
unfolding file_events replace_in append_to
log_after id m' e files = rw (lookup-insert_self, lookup-insert_self) (ground arith)
