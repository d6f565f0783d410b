-- ===== src/Operations/Log.antt =====
-- `transition` and `append_event` of `StateStore` (dploydb/state.py): where they return, the event log
-- has one more record and agrees with the manifest again.
use dploy_db.Base.{
  ℕ, ◌+◌, ◌<◌, ◌≡◌, refl, false, Option, none, some, List, [], ◌∷◌, ◌++◌, length, lookup, arith,
  String,
}
use text.Mathlib.TextPositions.{eq_refl}
use dploy_db.Models.State.{OperationStatus, is_terminal_operation, SafetyFacts, FailureRecord}
use dploy_db.Models.Manifest.{first_violation}
use dploy_db.Models.Operation.{Evidence, OperationManifest, OperationEvent, operation_checks}
use dploy_db.Raised.{returned}
use dploy_db.World.{World, Environment, OperationFile}
use dploy_db.Exec.{◌>>◌}
use dploy_db.Exec.Returns.{Anything, guard, given}
use dploy_db.Exec.Keeps.{Triple, Triple-bind, Triple-lift, Triple-pure, Triple-weaken, at_return}
use dploy_db.Operations.{
  max_event_count, file_manifest, read_manifest, file_events, append_event_record, write_manifest,
  changed, transition, append_event,
}
use dploy_db.Operations.Trail.{Consistent, Describes, Consistent-append, manifest_after, log_after}
use dploy_db.Operations.Effects.{
  validated-facts, manifest_read, events_read, read_consistent-Consistent,
  append_event_record-Appended, manifest_written, clock_read, Appended,
}

-- The operation `id` had consistent files with `before` and `events`; now they are consistent with
-- `new`, and have one more event.
pub record Logged (id : ℕ) (w : World) (new : OperationManifest) (w' : World) : Type 0 where
  pub before : OperationManifest
  pub events : List OperationEvent
  pub event : OperationEvent
  pub was : Consistent id w.operations before events
  pub was_open : is_terminal_operation before.status ≡ false
  pub now_files : Consistent id w'.operations new (events ++ event ∷ [])

module _ (env : Environment) (id : ℕ) (files : List (ℕ × OperationFile)) where
  -- The two writes of an append, and the read of the manifest after them.
  pub written_and_read :
      (known : List OperationEvent) (e : OperationEvent) (m' : OperationManifest)
      (safety : SafetyFacts)
      → Triple
          (λ w. w.operations ≡ files)
          (do
            append_event_record env id known e
            write_manifest env id m' safety
            read_manifest env id)
          (λ new w.
            (new ≡ m')
            × (length known < max_event_count)
            × (file_manifest (lookup id w.operations) ≡ some m')
            × (file_events (lookup id w.operations) ≡ file_events (lookup id files) ++ e ∷ []))
          Anything
  written_and_read known e m' safety =
      Triple-bind _ _ _ (append_event_record-Appended env id files known e) λ _. given λ room.
        Triple-bind _ _ _ (manifest_written env id _ m' safety) λ _.
          Triple-weaken _ _ Anything (λ w h. h)
            (λ new w (same, (found, _, _)). (
              ground (arith, manifest_after id m' e files),
              room,
              rw same (manifest_after id m' e files),
              rw same (log_after id m' e files),
            ))
            (λ w h. h) (manifest_read env id _)

  -- The event of a transition.
  abbrev transition_event :
      OperationManifest → ℕ → OperationStatus → String → String → Evidence → OperationEvent
  transition_event m' t s stage message evidence = record {
    sequence = m'.last_event_sequence;
    timestamp = t;
    operation_id = id;
    status = s;
    stage = stage;
    message = env.secrets.redact_text message;
    evidence = evidence;
  }

  changed-Describes :
      (m m' : OperationManifest) (t : ℕ) (s : OperationStatus) (stage message : String)
      (evidence : Evidence) (safety : Option SafetyFacts) (failure : Option FailureRecord)
      → m' ≡ changed env m t s stage safety failure
      → Describes (transition_event m' t s stage message evidence) m' id
  unfolding changed
  changed-Describes m m' t s stage message evidence safety failure e = record {
    sequence = refl;
    timestamp = rw e;
    named = refl;
    status = rw e;
    stage = rw e (eq_refl stage);
  }

  pub transition_effect :
      (s : OperationStatus) (stage message : String) (evidence : Evidence)
      (safety : Option SafetyFacts) (failure : Option FailureRecord) (w0 : World)
      → w0.operations ≡ files
      → Triple
          (λ w. w.operations ≡ files)
          (transition env id s stage message evidence safety failure)
          (λ new w. Logged id w0 new w × (new.status ≡ s))
          Anything
  unfolding transition changed
  transition_effect s stage message evidence safety failure w0 start =
      Triple-bind _ _ _ (read_consistent-Consistent env id files) λ (current, events). given λ c.
        Triple-bind _ _ _ (guard _ _) λ _. given λ still. Triple-bind _ _ _ (guard _ _) λ _.
          given λ _. Triple-bind _ _ _ (clock_read env id files current.updated_at) λ t.
            given λ late.
              Triple-bind
                (λ m' w.
                  (w.operations ≡ files)
                  × ((m' ≡ changed env current t s stage safety failure)
                      × (first_violation (operation_checks m') ≡ none)))
                _ _
                (Triple-lift _
                  (λ w m' h e. let (is, ok) = validated-facts _ m' e in (h, (is, rw is ok)))
                  (λ w e h _. tt))
                λ m'. given λ (is, ok).
                  Triple-weaken _ _ Anything (λ w h. h)
                    (λ new w (same, room, found, log). (
                      record {
                        before = current;
                        events = events;
                        event = transition_event m' t s stage message evidence;
                        was = rw start c;
                        was_open = still;
                        now_files = rw same (
                            Consistent-append id files w.operations current m' events _ c
                              (changed-Describes current m' t s stage message evidence safety
                                failure is)
                              (rw is) (rw is c.named) ok late room found (rw c.log at log));
                      },
                      rw (same, is),
                    ))
                    (λ w h. h)
                    (written_and_read events (transition_event m' t s stage message evidence) m'
                      current.safety)

  -- The event of `append_event` repeats the state of the manifest.
  abbrev plain_event : OperationManifest → ℕ → String → Evidence → OperationEvent
  plain_event m t message evidence = record {
    sequence = m.last_event_sequence + 1;
    timestamp = t;
    operation_id = id;
    status = m.status;
    stage = m.stage;
    message = env.secrets.redact_text message;
    evidence = evidence;
  }

  pub append_event_effect :
      (message : String) (evidence : Evidence) (w0 : World)
      → w0.operations ≡ files
      → Triple
          (λ w. w.operations ≡ files)
          (append_event env id message evidence)
          (λ _ w. (new : OperationManifest) × Logged id w0 new w)
          Anything
  unfolding append_event
  append_event_effect message evidence w0 start =
      Triple-bind _ _ _ (read_consistent-Consistent env id files) λ (current, events). given λ c.
        Triple-bind _ _ _ (guard _ _) λ _. given λ still.
          Triple-bind _ _ _ (clock_read env id files current.updated_at) λ t. given λ late.
            Triple-bind _ _ _
              (append_event_record-Appended env id files events
                (plain_event current t message evidence))
              λ _. given λ room.
                Triple-bind
                  (λ m' w.
                    Appended env id files (plain_event current t message evidence) w
                    × ((m' ≡ record current {
                      updated_at = t;
                      last_event_sequence = current.last_event_sequence + 1;
                    })
                        × (first_violation (operation_checks m') ≡ none)))
                  _ _
                  (Triple-lift _
                    (λ w m' h e. let (is, ok) = validated-facts _ m' e in (h, (is, rw is ok)))
                    (λ w e h _. tt))
                  λ m'. given λ (is, ok).
                    Triple-bind _ _ _ (manifest_written env id _ m' current.safety) λ _.
                      Triple-bind _ _ _ (events_read env id _) λ es. Triple-pure tt (λ w h. (
                        m',
                        record {
                          before = current;
                          events = events;
                          event = plain_event current t message evidence;
                          was = rw start c;
                          was_open = still;
                          now_files =
                              Consistent-append id files w.operations current m' events _ c
                                (record {
                                  sequence = rw is;
                                  timestamp = rw is;
                                  named = refl;
                                  status = rw is;
                                  stage = rw is (eq_refl current.stage);
                                })
                                (rw is) (rw is c.named) ok late room
                                (rw h.0 (
                                  manifest_after id m' (plain_event current t message evidence)
                                    files))
                                (rw h.0 (
                                  rw c.log at (
                                    log_after id m' (plain_event current t message evidence)
                                      files)));
                        },
                      ))

-- An operation transition that returns had consistent files of an operation that was not terminal;
-- afterwards the files are consistent again, the log has one more event, and the manifest that is
-- returned is the stored one and has the asked status.
pub transition-Logged :
    (env : Environment) (id : ℕ) (s : OperationStatus) (stage message : String)
    (evidence : Evidence) (safety : Option SafetyFacts) (failure : Option FailureRecord) (w : World)
    (new : OperationManifest) (w' : World)
    → transition env id s stage message evidence safety failure w ≡ (returned new, w')
    → Logged id w new w' × (new.status ≡ s)
transition-Logged env id s stage message evidence safety failure w new w' e =
    at_return (transition_effect env id w.operations s stage message evidence safety failure w refl)
      w refl new w' e

-- An appended event that returns had consistent files of an operation that was not terminal, and
-- leaves them consistent with one more event.
pub append_event-Logged :
    (env : Environment) (id : ℕ) (message : String) (evidence : Evidence) (w : World) (w' : World)
    → append_event env id message evidence w ≡ (returned tt, w')
    → (new : OperationManifest) × Logged id w new w'
append_event-Logged env id message evidence w w' e =
    at_return (append_event_effect env id w.operations message evidence w refl) w refl tt w' e
