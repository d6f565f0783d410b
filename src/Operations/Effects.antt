-- ===== src/Operations/Effects.antt =====
-- What the operations of `StateStore` (dploydb/state.py) make of the operation files where they
-- return.
use dploy_db.Base.{
  ℕ, ◌≤◌, ◌<◌, ◌≡◌, true, Option, none, some, List, ◌==◌, length, lookup, insert, arith,
  Option-cases, Bool-cases, inl, inr,
}
use dploy_db.Models.State.{SafetyFacts}
use dploy_db.Models.Manifest.{first_violation}
use dploy_db.Models.Operation.{OperationManifest, OperationEvent, operation_checks}
use dploy_db.Raised.{Raised, dploydb, returned}
use dploy_db.World.{World, Environment, OperationFile}
use dploy_db.Exec.{raise, gets}
use dploy_db.Exec.Returns.{Anything, guard, given}
use dploy_db.Exec.Keeps.{
  Triple, Triple-bind, Triple-ask, Triple-gets, Triple-lift, Triple-save, Triple-pure, Triple-raise,
  Triple-try, Triple-if,
}
use dploy_db.Operations.{
  max_event_count, validated_operation, trail_ok, read_file, clock, now_not_before, file_manifest,
  parsed_manifest, read_manifest, file_events, read_events, read_consistent, append_to,
  append_event_record, replace_in, torn, write_manifest,
}
use dploy_db.Operations.Trail.{Consistent}

pub validated-facts :
    (m m' : OperationManifest)
    → validated_operation m ≡ returned m'
    → (m' ≡ m) × (first_violation (operation_checks m) ≡ none)
unfolding validated_operation
validated-facts m m' h = elim (Option-cases (first_violation (operation_checks m))) [
  | inl ok ↦ (ground arith, ok)
  | inr (message, bad) ↦ ground arith
]

module _ (env : Environment) (id : ℕ) where
  parsed-facts :
      (o : Option OperationManifest) (m : OperationManifest)
      → parsed_manifest env id o ≡ returned m
      → (o ≡ some m) × (first_violation (operation_checks m) ≡ none) × (m.operation_id ≡ id)
  unfolding parsed_manifest
  parsed-facts none m h = ground arith
  parsed-facts (some x) m h = elim (Option-cases (first_violation (operation_checks x))) [
    | inl ok ↦ elim (Bool-cases (x.operation_id == id)) [
      | inl same ↦ (ground arith, ground arith, ground arith)
      | inr other ↦ ground arith
    ]
    | inr (message, bad) ↦ ground arith
  ]

  module _ (files : List (ℕ × OperationFile)) where
    abbrev pub Here : World → Type 0
    Here w = w.operations ≡ files

    readable : Triple Here (read_file env) (λ _. Here) Anything
    unfolding read_file
    readable = Triple-ask _ _ (λ w _ h _. h) (λ w _ h. tt)

    files_read : Triple Here (gets (λ w. w.operations)) (λ d w. Here w × (d ≡ files)) Anything
    files_read = Triple-gets _ (λ w h. (h, h))

    pub manifest_read :
        Triple Here
          (read_manifest env id)
          (λ m w.
            Here w
            × ((file_manifest (lookup id files) ≡ some m)
                × (first_violation (operation_checks m) ≡ none)
                × (m.operation_id ≡ id)))
          Anything
    unfolding read_manifest
    manifest_read =
        Triple-bind (λ _. Here) _ _ readable
          λ _.
            Triple-bind (λ d w. Here w × (d ≡ files)) _ _ files_read
              λ d. given λ same.
                Triple-lift _ (λ w m h e. (h, parsed-facts _ m (rw (← same) e))) (λ w e h _. tt)

    pub events_read :
        Triple Here
          (read_events env id)
          (λ es w. Here w × ((file_events (lookup id files) ≡ es) × (trail_ok id 1 none es ≡ true)))
          Anything
    unfolding read_events
    events_read =
        Triple-bind (λ _. Here) _ _ readable
          λ _.
            Triple-bind (λ d w. Here w × (d ≡ files)) _ _ files_read
              λ d. given λ same. Triple-bind _ _ _ (guard _ _) λ _. given λ _.
                Triple-bind _ _ _ (guard _ _)
                  λ _. given λ ok. Triple-pure _ (λ w h. (h, (rw same, ground arith)))

    pub read_consistent-Consistent :
        Triple Here (read_consistent env id) (λ x w. Here w × Consistent id files x.0 x.1) Anything
    unfolding read_consistent
    read_consistent-Consistent = Triple-bind _ _ _ manifest_read λ m. given λ (there, valid, named).
        Triple-bind _ _ _ events_read λ events. given λ (log, in_order).
          Triple-bind _ _ _ (guard _ _) λ _. given λ agreed. Triple-pure _ (λ w h. (
            h,
            record {
              manifest = there;
              valid = valid;
              named = named;
              log = log;
              in_order = in_order;
              agreed = ground arith;
            },
          ))

    -- The log with one more record.
    abbrev pub Appended : OperationEvent → World → Type 0
    Appended e w = w.operations ≡ insert id (append_to e (lookup id files)) files

    pub append_event_record-Appended :
        (known : List OperationEvent) (e : OperationEvent)
        → Triple Here
            (append_event_record env id known e)
            (λ _ w. Appended e w × (length known < max_event_count))
            Anything
    unfolding append_event_record
    append_event_record-Appended known e = Triple-bind _ _ _ events_read λ existing. given λ _.
        Triple-bind _ _ _ (guard _ _) λ _. given λ _.
          Triple-bind _ _ _ (guard _ _)
            λ _. given λ room. Triple-save _ _ (λ w h. (rw h, ground arith)) (λ w h. tt) (λ w h. tt)

    nothing :
        {Q : Unit {0} → World → Type 0} (e : Raised) → Triple (λ _. Unit {0}) (raise e) Q Anything
    nothing e = Triple-raise e (λ w h. tt)

    -- A failed replacement of the manifest always raises.
    torn_raises :
        {Q : Unit {0} → World → Type 0} (safety : SafetyFacts) (e : Raised)
        → Triple (λ _. Unit {0}) (torn env safety e) Q Anything
    unfolding torn
    torn_raises safety (dploydb e) = search (Triple-if, nothing)
    torn_raises safety _ = nothing _

    pub manifest_written :
        (m : OperationManifest) (safety : SafetyFacts)
        → Triple Here
            (write_manifest env id m safety)
            (λ _ w. w.operations ≡ insert id (replace_in m (lookup id files)) files)
            Anything
    unfolding write_manifest
    manifest_written m safety =
        Triple-try (λ _. Unit {0}) _ _ (Triple-save _ _ (λ w h. rw h) (λ w h. tt) (λ w h. tt))
          (torn_raises safety)

    pub clock_read :
        (before : ℕ)
        → Triple Here (now_not_before env before) (λ t w. Here w × (before ≤ t)) Anything
    unfolding now_not_before clock
    clock_read before =
        Triple-bind (λ _. Here) _ _ (Triple-ask _ _ (λ w _ h _. h) (λ w _ h. tt))
          λ t.
            Triple-bind _ _ _ (guard _ _)
              λ _. given λ late. Triple-pure _ (λ w h. (h, ground arith))
