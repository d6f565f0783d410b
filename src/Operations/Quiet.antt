-- ===== src/Operations/Quiet.antt =====
-- The operation store (dploydb/state.py) changes neither the coordinator's context nor any fact
-- about the calls that were made.
use dploy_db.Base.{ℕ, String, Option, List}
use dploy_db.Models.State.{OperationStatus, SafetyFacts, FailureRecord}
use dploy_db.Models.Operation.{Evidence, OperationManifest, OperationEvent}
use dploy_db.Raised.{Raised, dploydb}
use dploy_db.World.{World, Environment}
use dploy_db.Exec.Keeps.{Keeps, Keeps-bind, Keeps-lift, Keeps-raise, Keeps-try, keeps_rules}
use dploy_db.Exec.Quiet.{Silent, Unaware, Unaware-Silent, Keeps-save_operations}
use dploy_db.Operations.{
  append_event_record, torn, write_manifest, transition, append_event, create_operation,
}
use dploy_db.Operations.Reads.{
  Keeps-clock, Keeps-fresh_id, Keeps-now_not_before, Keeps-read_manifest, Keeps-read_events,
  Keeps-read_consistent,
}

module _ (env : Environment) (P : World → Type 0) (q : Unaware P) where
  reads : Silent P
  reads = Unaware-Silent P q

  Keeps-append_event_record :
      (id : ℕ) (known : List OperationEvent) (e : OperationEvent)
      → Keeps P (append_event_record env id known e)
  unfolding append_event_record
  Keeps-append_event_record id known e =
      Keeps-bind _ _ (Keeps-read_events env P reads id) λ existing.
        Keeps-bind _ _ (search keeps_rules)
          λ _. Keeps-bind _ _ (search keeps_rules) λ _. Keeps-save_operations P q _ _

  Keeps-torn : (s : SafetyFacts) (e : Raised) → Keeps P (torn env s e)
  unfolding torn
  Keeps-torn s (dploydb e) = search keeps_rules
  Keeps-torn s _ = Keeps-raise _

  Keeps-write_manifest :
      (id : ℕ) (m : OperationManifest) (s : SafetyFacts) → Keeps P (write_manifest env id m s)
  unfolding write_manifest
  Keeps-write_manifest id m s = Keeps-try _ _ (Keeps-save_operations P q _ _) (λ e. Keeps-torn s e)

  pub Keeps-transition :
      (id : ℕ) (s : OperationStatus) (stage message : String) (evidence : Evidence)
      (safety : Option SafetyFacts) (failure : Option FailureRecord)
      → Keeps P (transition env id s stage message evidence safety failure)
  unfolding transition
  Keeps-transition id s stage message evidence safety failure =
      search
        (
          keeps_rules,
          Keeps-read_consistent env P reads,
          Keeps-now_not_before env P reads,
          Keeps-append_event_record,
          Keeps-write_manifest,
          Keeps-read_manifest env P reads,
        )
        depth 16

  pub Keeps-append_event :
      (id : ℕ) (message : String) (evidence : Evidence)
      → Keeps P (append_event env id message evidence)
  unfolding append_event
  Keeps-append_event id message evidence =
      search
        (
          keeps_rules,
          Keeps-read_consistent env P reads,
          Keeps-now_not_before env P reads,
          Keeps-append_event_record,
          Keeps-write_manifest,
          Keeps-read_events env P reads,
        )
        depth 16

  pub Keeps-create_operation : (t s : String) (e : Evidence) → Keeps P (create_operation env t s e)
  unfolding create_operation
  Keeps-create_operation t s e = Keeps-bind _ _ (Keeps-fresh_id env P reads) λ id.
      Keeps-bind _ _ (Keeps-clock env P reads) λ now. Keeps-bind _ _ (Keeps-lift _) λ m.
        Keeps-bind _ _ (Keeps-save_operations P q _ _)
          λ _. Keeps-bind _ _ (Keeps-write_manifest id m _) λ _. Keeps-read_manifest env P reads id
