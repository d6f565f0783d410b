-- ===== src/Cutover/Laws.antt =====
-- What the stages of dploydb/cutover.py have proved when they return.
use dploy_db.Base.{
  ℕ, ◌≡◌, ◌⊎◌, inl, inr, Bool-cases, refl, Bool, true, false, ◌||◌, Option, none, some, ◌↔◌, String,
  arith, option_eq, List,
}
use dploy_db.Command.{CommandResult, outcome_is, start_failed, cancelled}
use dploy_db.Errors.{DployDbError, new_error}
use dploy_db.Raised.{Raised, Outcome, returned, raised}
use dploy_db.World.{World, Environment, BackupArtifact, ProductionStop, migrate, Call}
use dploy_db.Exec.{Exec}
use dploy_db.Exec.Keeps.{
  Post, Triple, Triple-bind, Triple-ask, Triple-pure, Triple-raise, Triple-weaken, at_return,
}
use dploy_db.Exec.Returns.{Anything, any, guard, given, refused}
use dploy_db.Calls.{run_command}
use dploy_db.Cutover.{
  complete_success, is_final, migration_may_have_changed, unusable_migration, not_proven_stopped,
  require_stopped, verify_final_backup, create_final, raise_some, migrate_database,
}

-- The result of the migration command is accepted exactly if the command succeeded with complete
-- output.
pub unusable_migration-usable :
    (r : CommandResult) (log : Option String)
    → (unusable_migration r log ≡ none) ↔ (complete_success r ≡ true)
unfolding unusable_migration complete_success
unusable_migration-usable r log = ground arith

-- A migration whose failure is reported without a change of production left no exit code, and failed
-- to start or was cancelled.
pub unusable_migration-unchanged :
    (r : CommandResult) (log : Option String) (e : DployDbError)
    → unusable_migration r log ≡ some e
    → e.payload.production_changed ≡ false
    → (r.exit_code ≡ none)
      × ((outcome_is r.outcome start_failed || outcome_is r.outcome cancelled) ≡ true)
unfolding unusable_migration migration_may_have_changed new_error
unusable_migration-unchanged r log e h u = (ground arith, ground arith)

module _ (env : Environment) where
  proved_stopped :
      (s : ProductionStop)
      → Triple Anything
          (require_stopped env s)
          (λ _ w. Anything w × (not_proven_stopped env s ≡ false))
          Anything
  unfolding require_stopped
  proved_stopped s = guard _ _

  -- What the verification of a final backup has tested.
  abbrev Verified : ℕ → BackupArtifact → Type 0
  Verified operation b =
      (is_final b.purpose ≡ true) × (option_eq b.operation_id (some operation) ≡ true)

  verified :
      (b : BackupArtifact) (operation : ℕ) (changed : Bool)
      → Triple Anything
          (verify_final_backup env b operation changed)
          (λ a w. Anything w × Verified operation a)
          Anything
  unfolding verify_final_backup
  verified b operation changed =
      Triple-bind (λ _. Anything) _ _ (any _)
        λ a.
          Triple-bind _ _ _ (guard _ _)
            λ _. given λ ok. Triple-pure a (λ w h. (tt, (ground arith, ground arith)))

  created :
      (operation : ℕ) (s : ProductionStop)
      → Triple Anything
          (create_final env operation s)
          (λ a w. Anything w × ((not_proven_stopped env s ≡ false) × Verified operation a))
          Anything
  unfolding create_final
  created operation s = Triple-bind _ _ _ (proved_stopped s) λ _. given λ stopped.
      Triple-bind (λ _. Anything) _ _ (any _)
        λ b.
          Triple-weaken Anything (λ a w. Anything w × Verified operation a) Anything (λ w h. h)
            (λ a w h. (tt, (stopped, h.1))) (λ w h. h) (verified b operation false)

  -- The migration command answered with a complete success at some point of the run.
  abbrev pub Migrated : Type 0
  Migrated =
      (j : List Call) × (r : CommandResult) × (env.run_command j migrate ≡ returned r)
      × (complete_success r ≡ true)

  command_ran :
      Triple Anything
        (run_command env migrate)
        (λ r w. Anything w × ((j : List Call) × (env.run_command j migrate ≡ returned r)))
        Anything
  unfolding run_command
  command_ran = Triple-ask _ _ (λ w r h e. (tt, (w.journal, e))) (λ w _ h. tt)

  usable :
      (r : CommandResult) (log : Option String)
      → Triple Anything
          (raise_some env (unusable_migration r log))
          (λ _ w. Anything w × (complete_success r ≡ true))
          Anything
  unfolding raise_some
  usable r log = by_error (unusable_migration r log) (unusable_migration-usable r log).0
    where
      by_error :
          (o : Option DployDbError)
          → (o ≡ none → complete_success r ≡ true)
          → Triple Anything
              (raise_some env o)
              (λ _ w. Anything w × (complete_success r ≡ true))
              Anything
      by_error none k = Triple-pure tt (λ w h. (tt, k refl))
      by_error (some e) k = Triple-raise _ (λ w h. tt)

  migrated :
      (operation : ℕ) (s : ProductionStop) (b : BackupArtifact) (activated : Bool)
      (sink : Exec (Unit {0}))
      → Triple Anything
          (migrate_database env operation s b activated sink)
          (λ _ w.
            Anything w × ((not_proven_stopped env s ≡ false) × (activated ≡ false) × Migrated))
          Anything
  unfolding migrate_database
  migrated operation s b activated sink = Triple-bind _ _ _ (proved_stopped s) λ _. given λ stopped.
      Triple-bind _ _ _ (guard _ _) λ _. given λ unswitched.
        Triple-bind (λ _. Anything) _ _ (any _)
          λ _. Triple-bind _ _ _ command_ran λ r. given λ (j, answer).
            Triple-bind (λ _. Anything) _ _ (any _)
              λ _. Triple-bind _ _ _ (usable r _) λ _. given λ good.
                Triple-weaken Anything (λ _. Anything) Anything (λ w h. h)
                  (λ _ w h. (tt, (stopped, unswitched, (j, r, answer, good)))) (λ w h. h) (any _)

-- What is known of a final backup, where one is returned.
abbrev pub FinalBackup : ℕ → Outcome BackupArtifact → Type 0
FinalBackup operation (returned b) =
    (is_final b.purpose ≡ true) × (option_eq b.operation_id (some operation) ≡ true)
FinalBackup operation (raised e) = Unit

returned_final :
    (env : Environment) (operation : ℕ) (s : ProductionStop) (x : Outcome BackupArtifact × World)
    → Post
        (λ a w. Anything w × ((not_proven_stopped env s ≡ false) × Verified env operation a))
        Anything
        x
    → FinalBackup operation x.0
returned_final env operation s (returned b, w) h = h.1.1
returned_final env operation s (raised e, w) h = tt

create_refused :
    (env : Environment) (operation : ℕ) (s : ProductionStop) (w : World)
    → not_proven_stopped env s ≡ true
    → (e : Raised) × (create_final env operation s w ≡ (raised e, w))
unfolding create_final require_stopped
create_refused env operation s w h = (_, refused (not_proven_stopped env s) _ _ w h)

-- Where the application is not proved to be stopped, the stage of the final backup raises with
-- nothing done: no backup is made and no call is added to the journal. Else what it returns is a
-- backup for this purpose and of this operation.
pub create_final-proved :
    (env : Environment) (operation : ℕ) (s : ProductionStop) (w : World)
    → ((not_proven_stopped env s ≡ true)
        × ((e : Raised) × (create_final env operation s w ≡ (raised e, w))))
      ⊎ ((not_proven_stopped env s ≡ false)
          × FinalBackup operation (create_final env operation s w).0)
create_final-proved env operation s w = elim (Bool-cases (not_proven_stopped env s)) [
  | inl open_still ↦ inl (open_still, create_refused env operation s w open_still)
  | inr stopped ↦
      inr (stopped, returned_final env operation s _ ((created env operation s).at w tt))
]

-- A migration stage that returns had a stopped application, had not activated new traffic, and its
-- command answered with a complete success.
pub migrate_database-proved :
    (env : Environment) (operation : ℕ) (s : ProductionStop) (b : BackupArtifact) (activated : Bool)
    (sink : Exec (Unit {0})) (w w' : World)
    → migrate_database env operation s b activated sink w ≡ (returned tt, w')
    → (not_proven_stopped env s ≡ false) × (activated ≡ false) × Migrated env
migrate_database-proved env operation s b activated sink w w' e =
    (at_return (migrated env operation s b activated sink) w tt tt w' e).1
