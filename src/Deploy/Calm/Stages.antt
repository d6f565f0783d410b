-- ===== src/Deploy/Calm/Stages.antt =====
-- The larger stages of a deployment keep every calm predicate: the candidate stage
-- (dploydb/candidate.py), the final backup and the migration (dploydb/cutover.py), and the stages of
-- `_run_deployment` (dploydb/deploy.py) before the activation of new traffic.
use dploy_db.Base.{ℕ, String, refl, Bool, false, Option, none, some, List}
use dploy_db.Command.{CommandResult}
use dploy_db.Errors.{DployDbError}
use dploy_db.Models.State.{DeploymentState, SafetyFacts}
use dploy_db.Raised.{Raised, dploydb, base_exception}
use dploy_db.World.{
  Environment, Context, Call, BackupArtifact, ProductionStop, migrate, verify_sqlite, check_health,
  rehearse, check_rehearsal, validate_candidate, clean_workspace, collect_logs, final, rehearsal,
}
use dploy_db.Exec.{Exec}
use dploy_db.Exec.Keeps.{
  Keeps, Keeps-pure, Keeps-raise, Keeps-bind, Keeps-try, Keeps-gets, Keeps-finally, keeps_rules,
}
use dploy_db.Exec.Quiet.{On}
use dploy_db.Candidate.{tell, candidate_failed, rehearsed, run_candidate_stage, Observer}
use dploy_db.Cutover
use dploy_db.Cutover.{
  require_stopped, verification_failed, verify_final_backup, create_final, sink_failed,
  check_failed, migrate_database,
}
use dploy_db.Deploy.Coordinator.{
  prepare, stop_previous, back_up, migrate_production, raise_some, start_and_check,
}
use dploy_db.Deploy.Calm.{
  Calm, Keeps-context, Keeps-run, Keeps-run_command, Keeps-inject, Keeps-make_backup,
  Keeps-check_backup, Keeps-stop_current, Keeps-start_new, Keeps-require_some,
}
use dploy_db.Deploy.Calm.Forward.{
  Keeps-operation, Keeps-event, Keeps-intent, Keeps-persist_stage, Keeps-observe,
  Keeps-resolve_previous, Keeps-enable, Keeps-replicate_final,
}

module _ (env : Environment) (F : Context → List Call → Type 0) (calm : Calm F) where
  module _ (o : ℕ) (observer : Observer)
      (kept : (s : DeploymentState) (b : Option (ℕ × ℕ)) → Keeps (On F) (observer s b)) where
    Keeps-tell :
        (s : DeploymentState) (name : String) (safety : Option SafetyFacts) (b : Option (ℕ × ℕ))
        → Keeps (On F) (tell env o observer s name safety b)
    unfolding tell
    Keeps-tell s name safety b =
        Keeps-bind _ _ (Keeps-operation env F calm _ _ _ _ _ _ _) (λ _. kept s b)

    Keeps-rehearsed : Keeps (On F) (rehearsed env o observer)
    unfolding rehearsed
    Keeps-rehearsed = Keeps-bind _ _ (Keeps-run F calm env rehearse refl) λ _.
        Keeps-bind _ _ (Keeps-event env F calm _ _ _) λ _.
          Keeps-bind _ _ (Keeps-run F calm env check_rehearsal refl) λ _.
            Keeps-bind _ _ (Keeps-tell _ _ _ _) λ _. Keeps-run F calm env validate_candidate refl

    Keeps-candidate_failed : (e : Raised) → Keeps (On F) (candidate_failed env e)
    unfolding candidate_failed
    Keeps-candidate_failed (dploydb e) = Keeps-raise _
    Keeps-candidate_failed _ = Keeps-raise _

    pub Keeps-run_candidate_stage : Keeps (On F) (run_candidate_stage env o observer)
    unfolding run_candidate_stage
    Keeps-run_candidate_stage =
        Keeps-try _ _
          (Keeps-bind _ _ (Keeps-run F calm env verify_sqlite refl) λ _.
            Keeps-bind _ _ (Keeps-tell _ _ _ _) λ _.
              Keeps-bind _ _ (Keeps-make_backup F calm env rehearsal o) λ b.
                Keeps-bind _ _ (Keeps-tell _ _ _ _) λ _.
                  Keeps-bind _ _
                    (Keeps-finally _ _ Keeps-rehearsed (Keeps-run F calm env clean_workspace refl))
                    λ _. Keeps-tell _ _ _ _)
          Keeps-candidate_failed

  pub Keeps-require_stopped : (s : ProductionStop) → Keeps (On F) (require_stopped env s)
  unfolding require_stopped
  Keeps-require_stopped s = search keeps_rules

  Keeps-verification_failed :
      (b : Bool) (a : BackupArtifact) (e : Raised) → Keeps (On F) (verification_failed env b a e)
  unfolding verification_failed
  Keeps-verification_failed b a (dploydb e) = Keeps-raise _
  Keeps-verification_failed b a _ = Keeps-raise _

  pub Keeps-verify_final_backup :
      (a : BackupArtifact) (o : ℕ) (b : Bool) → Keeps (On F) (verify_final_backup env a o b)
  unfolding verify_final_backup
  Keeps-verify_final_backup a o b =
      Keeps-bind _ _
        (Keeps-try _ _ (Keeps-check_backup F calm env a.backup_id) (Keeps-verification_failed b a))
        λ v. search keeps_rules

  Keeps-create_final : (o : ℕ) (s : ProductionStop) → Keeps (On F) (create_final env o s)
  unfolding create_final
  Keeps-create_final o s = Keeps-bind _ _ (Keeps-require_stopped s) λ _.
      Keeps-bind _ _ (Keeps-make_backup F calm env final o) λ b. Keeps-verify_final_backup b o false

  Keeps-sink_failed : (r : CommandResult) (e : Raised) → Keeps (On F) (sink_failed env r e)
  unfolding sink_failed
  Keeps-sink_failed r (base_exception t) = Keeps-raise _
  Keeps-sink_failed r _ = Keeps-raise _

  Keeps-check_failed : (e : Raised) → Keeps (On F) (check_failed env e)
  unfolding check_failed
  Keeps-check_failed (dploydb e) = Keeps-raise _
  Keeps-check_failed _ = Keeps-raise _

  Keeps-unusable : (o : Option DployDbError) → Keeps (On F) (Cutover.raise_some env o)
  unfolding Cutover.raise_some
  Keeps-unusable none = Keeps-pure tt
  Keeps-unusable (some e) = Keeps-raise _

  Keeps-migrate_database :
      (o : ℕ) (s : ProductionStop) (a : BackupArtifact) (b : Bool) (sink : Exec (Unit {0}))
      → Keeps (On F) sink
      → Keeps (On F) (migrate_database env o s a b sink)
  unfolding migrate_database
  Keeps-migrate_database o s a b sink kept = Keeps-bind _ _ (Keeps-require_stopped s) λ _.
      Keeps-bind _ _ (search keeps_rules) λ _.
        Keeps-bind _ _ (Keeps-verify_final_backup a o false) λ _.
          Keeps-bind _ _ (Keeps-run_command F calm env migrate refl) λ r.
            Keeps-bind _ _ (Keeps-try _ _ kept (Keeps-sink_failed r)) λ _.
              Keeps-bind _ _ (Keeps-unusable _)
                λ _. Keeps-try _ _ (Keeps-run F calm env verify_sqlite refl) Keeps-check_failed

  pub Keeps-prepare : Keeps (On F) (prepare env)
  unfolding prepare
  Keeps-prepare = Keeps-bind _ _ (Keeps-gets _) λ c.
      Keeps-bind _ _ (Keeps-run_candidate_stage _ _ (Keeps-observe env F calm)) λ _.
        Keeps-bind _ _ (Keeps-event env F calm _ _ _) λ _.
          Keeps-bind _ _ (Keeps-resolve_previous env F calm)
            λ _. Keeps-bind _ _ (Keeps-enable env F calm) λ _. Keeps-inject F calm env _

  pub Keeps-stop_previous : Keeps (On F) (stop_previous env)
  unfolding stop_previous
  Keeps-stop_previous = Keeps-bind _ _ (Keeps-gets _) λ c.
      Keeps-bind _ _ (Keeps-require_some c.previous) λ h.
        Keeps-bind _ _ (Keeps-stop_current F calm env h) λ s.
          Keeps-bind _ _ (Keeps-context F calm _ (λ c. refl)) λ _.
            Keeps-bind _ _ (Keeps-persist_stage env F calm _ _ _ _ _)
              λ _. Keeps-bind _ _ (Keeps-inject F calm env _) λ _. Keeps-pure s

  pub Keeps-back_up : (s : ProductionStop) → Keeps (On F) (back_up env s)
  unfolding back_up
  Keeps-back_up s = Keeps-bind _ _ (Keeps-gets _) λ c. Keeps-bind _ _ (Keeps-create_final _ s) λ b.
      Keeps-bind _ _ (Keeps-context F calm _ (λ c. refl)) λ _.
        Keeps-bind _ _ (Keeps-persist_stage env F calm _ _ _ _ _)
          λ _. Keeps-bind _ _ (Keeps-replicate_final env F calm b) λ _. Keeps-pure b

  pub Keeps-migrate_production :
      (s : ProductionStop) (b : BackupArtifact) → Keeps (On F) (migrate_production env s b)
  unfolding migrate_production
  Keeps-migrate_production s b = Keeps-bind _ _ (Keeps-context F calm _ (λ c. refl)) λ _.
      Keeps-bind _ _ (Keeps-gets _) λ c. Keeps-bind _ _ (Keeps-intent env F calm _ _ _) λ _.
        Keeps-bind _ _ (Keeps-operation env F calm _ _ _ _ _ _ _) λ _.
          Keeps-bind _ _ (Keeps-migrate_database _ s b _ _ (Keeps-event env F calm _ _ _)) λ _.
            Keeps-bind _ _ (Keeps-persist_stage env F calm _ _ _ _ _) λ _. Keeps-inject F calm env _

  Keeps-incomplete : (o : Option DployDbError) → Keeps (On F) (raise_some env o)
  unfolding raise_some
  Keeps-incomplete none = Keeps-pure tt
  Keeps-incomplete (some e) = Keeps-raise _

  pub Keeps-start_and_check : Keeps (On F) (start_and_check env)
  unfolding start_and_check
  Keeps-start_and_check = Keeps-bind _ _ (Keeps-start_new F calm env) λ new.
      Keeps-bind _ _ (Keeps-context F calm _ (λ c. refl)) λ _. Keeps-bind _ _ (Keeps-gets _) λ c.
        Keeps-bind _ _ (Keeps-event env F calm _ _ _) λ _.
          Keeps-bind _ _ (Keeps-run_command F calm env collect_logs refl) λ logs.
            Keeps-bind _ _ (Keeps-incomplete _) λ _.
              Keeps-bind _ _ (Keeps-run F calm env verify_sqlite refl) λ _.
                Keeps-bind _ _ (Keeps-run F calm env check_health refl) λ _.
                  Keeps-bind _ _ (Keeps-context F calm _ (λ c. refl))
                    λ _. Keeps-persist_stage env F calm _ _ _ _ _
