-- ===== src/Deploy/Calm/Return.antt =====
-- The rollback (dploydb/deploy.py) keeps each calm predicate that a restore of the database keeps
-- too.
use dploy_db.Base.{ℕ, refl, Bool, true, false, Option, none, some, List, ◌∷◌}
use dploy_db.Command.{TrafficHookResult, activate_old, disable_maintenance}
use dploy_db.Errors.{DployDbError}
use dploy_db.Models.Manifest.{ProductionApplicationHandle}
use dploy_db.Raised.{Raised}
use dploy_db.World.{
  Environment, Context, Call, ran, restore, ProductionStop, BackupArtifact, remove_new, restart,
}
use dploy_db.Exec.Keeps.{
  Keeps, Keeps-pure, Keeps-raise, Keeps-bind, Keeps-try, Keeps-gets, Keeps-when, Keeps-for_some,
  Triple-ask, keeps_rules,
}
use dploy_db.Exec.Quiet.{On}
use dploy_db.Calls.{restore_database}
use dploy_db.Cutover.{restore_final}
use dploy_db.Deploy.Rollback.{
  remove_failed, restore_before_traffic, require_hook, bring_back, mark_rolled_back, roll_back,
  unproven, rollback_failed, rollback,
}
use dploy_db.Deploy.Calm.{Calm, Keeps-context, Keeps-run, Keeps-run_hook, Keeps-require_some}
use dploy_db.Deploy.Calm.Forward.{
  Keeps-release, Keeps-operation, Keeps-event, Keeps-persist_stage, Keeps-record_hook,
  Keeps-verify_previous,
}
use dploy_db.Deploy.Calm.Stages.{Keeps-require_stopped, Keeps-verify_final_backup}
use dploy_db.Deploy.Calm.Endings.{Keeps-finish_recovery}

module _ (env : Environment) (F : Context → List Call → Type 0) (calm : Calm F)
    (at_restore : (c : Context) (j : List Call) (b : Bool) → F c j → F c (ran restore b ∷ j)) where
  Keeps-restore_database : (b : BackupArtifact) → Keeps (On F) (restore_database env b)
  unfolding restore_database
  Keeps-restore_database b =
      Triple-ask _ _ (λ w _ p _. at_restore w.context w.journal true p)
        (λ w _ p. at_restore w.context w.journal false p)

  Keeps-restore_final :
      (o : ℕ) (s : ProductionStop) (b : BackupArtifact) (a : Bool)
      → Keeps (On F) (restore_final env o s b a)
  unfolding restore_final
  Keeps-restore_final o s b a = Keeps-bind _ _ (Keeps-require_stopped env F calm s) λ _.
      Keeps-bind _ _ (search keeps_rules) λ _.
        Keeps-bind _ _ (Keeps-verify_final_backup env F calm b o true)
          λ v. Keeps-bind _ _ (Keeps-restore_database v) λ r. search keeps_rules

  Keeps-remove_failed : (h : ProductionApplicationHandle) → Keeps (On F) (remove_failed env h)
  unfolding remove_failed
  Keeps-remove_failed h =
      Keeps-bind _ _ (Keeps-run F calm env remove_new refl)
        λ _. Keeps-bind _ _ (Keeps-gets _) λ c. Keeps-event env F calm _ _ _

  Keeps-restore_before_traffic : Keeps (On F) (restore_before_traffic env)
  unfolding restore_before_traffic
  Keeps-restore_before_traffic = Keeps-bind _ _ (Keeps-gets _) λ c.
      Keeps-bind _ _ (search keeps_rules) λ _. Keeps-bind _ _ (Keeps-require_some c.stopped) λ s.
        Keeps-bind _ _ (Keeps-require_some c.final_backup)
          λ b. Keeps-bind _ _ (Keeps-restore_final _ s b _) λ _. Keeps-event env F calm _ _ _

  Keeps-require_hook : (r : TrafficHookResult) → Keeps (On F) (require_hook env r)
  unfolding require_hook
  Keeps-require_hook r = Keeps-bind _ _ (Keeps-record_hook env F calm r) λ _. search keeps_rules

  Keeps-bring_back : Keeps (On F) (bring_back env)
  unfolding bring_back
  Keeps-bring_back = Keeps-bind _ _ (Keeps-gets _) λ c. Keeps-bind _ _ (search keeps_rules) λ _.
      Keeps-bind _ _ (Keeps-run F calm env restart refl) λ _.
        Keeps-bind _ _ (Keeps-event env F calm _ _ _) λ _.
          Keeps-bind _ _ (Keeps-run_hook F calm env activate_old refl) λ r.
            Keeps-bind _ _ (Keeps-require_hook r) λ _.
              Keeps-bind _ _ (Keeps-run_hook F calm env disable_maintenance refl) λ r.
                Keeps-bind _ _ (Keeps-require_hook r) λ _.
                  Keeps-bind _ _ (Keeps-context F calm _ (λ c. refl))
                    λ _. Keeps-verify_previous env F calm

  Keeps-mark_rolled_back : (e : DployDbError) → Keeps (On F) (mark_rolled_back env e)
  unfolding mark_rolled_back
  Keeps-mark_rolled_back e = Keeps-bind _ _ (Keeps-gets _) λ c.
      Keeps-bind _ _ (Keeps-release env F calm _ _ _)
        λ r. Keeps-bind _ _ (Keeps-operation env F calm _ _ _ _ _ _ _) λ o. Keeps-pure _

  Keeps-roll_back : (e : DployDbError) → Keeps (On F) (roll_back env e)
  unfolding roll_back
  Keeps-roll_back e = Keeps-bind _ _ (Keeps-gets _) λ c.
      Keeps-bind _ _ (Keeps-persist_stage env F calm _ _ _ _ _) λ _.
        Keeps-bind _ _ (Keeps-for_some _ _ Keeps-remove_failed) λ _.
          Keeps-bind _ _
            (Keeps-when c.production_may_have_changed (restore_before_traffic env)
              Keeps-restore_before_traffic)
            λ _. Keeps-bind _ _ Keeps-bring_back (λ _. Keeps-mark_rolled_back e)

  Keeps-unproven :
      (c : Context) (o : Option DployDbError) (e : Raised) → Keeps (On F) (unproven env c o e)
  unfolding unproven
  Keeps-unproven c none e = Keeps-raise _
  Keeps-unproven c (some d) e =
      Keeps-bind _ _ (Keeps-finish_recovery env F calm _) (λ _. Keeps-raise _)

  Keeps-rollback_failed : (e : Raised) → Keeps (On F) (rollback_failed env e)
  unfolding rollback_failed
  Keeps-rollback_failed e = Keeps-bind _ _ (Keeps-gets _) (λ c. Keeps-unproven c _ e)

  pub Keeps-rollback : (e : DployDbError) → Keeps (On F) (rollback env e)
  unfolding rollback
  Keeps-rollback e = Keeps-try _ _ (Keeps-roll_back e) Keeps-rollback_failed
