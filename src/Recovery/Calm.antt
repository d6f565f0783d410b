-- ===== src/Recovery/Calm.antt =====
-- The steps of a recovery (dploydb/recovery.py) other than the restore of the database keep each
-- predicate of the journal that only such a restore and an activation can end.
use dploy_db.Base.{ℕ, ◌≡◌, refl, Bool, true, false, Option, none, some, List, [], ◌∷◌, arith}
use dploy_db.Command.{TrafficAction, activate_old}
use dploy_db.Errors.{DployDbError}
use dploy_db.Models.Manifest.{ProductionApplicationHandle, ReleaseManifest}
use dploy_db.Models.Operation.{OperationManifest}
use dploy_db.Raised.{Raised}
use dploy_db.World.{
  Environment, Context, Call, record_owner, remove_new, restart, verify_sqlite, check_health,
}
use dploy_db.Exec.{Exec}
use dploy_db.Exec.Keeps.{Keeps, Keeps-pure, Keeps-raise, Keeps-bind, Keeps-try, keeps_rules}
use dploy_db.Exec.Quiet.{On}
use dploy_db.Releases.Store.Reads
use dploy_db.Operations.Reads as Trail
use dploy_db.Operations.Quiet as Writes
use dploy_db.Releases.Store.Quiet
use dploy_db.Deploy.Calm.{
  Calm, Calm-Quiet, Calm-Silent, Calm-Unaware, Keeps-ran, Keeps-run, Keeps-run_hook, Keeps-inject,
  Keeps-inspect_application, is_activation,
}
use dploy_db.Deploy.Calm.Forward.{Keeps-release, Keeps-operation, Keeps-event}
use dploy_db.Recovery.{
  RecoveryPlan, RecoveryAction, remove_new_application, restore_final_backup,
  restart_previous_application, activate_previous_traffic, disable_maintenance, verify_previous,
  mark_rolled_back, verify_new, mark_active,
}
use dploy_db.Recovery.Plan.{has_action}
use dploy_db.Recovery.Ownership.{require_recovery, mark_release, take_recovery_ownership}
use dploy_db.Recovery.Ownership.Keeps.{Keeps-acknowledged_stale_owner, Keeps-take_over_all}
use dploy_db.Recovery.Execute.{
  RecoveryResult, recover_hook, remove_new_release, restart_previous_release, verify_application,
  inspect_new, select_active, complete_recovery, step_done, finished, perform, go_on, begin_action,
  execute_actions, execute_recovery_plan,
}
use dploy_db.Recovery.Recover.{
  fail_recovery, finish_recovery_operation, finish_or_raise, normalize_recovery, recovery_failed,
  replace_owner, recover_by,
}

module _ (env : Environment) (F : Context → List Call → Type 0) (calm : Calm F) where
  Keeps-require_recovery :
      (plan : RecoveryPlan) (r : ReleaseManifest) → Keeps (On F) (require_recovery env plan r)
  unfolding require_recovery
  Keeps-require_recovery plan r = Keeps-bind _ _ (Keeps-release env F calm _ _ _) λ m. Keeps-pure tt

  Keeps-take_recovery_ownership :
      (plan : RecoveryPlan) (r : ReleaseManifest)
      → Keeps (On F) (take_recovery_ownership env plan r)
  unfolding take_recovery_ownership mark_release
  Keeps-take_recovery_ownership plan r =
      Keeps-bind _ _ (Trail.Keeps-list_operations env (On F) (Calm-Silent F calm)) λ os.
        Keeps-bind _ _ (Keeps-take_over_all env (On F) (Calm-Unaware F calm) plan os)
          λ _. search (keeps_rules, Keeps-require_recovery)

  Keeps-recover_hook :
      (plan : RecoveryPlan) (operation : ℕ) (a : TrafficAction)
      → is_activation a ≡ false
      → Keeps (On F) (recover_hook env plan operation a)
  unfolding recover_hook
  Keeps-recover_hook plan operation a h =
      Keeps-bind _ _ (Keeps-run_hook F calm env a h)
        λ r. Keeps-bind _ _ (Keeps-event env F calm _ _ _) λ _. search keeps_rules

  Keeps-remove_new_release :
      (plan : RecoveryPlan) (operation : ℕ) (o : Option ProductionApplicationHandle)
      → Keeps (On F) (remove_new_release env plan operation o)
  unfolding remove_new_release
  Keeps-remove_new_release plan operation none = Keeps-raise _
  Keeps-remove_new_release plan operation (some h) =
      Keeps-bind _ _ (Keeps-run F calm env remove_new refl) λ _. Keeps-event env F calm _ _ _

  Keeps-restart_previous_release :
      (plan : RecoveryPlan) (operation : ℕ) (o : Option ProductionApplicationHandle)
      → Keeps (On F) (restart_previous_release env plan operation o)
  unfolding restart_previous_release
  Keeps-restart_previous_release plan operation none = Keeps-raise _
  Keeps-restart_previous_release plan operation (some h) =
      Keeps-bind _ _ (Keeps-run F calm env restart refl) λ _. Keeps-event env F calm _ _ _

  Keeps-verify_application :
      (operation : ℕ) (o : Option ProductionApplicationHandle)
      → Keeps (On F) (verify_application env operation o)
  unfolding verify_application
  Keeps-verify_application operation none = Keeps-raise _
  Keeps-verify_application operation (some h) =
      Keeps-bind _ _ (Keeps-run F calm env verify_sqlite refl) λ _.
        Keeps-bind _ _ (Keeps-run F calm env check_health refl) λ _. Keeps-event env F calm _ _ _

  Keeps-inspect_new : (o : Option ProductionApplicationHandle) → Keeps (On F) (inspect_new env o)
  unfolding inspect_new
  Keeps-inspect_new none = Keeps-pure tt
  Keeps-inspect_new (some h) =
      Keeps-bind _ _ (Keeps-inspect_application F calm env h true) λ i. Keeps-pure tt

  Keeps-select_active : (b : Bool) (r : ReleaseManifest) → Keeps (On F) (select_active env b r)
  unfolding select_active
  Keeps-select_active true r =
      Keeps-bind _ _ (Quiet.Keeps-activate_release env F (Calm-Quiet F calm) _) λ p. Keeps-pure tt
  Keeps-select_active false r = Keeps-pure tt

  Keeps-complete_recovery :
      (plan : RecoveryPlan) (operation : ℕ) (r : ReleaseManifest) (b : Bool)
      → Keeps (On F) (complete_recovery env plan operation r b)
  unfolding complete_recovery
  Keeps-complete_recovery plan operation r b =
      Keeps-bind _ _ (Quiet.Keeps-resolve_recovery env F (Calm-Quiet F calm) _ _ _ _) λ m.
        Keeps-bind _ _ (Keeps-select_active b m)
          λ _. Keeps-bind _ _ (Keeps-operation env F calm _ _ _ _ _ _ _) λ o. Keeps-pure _

  Keeps-step_done : (m : Exec (Unit {0})) → Keeps (On F) m → Keeps (On F) (step_done env m)
  unfolding step_done
  Keeps-step_done m k = Keeps-bind _ _ k λ _. Keeps-pure none

  Keeps-finished : (m : Exec RecoveryResult) → Keeps (On F) m → Keeps (On F) (finished env m)
  unfolding finished
  Keeps-finished m k = Keeps-bind _ _ k λ r. Keeps-pure _

  -- Every action but one.
  Keeps-perform :
      (plan : RecoveryPlan) (operation : ℕ) (r : ReleaseManifest) (a : RecoveryAction)
      → has_action restore_final_backup (a ∷ []) ≡ false
      → Keeps (On F) (perform env plan operation r a)
  unfolding perform
  Keeps-perform plan operation r remove_new_application h =
      Keeps-step_done _ (Keeps-remove_new_release plan operation _)
  Keeps-perform plan operation r restore_final_backup h = ground arith
  Keeps-perform plan operation r restart_previous_application h =
      Keeps-step_done _ (Keeps-restart_previous_release plan operation _)
  Keeps-perform plan operation r activate_previous_traffic h =
      Keeps-step_done _ (Keeps-recover_hook plan operation activate_old refl)
  Keeps-perform plan operation r disable_maintenance h =
      Keeps-step_done _ (Keeps-recover_hook plan operation TrafficAction.disable_maintenance refl)
  Keeps-perform plan operation r verify_previous h =
      Keeps-step_done _ (Keeps-verify_application operation _)
  Keeps-perform plan operation r verify_new h =
      Keeps-step_done _
        (Keeps-bind _ _ (Keeps-inspect_new _) λ _. Keeps-verify_application operation _)
  Keeps-perform plan operation r mark_rolled_back h =
      Keeps-finished _ (Keeps-complete_recovery plan operation r false)
  Keeps-perform plan operation r mark_active h =
      Keeps-finished _ (Keeps-complete_recovery plan operation r true)

  Keeps-go_on :
      (a : RecoveryAction) (rest : Exec RecoveryResult) (o : Option RecoveryResult)
      → Keeps (On F) rest
      → Keeps (On F) (go_on env a rest o)
  unfolding go_on
  Keeps-go_on a rest (some r) k = Keeps-pure r
  Keeps-go_on a rest none k = Keeps-bind _ _ (Keeps-inject F calm env _) λ _. k

  Keeps-execute_actions :
      (plan : RecoveryPlan) (operation : ℕ) (r : ReleaseManifest) (steps : List RecoveryAction)
      → has_action restore_final_backup steps ≡ false
      → Keeps (On F) (execute_actions env plan operation r steps)
  unfolding execute_actions begin_action
  Keeps-execute_actions plan operation r [] h = Keeps-raise _
  Keeps-execute_actions plan operation r (a ∷ steps) h =
      Keeps-bind _ _ (Keeps-operation env F calm _ _ _ _ _ _ _) λ _.
        Keeps-bind _ _ (Keeps-perform plan operation r a (ground arith))
          λ o. Keeps-go_on a _ o (Keeps-execute_actions plan operation r steps (ground arith))

  Keeps-fail_recovery :
      (e : DployDbError) (operation : ℕ) (m : OperationManifest)
      → Keeps (On F) (fail_recovery env e operation m)
  unfolding fail_recovery
  Keeps-fail_recovery e operation m = search (keeps_rules, Keeps-operation env F calm) depth 9

  Keeps-finish_or_raise :
      (operation : ℕ) (o : Option DployDbError) (e : Raised)
      → Keeps (On F) (finish_or_raise env operation o e)
  unfolding finish_or_raise finish_recovery_operation
  Keeps-finish_or_raise operation none e = Keeps-raise e
  Keeps-finish_or_raise operation (some d) e =
      Keeps-bind _ _
        (Keeps-bind _ _ (Trail.Keeps-read_manifest env (On F) (Calm-Silent F calm) _)
          λ m. Keeps-fail_recovery d operation m)
        λ _. Keeps-raise _

  Keeps-recovery_failed :
      (plan : RecoveryPlan) (operation : ℕ) (e : Raised)
      → Keeps (On F) (recovery_failed env plan operation e)
  unfolding recovery_failed
  Keeps-recovery_failed plan operation raw =
      Keeps-finish_or_raise operation (normalize_recovery plan raw) raw

  -- A recovery by a plan that restores no database.
  pub Keeps-recover_by :
      (plan : RecoveryPlan)
      → has_action restore_final_backup plan.actions ≡ false
      → Keeps (On F) (recover_by env plan)
  unfolding recover_by replace_owner execute_recovery_plan
  Keeps-recover_by plan h =
      Keeps-bind _ _ (Reads.Keeps-read_manifest env (On F) (Calm-Silent F calm) _) λ r.
        Keeps-bind _ _ (Keeps-acknowledged_stale_owner env (On F) (Calm-Silent F calm) plan)
          λ stale. Keeps-bind _ _ (Keeps-take_recovery_ownership plan r) λ _.
            Keeps-bind _ _ (Writes.Keeps-create_operation env (On F) (Calm-Unaware F calm) _ _ _)
              λ o. Keeps-bind _ _ (Keeps-ran F calm _ record_owner refl) λ _.
                Keeps-try _ _
                  (Keeps-bind _ _ (Reads.Keeps-read_manifest env (On F) (Calm-Silent F calm) _)
                    λ m. Keeps-execute_actions plan _ m plan.actions h)
                  (λ e. Keeps-recovery_failed plan _ e)
