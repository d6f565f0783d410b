-- ===== src/Recovery/Results.antt =====
-- What `recover_configured_deployment` (dploydb/recovery.py) can return.
use dploy_db.Base.{
  ℕ, String, ◌≡◌, ◌∙◌, refl, Bool, true, false, Option, none, some, List, [], ◌∷◌, ◌⊎◌, inl, inr,
  arith,
}
use dploy_db.Models.State.{
  DeploymentState, active, rolled_back, OperationStatus, succeeded, SafetyFacts, FailureRecord,
}
use dploy_db.Models.Manifest.{ReleaseManifest}
use dploy_db.Models.Manifest.Laws.{IsValid}
use dploy_db.Models.Operation.{Evidence, OperationManifest, OperationEvent}
use dploy_db.Raised.{Raised, returned}
use dploy_db.World.{World, Environment}
use dploy_db.Exec.{Exec}
use dploy_db.Exec.Returns.{Anything, any, known, given_only}
use dploy_db.Exec.Keeps.{
  Triple, Triple-bind, Triple-pure, Triple-raise, Triple-try, Triple-weaken, at_value,
}
use dploy_db.Releases.Store
use dploy_db.Releases.Store.Atomic.{resolve_recovery-Resolution}
use dploy_db.Operations
use dploy_db.Operations.Log.{transition-Logged}
use dploy_db.Deploy.Release.{release_and_raise}
use dploy_db.Recovery.{
  RecoveryPlan, RecoveryLiveState, RecoveryAction, RecoveryDisposition, complete_new,
  recover_previous, no_action, manual_required, mark_active, mark_rolled_back,
  remove_new_application, restore_final_backup, restart_previous_application,
  activate_previous_traffic, disable_maintenance, verify_previous, verify_new, build_recovery_plan,
}
use dploy_db.Recovery.Plan.{has_action}
use dploy_db.Recovery.Plan.Shape.{Shape, build_recovery_plan-Shape, PreviousSteps-unmarked}
use dploy_db.Recovery.Diagnose.{diagnose, plan_for}
use dploy_db.Recovery.Execute.{
  RecoveryResult, outcome_state, complete_recovery, step_done, finished, perform, go_on,
  execute_actions, execute_recovery_plan,
}
use dploy_db.Recovery.Recover.{
  finish_or_raise, recovery_failed, normalize_recovery, recover_by, locked_recovery,
  recover_configured_deployment,
}

-- The release is in the state `s` and valid, the operation has succeeded, and the release names it
-- as the recovery that resolved it.
abbrev pub Completed : DeploymentState → RecoveryResult → Type 0
Completed s r =
    (r.release.status ≡ s)
    × IsValid r.release
    × (r.release.recovery_operation_id ≡ some r.operation.operation_id)
    × (r.operation.status ≡ succeeded)

-- The recovery did what its plan is for.
abbrev pub Recovered : RecoveryResult → Type 0
Recovered r =
    ((r.plan.disposition ≡ complete_new) × Completed active r)
    ⊎ ((r.plan.disposition ≡ recover_previous) × Completed rolled_back r)

-- What the loop over `steps` returns.
abbrev Marked : RecoveryPlan → List RecoveryAction → RecoveryResult → Type 0
Marked plan steps r =
    (r.plan ≡ plan)
    × (((has_action mark_active steps ≡ true) × Completed active r)
        ⊎ ((has_action mark_rolled_back steps ≡ true) × Completed rolled_back r))

abbrev Found : RecoveryPlan → Type 0
Found plan =
    (o : OperationManifest) × (es : List OperationEvent) × (r : ReleaseManifest)
    × (l : RecoveryLiveState) × (plan ≡ build_recovery_plan o es r l)

module _ (env : Environment) where
  resolves :
      (id : ℕ) (s : DeploymentState) (operation : ℕ) (activated : Bool)
      → Triple Anything
          (Store.resolve_recovery env id s operation activated)
          (λ m _. (m.status ≡ s) × IsValid m × (m.recovery_operation_id ≡ some operation))
          Anything
  resolves id s operation activated = record {
    at = λ w _.
        known (λ m. (m.status ≡ s) × IsValid m × (m.recovery_operation_id ≡ some operation)) _
          (λ m w' e.
            let t = resolve_recovery-Resolution env id s operation activated w m w' e in
            (t.reached, t.valid, t.by_operation));
  }

  finishes :
      (id : ℕ) (s : OperationStatus) (stage message : String) (evidence : Evidence)
      (safety : Option SafetyFacts) (failure : Option FailureRecord)
      → Triple Anything
          (Operations.transition env id s stage message evidence safety failure)
          (λ m _. (m.operation_id ≡ id) × (m.status ≡ s))
          Anything
  finishes id s stage message evidence safety failure = record {
    at = λ w _.
        known (λ m. (m.operation_id ≡ id) × (m.status ≡ s)) _
          (λ m w' e.
            let (logged, reached) =
              transition-Logged env id s stage message evidence safety failure w m w' e in
            (logged.now_files.named, reached));
  }

  completed :
      (plan : RecoveryPlan) (operation : ℕ) (release : ReleaseManifest) (b : Bool)
      → Triple Anything
          (complete_recovery env plan operation release b)
          (λ r _. (r.plan ≡ plan) × Completed (outcome_state b) r)
          Anything
  unfolding complete_recovery
  completed plan operation release b =
      Triple-bind _ _ _ (resolves _ (outcome_state b) operation b) λ m.
        given_only λ (reached, valid, by). Triple-bind _ _ _ (any _) λ _.
          Triple-bind _ _ _ (finishes operation succeeded _ _ _ _ _) λ o.
            given_only λ (named, good).
              Triple-pure _ (λ w h. (refl, (reached, valid, by ∙ rw named refl, good)))

  -- What an action returns, where it ends the loop.
  abbrev Ended : RecoveryPlan → RecoveryAction → Option RecoveryResult → Type 0
  Ended plan a none = Unit
  Ended plan a (some r) = Marked plan (a ∷ []) r

  continues :
      (plan : RecoveryPlan) (a : RecoveryAction) (m : Exec (Unit {0}))
      → Triple Anything (step_done env m) (λ o _. Ended plan a o) Anything
  unfolding step_done
  continues plan a m = Triple-bind _ _ _ (any m) λ _. Triple-pure none (λ w h. tt)

  performed :
      (plan : RecoveryPlan) (operation : ℕ) (release : ReleaseManifest) (a : RecoveryAction)
      → Triple Anything (perform env plan operation release a) (λ o _. Ended plan a o) Anything
  unfolding perform finished outcome_state
  performed plan operation release mark_active =
      Triple-bind _ _ _ (completed plan operation release true)
        λ r. given_only λ (same, c). Triple-pure (some r) (λ w h. (same, inl (refl, c)))
  performed plan operation release mark_rolled_back =
      Triple-bind _ _ _ (completed plan operation release false)
        λ r. given_only λ (same, c). Triple-pure (some r) (λ w h. (same, inr (refl, c)))
  performed plan operation release remove_new_application = continues plan remove_new_application _
  performed plan operation release restore_final_backup = continues plan restore_final_backup _
  performed plan operation release restart_previous_application =
      continues plan restart_previous_application _
  performed plan operation release activate_previous_traffic =
      continues plan activate_previous_traffic _
  performed plan operation release disable_maintenance = continues plan disable_maintenance _
  performed plan operation release verify_previous = continues plan verify_previous _
  performed plan operation release verify_new = continues plan verify_new _

  -- More actions in front.
  first_Marked :
      (plan : RecoveryPlan) (a : RecoveryAction) (steps : List RecoveryAction) (r : RecoveryResult)
      → Marked plan (a ∷ []) r
      → Marked plan (a ∷ steps) r
  first_Marked plan a steps r (same, inl (h, c)) = (same, inl (ground (arith, h), c))
  first_Marked plan a steps r (same, inr (h, c)) = (same, inr (ground (arith, h), c))

  later_Marked :
      (plan : RecoveryPlan) (a : RecoveryAction) (steps : List RecoveryAction) (r : RecoveryResult)
      → Marked plan steps r
      → Marked plan (a ∷ steps) r
  later_Marked plan a steps r (same, inl (h, c)) = (same, inl (ground (arith, h), c))
  later_Marked plan a steps r (same, inr (h, c)) = (same, inr (ground (arith, h), c))

  gone_on :
      (plan : RecoveryPlan) (a : RecoveryAction) (steps : List RecoveryAction)
      (rest : Exec RecoveryResult)
      → Triple Anything rest (λ r _. Marked plan steps r) Anything
      → (o : Option RecoveryResult)
      → Triple
          (λ _. Ended plan a o)
          (go_on env a rest o)
          (λ r _. Marked plan (a ∷ steps) r)
          Anything
  unfolding go_on
  gone_on plan a steps rest k (some r) = Triple-pure r (λ w h. first_Marked plan a steps r h)
  gone_on plan a steps rest k none =
      Triple-bind (λ _. Anything) _ _ (given_only λ _. any _)
        λ _.
          Triple-weaken Anything (λ r _. Marked plan steps r) Anything (λ w h. h)
            (λ r w h. later_Marked plan a steps r h) (λ w h. h) k

  executed :
      (plan : RecoveryPlan) (operation : ℕ) (release : ReleaseManifest)
      (steps : List RecoveryAction)
      → Triple Anything
          (execute_actions env plan operation release steps)
          (λ r _. Marked plan steps r)
          Anything
  unfolding execute_actions
  executed plan operation release [] = Triple-raise _ (λ w h. tt)
  executed plan operation release (a ∷ steps) = Triple-bind _ _ _ (any _) λ _.
      Triple-bind _ _ _ (performed plan operation release a)
        λ o. gone_on plan a steps _ (executed plan operation release steps) o

  never :
      {Q : RecoveryResult → Type 0} (operation : ℕ) (plan : RecoveryPlan) (e : Raised)
      → Triple Anything (recovery_failed env plan operation e) (λ r _. Q r) Anything
  unfolding recovery_failed finish_or_raise normalize_recovery
  never operation plan (Raised.base_exception t) = Triple-raise _ (λ w h. tt)
  never operation plan _ = Triple-bind _ _ _ (any _) λ _. Triple-raise _ (λ w h. tt)

  recovered_by :
      (plan : RecoveryPlan)
      → Triple Anything (recover_by env plan) (λ r _. Marked plan plan.actions r) Anything
  unfolding recover_by execute_recovery_plan
  recovered_by plan = Triple-bind _ _ _ (any _) λ _. Triple-bind _ _ _ (any _) λ _.
      Triple-bind _ _ _ (any _) λ _. Triple-bind _ _ _ (any _) λ o. Triple-bind _ _ _ (any _) λ _.
        Triple-try Anything _ _
          (Triple-bind _ _ _ (any _) λ release. executed plan o.operation_id release plan.actions)
          (λ e. never o.operation_id plan e)

  planned : (b : Bool) → Triple Anything (diagnose env b) (λ p _. Found p) Anything
  unfolding diagnose plan_for
  planned b = Triple-bind _ _ _ (any _) λ _. Triple-bind _ _ _ (any _) λ _.
      Triple-bind _ _ _ (any _) λ _. Triple-bind _ _ _ (any _) λ _. Triple-bind _ _ _ (any _) λ _.
        Triple-bind _ _ _ (any _) λ (r, o). Triple-bind _ _ _ (any _) λ es.
          Triple-bind _ _ _ (any _) λ _. Triple-bind _ _ _ (any _) λ _.
            Triple-bind _ _ _ (any _)
              λ _. Triple-bind _ _ _ (any _) λ _. Triple-pure _ (λ w h. (o, es, r, _, refl))

  -- A plan that marks a result is of the disposition for it.
  by_plan :
      (plan : RecoveryPlan) (r : RecoveryResult)
      → Found plan
      → Marked plan plan.actions r
      → Recovered r
  by_plan plan r (o, es, release, l, e) (same, m) =
      by_shape plan.disposition refl (rw e (build_recovery_plan-Shape o es release l))
    where
      by_shape :
          (d : RecoveryDisposition)
          → plan.disposition ≡ d
          → Shape o release l d plan.actions
          → Recovered r
      by_shape complete_new is shape = elim m [
        | inl (h, c) ↦ inl (rw same is, c)
        | inr (h, c) ↦ ground (arith, shape)
      ]
      by_shape recover_previous is shape = elim m [
        | inl (h, c) ↦ ground (arith, PreviousSteps-unmarked o release l plan.actions shape)
        | inr (h, c) ↦ inr (rw same is, c)
      ]
      by_shape no_action is shape = elim m [
        | inl (h, c) ↦ ground (arith, shape)
        | inr (h, c) ↦ ground (arith, shape)
      ]
      by_shape manual_required is shape = elim m [
        | inl (h, c) ↦ ground (arith, shape)
        | inr (h, c) ↦ ground (arith, shape)
      ]

  locked : Triple Anything (locked_recovery env) (λ r _. Recovered r) Anything
  unfolding locked_recovery
  locked = Triple-bind _ _ _ (planned false) λ plan. given_only λ found.
      Triple-bind _ _ _ (any _) λ _.
        Triple-weaken Anything (λ r _. Marked plan plan.actions r) Anything (λ w h. h)
          (λ r w h. by_plan plan r found h) (λ w h. h) (recovered_by plan)

  unlocked : (e : Raised) → Triple Anything (release_and_raise env e) (λ r _. Recovered r) Anything
  unfolding release_and_raise
  unlocked e = Triple-bind _ _ _ (any _) λ _. Triple-raise e (λ w h. tt)

  recovers : Triple Anything (recover_configured_deployment env) (λ r _. Recovered r) Anything
  unfolding recover_configured_deployment
  recovers = Triple-bind _ _ _ (any _) λ _.
      Triple-bind _ _ _ (Triple-try Anything _ _ locked unlocked)
        λ r. given_only λ done. Triple-bind _ _ _ (any _) λ _. Triple-pure r (λ w h. done)

-- A recovery that returns has either completed the new release, which its plan was for, or gone back
-- to the previous one, which its plan was for: the release is active or rolled back accordingly
-- and valid, the recovery operation has succeeded, and the release names it as its resolution.
pub recover_configured_deployment-Recovered :
    (env : Environment) (w : World) (r : RecoveryResult)
    → (recover_configured_deployment env w).0 ≡ returned r
    → Recovered r
recover_configured_deployment-Recovered env w r e = at_value (recovers env) w tt r e
