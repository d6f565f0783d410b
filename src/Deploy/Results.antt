-- ===== src/Deploy/Results.antt =====
-- What `_run_deployment` (dploydb/deploy.py) can return.
use dploy_db.Base.{
  ℕ, String, ◌≡◌, ◌∙◌, sym, true, false, Option, none, some, if◌then◌else◌, ◌⊎◌, inl, inr,
}
use mathlib.Core.Bool.{false≢true}
use dploy_db.Errors.{DployDbError}
use dploy_db.Models.State.{
  DeploymentState, active, rolled_back, OperationStatus, succeeded, failed_safe, SafetyFacts,
  FailureRecord,
}
use dploy_db.Models.Manifest.Laws.{IsValid}
use dploy_db.Models.Operation.{Evidence}
use dploy_db.Raised.{Raised, returned}
use dploy_db.World.{World, Environment, Context}
use dploy_db.Exec.{Exec, raise}
use dploy_db.Exec.Returns.{Anything, any, known, given_only}
use dploy_db.Exec.Keeps.{
  Triple, Triple-bind, Triple-pure, Triple-raise, Triple-try, Triple-if, Triple-weaken, at_return,
  at_value,
}
use dploy_db.Releases.{Changes}
use dploy_db.Releases.Store
use dploy_db.Releases.Store.Atomic.{transition-Stepped}
use dploy_db.Operations
use dploy_db.Operations.Log.{transition-Logged}
use dploy_db.Deploy.Report.{normalize}
use dploy_db.Deploy.Finish.{DeploymentResult, complete_active, finish_failed}
use dploy_db.Deploy.Rollback.{mark_rolled_back, roll_back, unproven, rollback_failed, rollback}
use dploy_db.Deploy.Coordinator.{
  deploy_forward, give_up, settle, settle_or_raise, deploy_failed, run_deployment,
}

-- The two ways to end well: the new release is active, or the previous one is back.
abbrev pub Activated : DeploymentResult → Type 0
Activated r = (r.release.status ≡ active) × IsValid r.release × (r.operation.status ≡ succeeded)

abbrev pub RolledBack : DeploymentResult → Type 0
RolledBack r =
    (r.release.status ≡ rolled_back) × IsValid r.release × (r.operation.status ≡ failed_safe)

abbrev Ends : (DeploymentResult → Type 0) → Exec DeploymentResult → Type 0
Ends P m = Triple Anything m (λ r _. P r) Anything

release_reaches :
    (env : Environment) (id : ℕ) (s : DeploymentState) (c : Changes)
    → Triple Anything (Store.transition env id s c) (λ m _. (m.status ≡ s) × IsValid m) Anything
release_reaches env id s c = record {
  at = λ w _.
      known (λ m. (m.status ≡ s) × IsValid m) _
        (λ m w' e. let t = transition-Stepped env id s c w m w' e in (t.reached, t.valid));
}

operation_reaches :
    (env : Environment) (id : ℕ) (s : OperationStatus) (stage message : String)
    (evidence : Evidence) (safety : Option SafetyFacts) (failure : Option FailureRecord)
    → Triple Anything
        (Operations.transition env id s stage message evidence safety failure)
        (λ m _. m.status ≡ s)
        Anything
operation_reaches env id s stage message evidence safety failure = record {
  at = λ w _.
      known (λ m. m.status ≡ s) _
        (λ m w' e. (transition-Logged env id s stage message evidence safety failure w m w' e).1);
}

module _ (env : Environment) where
  completed : Ends Activated (complete_active env)
  unfolding complete_active
  completed = Triple-bind _ _ _ (any _) λ c.
      Triple-bind _ _ _ (release_reaches env _ active _) λ release. given_only λ (is_active, valid).
        Triple-bind _ _ _ (any _) λ _. Triple-bind _ _ _ (any _) λ _.
          Triple-bind _ _ _ (operation_reaches env _ succeeded _ _ _ _ _)
            λ o. given_only λ good. Triple-pure _ (λ w h. (is_active, valid, good))

  forward : Ends Activated (deploy_forward env)
  unfolding deploy_forward
  forward = Triple-bind _ _ _ (any _) λ _. Triple-bind _ _ _ (any _) λ s.
      Triple-bind _ _ _ (any _) λ b. Triple-bind _ _ _ (any _) λ _.
        Triple-bind _ _ _ (any _)
          λ _. Triple-bind _ _ _ (any _) λ _. Triple-bind _ _ _ (any _) λ _. completed

  marked : (e : DployDbError) → Ends RolledBack (mark_rolled_back env e)
  unfolding mark_rolled_back
  marked e = Triple-bind _ _ _ (any _) λ c.
      Triple-bind _ _ _ (release_reaches env _ rolled_back _) λ release. given_only λ (back, valid).
        Triple-bind _ _ _ (operation_reaches env _ failed_safe _ _ _ _ _)
          λ o. given_only λ safe. Triple-pure _ (λ w h. (back, valid, safe))

  never : {P : DeploymentResult → Type 0} (e : Raised) → Ends P (raise e)
  never e = Triple-raise e (λ w h. tt)

  given_up :
      {P : DeploymentResult → Type 0} (e : DployDbError) (finish : DployDbError → Exec (Unit {0}))
      → Ends P (give_up env e finish)
  unfolding give_up
  given_up e finish = Triple-bind _ _ _ (any _) λ _. never _

  unproved :
      (c : Context) (o : Option DployDbError) (e : Raised) → Ends RolledBack (unproven env c o e)
  unfolding unproven
  unproved c none e = never _
  unproved c (some d) e = Triple-bind _ _ _ (any _) λ _. never _

  back : (e : DployDbError) → Ends RolledBack (rollback env e)
  unfolding rollback roll_back rollback_failed
  back e =
      Triple-try Anything _ _
        (Triple-bind _ _ _ (any _) λ c. Triple-bind _ _ _ (any _) λ _.
          Triple-bind _ _ _ (any _)
            λ _. Triple-bind _ _ _ (any _) λ _. Triple-bind _ _ _ (any _) λ _. marked e)
        (λ x. Triple-bind _ _ _ (any _) λ c. unproved c _ x)

  -- A handled failure ends rolled back where it returns.
  settled : (c : Context) (e : DployDbError) → Ends RolledBack (settle env c e)
  unfolding settle
  settled c e = search (Triple-if, given_up, back) depth 6

  handled : (raw : Raised) → Ends RolledBack (deploy_failed env raw)
  unfolding deploy_failed settle_or_raise
  handled raw = Triple-bind _ _ _ (any _) λ c. by_error c (normalize c raw)
    where
      by_error :
          (c : Context) (o : Option DployDbError) → Ends RolledBack (settle_or_raise env c o raw)
      by_error c none = never _
      by_error c (some e) = settled c e

  ended : Ends (λ r. Activated r ⊎ RolledBack r) (run_deployment env)
  unfolding run_deployment
  ended =
      Triple-try Anything _ _
        (Triple-weaken Anything (λ r _. Activated r) Anything (λ w h. h) (λ r w h. inl h) (λ w h. h)
          forward)
        (λ e.
          Triple-weaken Anything (λ r _. RolledBack r) Anything (λ w h. h) (λ r w h. inr h)
            (λ w h. h) (handled e))

-- A deployment that returns has either activated the new release and its operation has succeeded,
-- or rolled it back and its operation has failed safely; the release that is returned is valid.
pub run_deployment-ends :
    (env : Environment) (w : World) (r : DeploymentResult)
    → (run_deployment env w).0 ≡ returned r
    → Activated r ⊎ RolledBack r
run_deployment-ends env w r e = at_value (ended env) w tt r e

-- Where the routing may have changed, no failure ends in a result.
unreturned :
    (env : Environment) (c : Context) (e : DployDbError)
    → c.traffic_activation_attempted ≡ true
    → Ends (λ _. ⊥) (settle env c e)
unfolding settle
unreturned env c e tried = search (Triple-if, given_up, impossible) depth 6
  where
    impossible :
        c.traffic_activation_attempted ≡ false
        → Ends
            (λ _. ⊥)
            (if c.maintenance_enabled then rollback env e else give_up env e (finish_failed env))
    impossible untried = elim (false≢true (sym untried ∙ tried)) [ ]

-- Where the context records an attempted activation, no failure is settled by a result: the
-- deployment raises.
pub settle-attempted :
    (env : Environment) (c : Context) (e : DployDbError) (w : World) (r : DeploymentResult)
    (w' : World)
    → c.traffic_activation_attempted ≡ true
    → ¬ (settle env c e w ≡ (returned r, w'))
settle-attempted env c e w r w' tried h = at_return (unreturned env c e tried) w tt r w' h
