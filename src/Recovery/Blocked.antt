-- ===== src/Recovery/Blocked.antt =====
-- Which releases `recover_configured_deployment` (dploydb/recovery.py) can recover: what it asks of
-- the stored release when it takes ownership.
use dploy_db.Base.{ℕ, ◌≡◌, refl, Bool, true, false, some, List, [], ◌∷◌, lookup, arith}
use dploy_db.Models.State.{DeploymentState, active, rolled_back, state_in, state_is, state_index}
use dploy_db.Models.Manifest.{ReleaseManifest, is_terminal}
use dploy_db.Raised.{Raised, returned}
use dploy_db.World.{World, Environment}
use dploy_db.Exec.{Exec}
use dploy_db.Exec.Keeps.{
  Keeps, Triple, Triple-bind, Triple-pure, Triple-raise, Triple-try, Triple-if, Triple-weaken,
  Triple-ask, at_value,
}
use dploy_db.Exec.Quiet.{Unaware, Unaware-Silent}
use dploy_db.Exec.Returns.{Anything, any, guard, given}
use dploy_db.Calls.{run}
use dploy_db.Releases.Store.Effects.{read_manifest-Found, Found, transition-Replaced}
use dploy_db.Releases.Graph.{transition-Advanced}
use dploy_db.Operations.Reads as Trail
use dploy_db.Deploy.Release.{release_and_raise}
use dploy_db.Recovery.{RecoveryPlan}
use dploy_db.Recovery.Diagnose.Reads.{Undisturbed, Keeps-diagnose}
use dploy_db.Recovery.Ownership.{
  ownership_changes, require_recovery, mark_release, take_recovery_ownership,
}
use dploy_db.Recovery.Ownership.Keeps.{Keeps-acknowledged_stale_owner, Keeps-take_over_all}
use dploy_db.Recovery.Execute.{RecoveryResult}
use dploy_db.Recovery.Recover.{recover_by, locked_recovery, recover_configured_deployment}

-- `status in {ACTIVE, ROLLED_BACK, FAILED_SAFE}`
abbrev pub has_ended : ReleaseManifest → Bool
has_ended m = state_in m.status (active ∷ rolled_back ∷ DeploymentState.failed_safe ∷ [])

-- Every stored release has ended.
abbrev pub AllEnded : List (ℕ × ReleaseManifest) → Type 0
AllEnded files = (id : ℕ) (m : ReleaseManifest) → lookup id files ≡ some m → has_ended m ≡ true

ended_terminal : (m : ReleaseManifest) → has_ended m ≡ true → is_terminal m.status ≡ true
unfolding is_terminal state_in state_is state_index
ended_terminal m h = ground arith

ended_not_recovery :
    (m : ReleaseManifest)
    → has_ended m ≡ true
    → state_is m.status DeploymentState.recovery_required ≡ false
unfolding state_in state_is state_index
ended_not_recovery m h = ground arith

module _ (env : Environment) (files : List (ℕ × ReleaseManifest)) (all : AllEnded files) where
  abbrev Same : World → Type 0
  Same w = w.releases ≡ files

  undisturbed : Undisturbed Same
  undisturbed = record { at_silent = λ w h. h; at_ran = λ w a b e h. h }

  unaware : Unaware Same
  unaware = record { at_silent = λ w h. h; at_operations = λ w o h. h }

  abbrev SameOrRaised : {A : Type 0} → Exec A → Type 0
  SameOrRaised m = Triple Same m (λ _. Same) Anything

  kept : {A : Type 0} {m : Exec A} → Keeps Same m → SameOrRaised m
  kept k = Triple-weaken Same (λ _. Same) Same (λ w h. h) (λ a w h. h) (λ w h. tt) k

  -- A release that has ended cannot be asked to require recovery.
  not_required :
      (plan : RecoveryPlan) (m : ReleaseManifest)
      → lookup m.release_id files ≡ some m
      → Triple Same (require_recovery env plan m) (λ _ _. ⊥) Anything
  unfolding require_recovery
  not_required plan m there =
      Triple-bind _ _ _
        (Triple-weaken Same _ _ (λ w h. h) (λ m w h. h) (λ w h. tt)
          (transition-Replaced env m.release_id DeploymentState.recovery_required
            (ownership_changes plan) files))
        λ new. Triple-pure tt (λ w r.
          impossible r.before (r.was) (transition-Advanced r.before r.time _ _ r.step).open_before)
    where
      impossible :
          (before : ReleaseManifest)
          → lookup m.release_id files ≡ some before
          → is_terminal before.status ≡ false
          → ⊥
      impossible before was open_before =
          ground (arith, ended_terminal before (all m.release_id before was))

  not_marked :
      (plan : RecoveryPlan) (m : ReleaseManifest)
      → lookup m.release_id files ≡ some m
      → Triple Same (mark_release env plan m) (λ _ _. ⊥) Anything
  unfolding mark_release
  not_marked plan m there =
      Triple-if _ _ _ (λ h. elim (ended_contradiction h) [ ]) (λ _. not_required plan m there)
    where
      ended_contradiction : state_is m.status DeploymentState.recovery_required ≡ true → ⊥
      ended_contradiction h = ground (arith, ended_not_recovery m (all m.release_id m there))

  not_taken :
      (plan : RecoveryPlan) (m : ReleaseManifest)
      → lookup m.release_id files ≡ some m
      → Triple Same (take_recovery_ownership env plan m) (λ _ _. ⊥) Anything
  unfolding take_recovery_ownership
  not_taken plan m there =
      Triple-bind _ _ _ (kept (Trail.Keeps-list_operations env Same (Unaware-Silent Same unaware)))
        λ os.
          Triple-bind _ _ _ (kept (Keeps-take_over_all env Same unaware plan os))
            λ _. not_marked plan m there

  -- Every way through returns nothing.
  abbrev Nothing : Exec RecoveryResult → Type 0
  Nothing m = Triple Same m (λ _ _. ⊥) Anything

  abbrev Stored : ℕ → ReleaseManifest → Type 0
  Stored id m = (lookup id files ≡ some m) × (m.release_id ≡ id)

  not_recovered : (plan : RecoveryPlan) → Nothing (recover_by env plan)
  unfolding recover_by
  not_recovered plan =
      Triple-bind _ _ _
        (Triple-weaken {Q = λ m w. Same w × Stored plan.release_id m} Same
          (Found env plan.release_id files) Same (λ w h. h) (λ m w h. (h.0, (h.1, h.3))) (λ w h. tt)
          (read_manifest-Found env plan.release_id files))
        λ m. given λ (there, named).
          Triple-bind _ _ _
            (kept (Keeps-acknowledged_stale_owner env Same (Unaware-Silent Same unaware) plan))
            λ _. Triple-bind _ _ _ (not_taken plan m cc) λ _. record { at = λ w h. elim h [ ] }

  locked : Nothing (locked_recovery env)
  unfolding locked_recovery
  locked =
      Triple-bind _ _ _ (kept (Keeps-diagnose env Same undisturbed false))
        λ plan. Triple-bind _ _ _ (guard _ _) λ _. given λ _. not_recovered plan

  unlocked :
      (e : Raised)
      → Triple Anything (release_and_raise env {A = RecoveryResult} e) (λ _ _. ⊥) Anything
  unfolding release_and_raise
  unlocked e = Triple-bind {A = Unit} (λ _. Anything) _ _ (any _) λ _. Triple-raise e (λ w h. tt)

  never : Nothing (recover_configured_deployment env)
  unfolding recover_configured_deployment run
  never =
      Triple-bind (λ _. Same) _ _ (Triple-ask _ _ (λ w _ h _. h) (λ w _ h. tt))
        λ _.
          Triple-bind _ _ _ (Triple-try Anything _ _ locked unlocked)
            λ r. record { at = λ w h. elim h [ ] }

-- Where every stored release is active, rolled back or failed safely, a recovery returns no result,
-- whatever it finds of operations, owners and live applications: also where the newest operation
-- was interrupted after its release had reached that state and before it ended itself.
pub recover_configured_deployment-needs_open :
    (env : Environment) (w : World) (r : RecoveryResult)
    → AllEnded w.releases
    → ¬ ((recover_configured_deployment env w).0 ≡ returned r)
recover_configured_deployment-needs_open env w r all e =
    at_value (never env w.releases all) w refl r e
