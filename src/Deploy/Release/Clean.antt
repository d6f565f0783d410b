-- ===== src/Deploy/Release/Clean.antt =====
-- `deploy_configured_release` (dploydb/deploy.py) does not begin on top of an unfinished operation.
use dploy_db.Base.{◌≡◌, refl, Bool, true, false, not, Option, none, some}
use dploy_db.Models.Operation.{OperationManifest}
use dploy_db.Raised.{Raised, Outcome, returned, raised}
use dploy_db.World.{World, Environment}
use dploy_db.Exec.Keeps.{
  Post, Triple, Triple-bind, Triple-ask, Triple-try, Triple-pure, Triple-raise, Triple-weaken,
  at_value,
}
use dploy_db.Exec.Returns.{Anything, any, guard, given}
use dploy_db.Calls.{run}
use dploy_db.Operations.{latest_operation}
use dploy_db.Deploy.Finish.{DeploymentResult}
use dploy_db.Deploy.Release.{
  blocks_work, owner_left, refuse_latest, require_clean, locked_deployment, release_and_raise,
  deploy_configured_release,
}

-- There is no such operation, or it does not block new work.
abbrev pub unblocked : Option OperationManifest → Bool
unblocked none = true
unblocked (some m) = not (blocks_work m)

-- A look at the operations of `w` found no newest operation that blocks new work.
pub record FoundClean (env : Environment) (w : World) : Type 0 where
  pub latest : Option OperationManifest
  pub before : World
  pub after : World
  pub same_files : before.operations ≡ w.operations
  pub look : latest_operation env before ≡ (returned latest, after)
  pub free : unblocked latest ≡ true

module _ (env : Environment) (w0 : World) where
  abbrev Same : World → Type 0
  Same w = w.operations ≡ w0.operations

  -- What was looked at, and what was seen.
  abbrev Seen : Option OperationManifest → Type 0
  Seen latest =
      (v : World) × (v' : World) × (v.operations ≡ w0.operations)
      × (latest_operation env v ≡ (returned latest, v'))

  looked_post :
      (v : World) (x : Outcome (Option OperationManifest) × World)
      → Same v
      → latest_operation env v ≡ x
      → Post (λ latest w. Anything w × Seen latest) Anything x
  looked_post v (returned latest, v') same e = (tt, (v, v', same, e))
  looked_post v (raised r, v') same e = tt

  looked : Triple Same (latest_operation env) (λ latest w. Anything w × Seen latest) Anything
  looked = record { at = λ v same. looked_post v (latest_operation env v) same refl }

  accepted :
      (o : Option OperationManifest)
      → Triple Anything (refuse_latest env o) (λ _ w. Anything w × (unblocked o ≡ true)) Anything
  unfolding refuse_latest
  accepted none = Triple-pure tt (λ w h. (tt, refl))
  accepted (some m) =
      Triple-weaken Anything (λ _ w. Anything w × (blocks_work m ≡ false)) Anything (λ w h. h)
        (λ _ w h. (tt, rw h.1)) (λ w h. h) (guard (blocks_work m) _)

  clean : Triple Same (require_clean env) (λ _ w. Anything w × FoundClean env w0) Anything
  unfolding require_clean owner_left
  clean =
      Triple-bind (λ _. Same) _ _ (Triple-ask _ _ (λ w _ h _. h) (λ w _ h. tt))
        λ left. Triple-bind _ _ _ (guard _ _) λ _. given λ _. Triple-bind _ _ _ looked λ latest.
          given λ (v, v', same, look).
            Triple-weaken Anything (λ _ w. Anything w × (unblocked latest ≡ true)) Anything
              (λ w h. h) (λ _ w h. (tt, found latest v v' same look h.1)) (λ w h. h)
              (accepted latest)
    where
      found :
          (latest : Option OperationManifest) (v v' : World)
          → v.operations ≡ w0.operations
          → latest_operation env v ≡ (returned latest, v')
          → unblocked latest ≡ true
          → FoundClean env w0
      found latest v v' same look free = record {
        latest = latest;
        before = v;
        after = v';
        same_files = same;
        look = look;
        free = free;
      }

  locked : Triple Same (locked_deployment env) (λ _ w. Anything w × FoundClean env w0) Anything
  unfolding locked_deployment
  locked = Triple-bind _ _ _ clean λ _. given λ found.
      Triple-weaken Anything (λ _. Anything) Anything (λ w h. h) (λ _ w h. (tt, found)) (λ w h. h)
        (any _)

  never :
      (e : Raised)
      → Triple Anything
          (release_and_raise env {A = DeploymentResult} e)
          (λ _ w. Anything w × FoundClean env w0)
          Anything
  unfolding release_and_raise
  never e = Triple-bind (λ _. Anything) _ _ (any _) λ _. Triple-raise e (λ w h. tt)

  whole :
      Triple Same (deploy_configured_release env) (λ _ w. Anything w × FoundClean env w0) Anything
  unfolding deploy_configured_release run
  whole =
      Triple-bind (λ _. Same) _ _ (Triple-ask _ _ (λ w _ h _. h) (λ w _ h. tt))
        λ _. Triple-bind _ _ _ (Triple-try Anything _ _ locked never) λ r. given λ found.
          Triple-weaken Anything (λ _. Anything) Anything (λ w h. h) (λ _ w h. (tt, found))
            (λ w h. h) (any _)

-- A deployment that returns began with a look at the stored operations that found no newest operation
-- which is unfinished or requires recovery.
pub deploy_configured_release-FoundClean :
    (env : Environment) (w : World) (r : DeploymentResult)
    → (deploy_configured_release env w).0 ≡ returned r
    → FoundClean env w
deploy_configured_release-FoundClean env w r e = (at_value (whole env w) w refl r e).1
