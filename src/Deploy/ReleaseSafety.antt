-- ===== src/Deploy/ReleaseSafety.antt =====
-- The whole of `deploy_configured_release` (dploydb/deploy.py) keeps the restore before the switch.
use dploy_db.Base.{ℕ, ◌≡◌, refl, true, Option, none, some, List, []}
use dploy_db.Models.Operation.{OperationManifest}
use dploy_db.Raised.{Raised, dploydb, base_exception}
use dploy_db.World.{World, Environment, Context, Call, acquire_lock, record_owner, release_lock}
use dploy_db.Exec.{Exec}
use dploy_db.Exec.Keeps.{
  Keeps, Triple, Triple-bind, Triple-try, Triple-modify, Keeps-bind, Keeps-pure, Keeps-raise,
  Keeps-try, keeps_rules,
}
use dploy_db.Exec.Quiet.{On, Keeps-silent}
use dploy_db.Releases.Store.Reads
use dploy_db.Releases.Store.Quiet
use dploy_db.Operations.Reads as Reading
use dploy_db.Operations.Quiet as Trail
use dploy_db.Deploy.Calm.{Calm, Calm-Quiet, Calm-Silent, Calm-Unaware, Keeps-run}
use dploy_db.Deploy.Calm.Endings.{Keeps-finish_without_release}
use dploy_db.Deploy.Journal.{switched_in, restores_before_switch}
use dploy_db.Deploy.RestoreSafety.{deployment, after}
use dploy_db.Deploy.RestoreSafety.Watch.{Watched, Unswitched, Recorded, Watched-Calm, kept}
use dploy_db.Deploy.Release.{
  owner_left, refuse_latest, require_clean, failed_before_release, failed_after_release,
  begin_release, prepare_release, locked_deployment, keep_original, release_and_raise,
  deploy_configured_release,
}

module _ (env : Environment) (F : Context → List Call → Type 0) (calm : Calm F) where
  Keeps-owner_left : Keeps (On F) (owner_left env)
  unfolding owner_left
  Keeps-owner_left = Keeps-silent F (Calm-Quiet F calm) _

  Keeps-refuse_latest : (o : Option OperationManifest) → Keeps (On F) (refuse_latest env o)
  unfolding refuse_latest
  Keeps-refuse_latest none = Keeps-pure tt
  Keeps-refuse_latest (some m) = search keeps_rules

  pub Keeps-require_clean : Keeps (On F) (require_clean env)
  unfolding require_clean
  Keeps-require_clean = Keeps-bind _ _ Keeps-owner_left λ left.
      Keeps-bind _ _ (search keeps_rules) λ _.
        Keeps-bind _ _ (Reading.Keeps-latest_operation env (On F) (Calm-Silent F calm))
          Keeps-refuse_latest

  pub Keeps-failed_before_release :
      (o : ℕ) (e : Raised) → Keeps (On F) (failed_before_release env o e)
  unfolding failed_before_release
  Keeps-failed_before_release o (dploydb e) =
      Keeps-bind _ _ (Keeps-finish_without_release env F calm o e) (λ _. Keeps-raise _)
  Keeps-failed_before_release o (base_exception t) = Keeps-raise _
  Keeps-failed_before_release o _ =
      Keeps-bind _ _ (Keeps-finish_without_release env F calm o _) (λ _. Keeps-raise _)

  pub Keeps-failed_after_release : (e : Raised) → Keeps (On F) (failed_after_release env e)
  unfolding failed_after_release
  Keeps-failed_after_release (dploydb e) = Keeps-raise _
  Keeps-failed_after_release _ = Keeps-raise _

  Keeps-keep_original : (e : Raised) → Keeps (On F) (keep_original env e)
  unfolding keep_original
  Keeps-keep_original e = Keeps-pure tt

  pub Keeps-release_and_raise :
      {A : Type 0} (e : Raised) → Keeps (On F) (release_and_raise env {A = A} e)
  unfolding release_and_raise
  Keeps-release_and_raise e =
      Keeps-bind _ _ (Keeps-try _ _ (Keeps-run F calm env release_lock refl) Keeps-keep_original)
        (λ _. Keeps-raise e)

module _ (env : Environment) where
  calm : Calm (Watched Unswitched)
  calm = Watched-Calm Unswitched

  -- The new context does not matter while nothing has been activated.
  prepared :
      (o : ℕ)
      → Triple
          (On (Watched Unswitched))
          (prepare_release env o)
          (λ _. On (Watched Unswitched))
          (On (Watched Unswitched))
  unfolding prepare_release begin_release
  prepared o =
      Keeps-try _ _
        (Keeps-bind _ _ (Reads.Keeps-active_release env _ (Calm-Silent _ calm)) λ active.
          Keeps-bind _ _ (Quiet.Keeps-create_release env _ (Calm-Quiet _ calm) o _ _) λ release.
            Keeps-bind _ _ (Triple-modify {Q = λ _. On (Watched Unswitched)} _ (λ w h. h))
              λ _. Keeps-pure _)
        (Keeps-failed_before_release env _ calm o)

  locked :
      Triple
        (On (Watched Unswitched))
        (locked_deployment env)
        (λ _. On (Watched Recorded))
        (On (Watched Recorded))
  unfolding locked_deployment
  locked = Triple-bind _ _ _ (before (Keeps-require_clean env _ calm)) λ _.
      Triple-bind _ _ _
        (before (Trail.Keeps-create_operation env _ (Calm-Unaware _ calm) "deploy" _ _))
        λ o. Triple-bind _ _ _ (before (Keeps-run _ calm env record_owner refl)) λ _.
          Triple-bind _ _ _ (before (prepared o.operation_id)) λ r.
            Triple-try (On (Watched Recorded)) _ _ (deployment env)
              (Keeps-failed_after_release env _ (Watched-Calm Recorded))
    where
      before :
          {A : Type 0} {m : Exec A}
          → Keeps (On (Watched Unswitched)) m
          → Triple
              (On (Watched Unswitched))
              m
              (λ _. On (Watched Unswitched))
              (On (Watched Recorded))
      before k = kept Unswitched Recorded (λ a s h _. h) k

  whole :
      Triple
        (On (Watched Unswitched))
        (deploy_configured_release env)
        (λ _. On (Watched Recorded))
        (On (Watched Recorded))
  unfolding deploy_configured_release
  whole =
      Triple-bind _ _ _
        (kept Unswitched Recorded (λ a s h _. h) (Keeps-run _ calm env acquire_lock refl))
        λ _.
          Triple-bind _ _ _
            (Triple-try (On (Watched Recorded)) _ _ locked
              (Keeps-release_and_raise env _ (Watched-Calm Recorded)))
            λ r.
              Keeps-bind _ _ (Keeps-run _ (Watched-Calm Recorded) env release_lock refl)
                λ _. Keeps-pure r

-- A call of `deploy_configured_release` with an empty journal, whatever the outside answers and
-- wherever it fails, never restores the database after the activation hook may have run.
pub deploy_configured_release-restores_before_switch :
    (env : Environment) (w : World)
    → w.journal ≡ []
    → restores_before_switch (deploy_configured_release env w).1.journal ≡ true
unfolding restores_before_switch switched_in
deploy_configured_release-restores_before_switch env w fresh =
    after (deploy_configured_release env w) ((whole env).at w (rw fresh (refl, refl)))
