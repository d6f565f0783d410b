-- ===== src/Deploy/Calm/Endings.antt =====
-- The endings of a deployment (dploydb/deploy.py) other than the rollback keep every calm predicate.
use dploy_db.Base.{ℕ, refl, List, not}
use dploy_db.Errors.{DployDbError}
use dploy_db.Raised.{Raised, base_exception}
use dploy_db.World.{World, Environment, Context, Call, apply_retention}
use dploy_db.Exec.Keeps.{
  Keeps, Keeps-pure, Keeps-raise, Keeps-bind, Keeps-try, Keeps-gets, Keeps-when,
}
use dploy_db.Exec.Quiet.{On}
use dploy_db.Releases.Store.Reads
use dploy_db.Releases.Store.Quiet
use dploy_db.Operations.Reads as Trail
use dploy_db.Deploy.Finish.{
  ignore_exception, retention_failed, retain, complete_active, finish_failed,
  release_needs_recovery, operation_needs_recovery, finish_recovery, mark_release, mark_operation,
  fail_operation, finish_without_release,
}
use dploy_db.Models.Manifest.{is_terminal}
use dploy_db.Models.State.{is_terminal_operation}
use dploy_db.Deploy.Calm.{Calm, Calm-Quiet, Calm-Silent, Keeps-run}
use dploy_db.Deploy.Calm.Forward.{Keeps-operation, Keeps-event, Keeps-release}

Keeps-ignore_exception : {P : World → Type 0} (e : Raised) → Keeps P (ignore_exception e)
Keeps-ignore_exception (base_exception t) = Keeps-raise _
Keeps-ignore_exception _ = Keeps-pure tt

module _ (env : Environment) (F : Context → List Call → Type 0) (calm : Calm F) where
  Keeps-retention_failed : (o : ℕ) (e : Raised) → Keeps (On F) (retention_failed env o e)
  unfolding retention_failed
  Keeps-retention_failed o (base_exception t) = Keeps-raise _
  Keeps-retention_failed o _ = Keeps-event env F calm _ _ _

  Keeps-retain : (o : ℕ) → Keeps (On F) (retain env o)
  unfolding retain
  Keeps-retain o =
      Keeps-try _ _
        (Keeps-bind _ _ (Keeps-run F calm env apply_retention refl)
          λ _. Keeps-event env F calm _ _ _)
        (Keeps-retention_failed o)

  pub Keeps-complete_active : Keeps (On F) (complete_active env)
  unfolding complete_active
  Keeps-complete_active = Keeps-bind _ _ (Keeps-gets _) λ c.
      Keeps-bind _ _ (Keeps-release env F calm _ _ _) λ r.
        Keeps-bind _ _ (Quiet.Keeps-activate_release env F (Calm-Quiet F calm) _) λ _.
          Keeps-bind _ _
            (Keeps-when env.config.has_retention (retain env c.operation_id) (Keeps-retain _))
            λ _. Keeps-bind _ _ (Keeps-operation env F calm _ _ _ _ _ _ _) λ o. Keeps-pure _

  pub Keeps-finish_failed : (e : DployDbError) → Keeps (On F) (finish_failed env e)
  unfolding finish_failed
  Keeps-finish_failed e = Keeps-bind _ _ (Keeps-gets _) λ c.
      Keeps-bind _ _ (Keeps-release env F calm _ _ _)
        λ _. Keeps-bind _ _ (Keeps-operation env F calm _ _ _ _ _ _ _) λ _. Keeps-pure tt

  Keeps-mark_release : (e : DployDbError) (c : Context) → Keeps (On F) (mark_release env e c)
  unfolding mark_release
  Keeps-mark_release e c = Keeps-bind _ _ (Keeps-release env F calm _ _ _) (λ _. Keeps-pure tt)

  Keeps-mark_operation : (e : DployDbError) (c : Context) → Keeps (On F) (mark_operation env e c)
  unfolding mark_operation
  Keeps-mark_operation e c =
      Keeps-bind _ _ (Keeps-operation env F calm _ _ _ _ _ _ _) (λ _. Keeps-pure tt)

  Keeps-release_needs_recovery : (e : DployDbError) → Keeps (On F) (release_needs_recovery env e)
  unfolding release_needs_recovery
  Keeps-release_needs_recovery e = Keeps-bind _ _ (Keeps-gets _) λ c.
      Keeps-bind _ _ (Reads.Keeps-read_manifest env (On F) (Calm-Silent F calm) _)
        λ m. Keeps-when (not (is_terminal m.status)) (mark_release env e c) (Keeps-mark_release e c)

  Keeps-operation_needs_recovery :
      (e : DployDbError) → Keeps (On F) (operation_needs_recovery env e)
  unfolding operation_needs_recovery
  Keeps-operation_needs_recovery e = Keeps-bind _ _ (Keeps-gets _) λ c.
      Keeps-bind _ _ (Trail.Keeps-read_manifest env (On F) (Calm-Silent F calm) _) λ m.
        Keeps-when (not (is_terminal_operation m.status)) (mark_operation env e c)
          (Keeps-mark_operation e c)

  pub Keeps-finish_recovery : (e : DployDbError) → Keeps (On F) (finish_recovery env e)
  unfolding finish_recovery
  Keeps-finish_recovery e =
      Keeps-bind _ _ (Keeps-try _ _ (Keeps-release_needs_recovery e) Keeps-ignore_exception)
        λ _. Keeps-try _ _ (Keeps-operation_needs_recovery e) Keeps-ignore_exception

  Keeps-fail_operation : (o : ℕ) (e : DployDbError) → Keeps (On F) (fail_operation env o e)
  unfolding fail_operation
  Keeps-fail_operation o e =
      Keeps-bind _ _ (Keeps-operation env F calm _ _ _ _ _ _ _) (λ _. Keeps-pure tt)

  pub Keeps-finish_without_release :
      (o : ℕ) (e : DployDbError) → Keeps (On F) (finish_without_release env o e)
  unfolding finish_without_release
  Keeps-finish_without_release o e =
      Keeps-bind _ _ (Trail.Keeps-read_manifest env (On F) (Calm-Silent F calm) o) λ m.
        Keeps-when (not (is_terminal_operation m.status)) (fail_operation env o e)
          (Keeps-fail_operation o e)
