-- ===== src/Deploy/Calm.antt =====
-- Predicates of the context and the journal that only two calls can end: the restore of the database
-- and the hook that activates new traffic. All other steps of a deployment (dploydb/deploy.py,
-- dploydb/candidate.py, dploydb/cutover.py) keep each of them.
pub mod Forward
pub mod Stages
pub mod Endings
pub mod Return
use dploy_db.Base.{ℕ, String, ◌≡◌, refl, Bool, true, false, Option, none, some, List, ◌∷◌}
use dploy_db.Command.{TrafficAction, activate_new, TrafficHookResult}
use dploy_db.Errors.{DployDbError}
use dploy_db.Models.Manifest.{ProductionApplicationHandle}
use dploy_db.Raised.{
  Raised, dploydb, production_start_error, production_cleanup_error, production_inspection_error,
  production_runner_error, readiness_check_error, smoke_check_error, other_exception,
  base_exception, Outcome, returned, raised,
}
use dploy_db.World.{
  World, Environment, Context, Action, Call, silent, ran, hook, restore, BackupPurpose,
  BackupArtifact, ProductionStop, create_backup, verify_backup, replicate, inspect, discover, stop,
  start,
}
use dploy_db.Exec.{Exec, ask, modify}
use dploy_db.Exec.Keeps.{
  Keeps, Keeps-pure, Keeps-raise, Keeps-bind, Keeps-try, Triple-ask, Triple-modify, keeps_rules,
}
use dploy_db.Exec.Quiet.{On, Quiet, Silent, Quiet-Silent, Unaware, Quiet-Unaware}
use dploy_db.Calls.{
  ran_entry, hook_entry, run, run_command, run_hook, inject, make_backup, check_backup,
  replicate_backup, inspect_application, discover_current, stop_current, start_new,
}
use dploy_db.Deploy.Steps.{require_some}

abbrev pub is_restore : Action → Bool
is_restore restore = true
is_restore _ = false

abbrev pub is_activation : TrafficAction → Bool
is_activation activate_new = true
is_activation _ = false

pub record Calm (F : Context → List Call → Type 0) : Type 0 where
  pub at_silent : (c : Context) (j : List Call) → F c j → F c (silent ∷ j)
  pub at_ran :
      (c : Context) (j : List Call) (a : Action) (b : Bool)
      → is_restore a ≡ false
      → F c j
      → F c (ran a b ∷ j)
  pub at_hook :
      (c : Context) (j : List Call) (a : TrafficAction) (r : Option TrafficHookResult)
      → is_activation a ≡ false
      → F c j
      → F c (hook a r ∷ j)
  pub at_context :
      (c d : Context) (j : List Call)
      → c.traffic_activation_attempted ≡ d.traffic_activation_attempted
      → F c j
      → F d j

pub Calm-Quiet : (F : Context → List Call → Type 0) → Calm F → Quiet F
Calm-Quiet F calm = record { at_silent = calm.at_silent }

pub Calm-Silent : (F : Context → List Call → Type 0) → Calm F → Silent (On F)
Calm-Silent F calm = Quiet-Silent F (Calm-Quiet F calm)

pub Calm-Unaware : (F : Context → List Call → Type 0) → Calm F → Unaware (On F)
Calm-Unaware F calm = Quiet-Unaware F (Calm-Quiet F calm)

module _ (F : Context → List Call → Type 0) (calm : Calm F) where
  pub Keeps-ran :
      {A : Type 0} (answer : List Call → Outcome A) (a : Action)
      → is_restore a ≡ false
      → Keeps (On F) (ask answer (ran_entry a))
  Keeps-ran answer a h =
      Triple-ask answer (ran_entry a) (λ w _ p _. calm.at_ran w.context w.journal a true h p)
        (λ w _ p. calm.at_ran w.context w.journal a false h p)

  pub Keeps-context :
      (f : Context → Context)
      → ((c : Context) → c.traffic_activation_attempted ≡ (f c).traffic_activation_attempted)
      → Keeps (On F) (modify f)
  Keeps-context f same =
      Triple-modify f (λ w p. calm.at_context w.context _ w.journal (same w.context) p)

  module _ (env : Environment) where
    pub Keeps-run : (a : Action) → is_restore a ≡ false → Keeps (On F) (run env a)
    unfolding run
    Keeps-run a h = Keeps-ran _ a h

    pub Keeps-run_command : (a : Action) → is_restore a ≡ false → Keeps (On F) (run_command env a)
    unfolding run_command
    Keeps-run_command a h = Keeps-ran _ a h

    pub Keeps-run_hook :
        (a : TrafficAction) → is_activation a ≡ false → Keeps (On F) (run_hook env a)
    unfolding run_hook
    Keeps-run_hook a h =
        Triple-ask _ (hook_entry a) (λ w r p _. calm.at_hook w.context w.journal a (some r) h p)
          (λ w _ p. calm.at_hook w.context w.journal a none h p)

    pub Keeps-inject : (stage : String) → Keeps (On F) (inject env stage)
    unfolding inject
    Keeps-inject stage =
        Triple-ask _ (λ _. silent) (λ w _ p _. calm.at_silent w.context w.journal p)
          (λ w _ p. calm.at_silent w.context w.journal p)

    pub Keeps-make_backup : (p : BackupPurpose) (o : ℕ) → Keeps (On F) (make_backup env p o)
    unfolding make_backup
    Keeps-make_backup p o = Keeps-ran _ create_backup refl

    pub Keeps-check_backup : (id : ℕ) → Keeps (On F) (check_backup env id)
    unfolding check_backup
    Keeps-check_backup id = Keeps-ran _ verify_backup refl

    pub Keeps-replicate_backup :
        (b : BackupArtifact) (r : ℕ) → Keeps (On F) (replicate_backup env b r)
    unfolding replicate_backup
    Keeps-replicate_backup b r = Keeps-ran _ replicate refl

    pub Keeps-inspect_application :
        (h : ProductionApplicationHandle) (b : Bool) → Keeps (On F) (inspect_application env h b)
    unfolding inspect_application
    Keeps-inspect_application h b = Keeps-ran _ inspect refl

    pub Keeps-discover_current : Keeps (On F) (discover_current env)
    unfolding discover_current
    Keeps-discover_current = Keeps-ran _ discover refl

    pub Keeps-stop_current : (h : ProductionApplicationHandle) → Keeps (On F) (stop_current env h)
    unfolding stop_current
    Keeps-stop_current h = Keeps-ran _ stop refl

    pub Keeps-start_new : Keeps (On F) (start_new env)
    unfolding start_new
    Keeps-start_new = Keeps-ran _ start refl

pub Keeps-require_some : {A : Type 0} {P : World → Type 0} (o : Option A) → Keeps P (require_some o)
Keeps-require_some none = Keeps-raise _
Keeps-require_some (some a) = Keeps-pure a
