-- ===== src/Recovery/Diagnose/Reads.antt =====
-- Diagnosis (dploydb/recovery.py) writes nothing and restores nothing: it keeps every predicate that
-- only a restore of the database or a durable write can end.
use dploy_db.Base.{ℕ, ◌≡◌, refl, Bool, true, false, Option, none, some, List, ◌∷◌}
use dploy_db.Models.Manifest.{ProductionApplicationHandle, ReleaseManifest}
use dploy_db.Models.Operation.{OperationManifest}
use dploy_db.Raised.{Raised, dploydb, production_inspection_error, base_exception, Outcome}
use dploy_db.World.{
  World, Environment, Context, Call, Action, silent, ran, inspect_live, prove_absent, open_backup,
  digest,
}
use dploy_db.Exec.{ask}
use dploy_db.Exec.Keeps.{
  Keeps, Keeps-pure, Keeps-raise, Keeps-bind, Keeps-lift, Keeps-try, Keeps-when, Triple-ask,
  keeps_rules,
}
use dploy_db.Exec.Quiet.{On, Silent, Keeps-silent_call}
use dploy_db.Calls.{ran_entry}
use dploy_db.Releases.Store.Reads
use dploy_db.Operations.Reads as Trail
use dploy_db.Deploy.Calm.{Calm, is_restore}
use dploy_db.Recovery.Diagnose.{
  refuse_held, not_inspected, inspect_handle, inspect_application, not_proven, prove_release_absent,
  known_or_absent, inspect_new_application, open_verified, not_verified, compare_backup,
  final_facts, no_digest, production_digest, require_operations, plan_for, diagnose,
}

pub record Undisturbed (P : World → Type 0) : Type 0 where
  pub at_silent : (w : World) → P w → P (record w { journal = silent ∷ w.journal })
  pub at_ran :
      (w : World) (a : Action) (b : Bool)
      → is_restore a ≡ false
      → P w
      → P (record w { journal = ran a b ∷ w.journal })

pub Undisturbed-Silent : (P : World → Type 0) → Undisturbed P → Silent P
Undisturbed-Silent P u = record { at_silent = u.at_silent }

pub Calm-Undisturbed : (F : Context → List Call → Type 0) → Calm F → Undisturbed (On F)
Calm-Undisturbed F calm = record {
  at_silent = λ w h. calm.at_silent w.context w.journal h;
  at_ran = λ w a b e h. calm.at_ran w.context w.journal a b e h;
}

module _ (env : Environment) (P : World → Type 0) (u : Undisturbed P) where
  quiet : Silent P
  quiet = Undisturbed-Silent P u

  Keeps-ran :
      {A : Type 0} (answer : List Call → Outcome A) (a : Action)
      → is_restore a ≡ false
      → Keeps P (ask answer (ran_entry a))
  Keeps-ran answer a h =
      Triple-ask answer (ran_entry a) (λ w _ p _. u.at_ran w a true h p)
        (λ w _ p. u.at_ran w a false h p)

  Keeps-refuse_held : Keeps P (refuse_held env)
  unfolding refuse_held
  Keeps-refuse_held = Keeps-bind _ _ (Keeps-silent_call P quiet _) λ lock. search keeps_rules

  Keeps-not_inspected : (e : Raised) → Keeps P (not_inspected env e)
  unfolding not_inspected
  Keeps-not_inspected (production_inspection_error m) = Keeps-pure _
  Keeps-not_inspected (dploydb e) = Keeps-raise _
  Keeps-not_inspected _ = Keeps-raise _

  Keeps-inspect_application :
      (o : Option ProductionApplicationHandle) → Keeps P (inspect_application env o)
  unfolding inspect_application inspect_handle
  Keeps-inspect_application none = Keeps-pure _
  Keeps-inspect_application (some h) =
      Keeps-try _ _ (Keeps-bind _ _ (Keeps-ran _ inspect_live refl) λ i. Keeps-pure _)
        Keeps-not_inspected

  Keeps-not_proven : (e : Raised) → Keeps P (not_proven env e)
  unfolding not_proven
  Keeps-not_proven (base_exception t) = Keeps-raise _
  Keeps-not_proven _ = Keeps-pure _

  Keeps-prove_release_absent : (r : ReleaseManifest) → Keeps P (prove_release_absent env r)
  unfolding prove_release_absent
  Keeps-prove_release_absent r =
      Keeps-try _ _ (Keeps-bind _ _ (Keeps-ran _ prove_absent refl) λ p. Keeps-pure _)
        Keeps-not_proven

  Keeps-inspect_new_application : (r : ReleaseManifest) → Keeps P (inspect_new_application env r)
  unfolding inspect_new_application known_or_absent
  Keeps-inspect_new_application r =
      Keeps-bind _ _ (Keeps-inspect_application _)
        λ s. search (keeps_rules, Keeps-prove_release_absent)

  pub Keeps-open_verified : (id : ℕ) → Keeps P (open_verified env id)
  unfolding open_verified
  Keeps-open_verified id = Keeps-ran _ open_backup refl

  Keeps-not_verified : (e : Raised) → Keeps P (not_verified env e)
  unfolding not_verified
  Keeps-not_verified (base_exception t) = Keeps-raise _
  Keeps-not_verified _ = Keeps-pure _

  Keeps-final_facts : (o recorded : Option ℕ) → Keeps P (final_facts env o recorded)
  unfolding final_facts compare_backup
  Keeps-final_facts none recorded = Keeps-pure _
  Keeps-final_facts (some id) recorded =
      Keeps-try _ _ (Keeps-bind _ _ (Keeps-open_verified id) λ a. Keeps-pure _) Keeps-not_verified

  Keeps-no_digest : (e : Raised) → Keeps P (no_digest env e)
  unfolding no_digest
  Keeps-no_digest (base_exception t) = Keeps-raise _
  Keeps-no_digest _ = Keeps-pure _

  Keeps-production_digest : Keeps P (production_digest env)
  unfolding production_digest
  Keeps-production_digest =
      Keeps-try _ _ (Keeps-bind _ _ (Keeps-ran _ digest refl) λ d. Keeps-pure _) Keeps-no_digest

  Keeps-plan_for : (r : ReleaseManifest) (o : OperationManifest) → Keeps P (plan_for env r o)
  unfolding plan_for
  Keeps-plan_for r o = Keeps-bind _ _ (Trail.Keeps-read_events env P quiet _) λ es.
      Keeps-bind _ _ (Keeps-inspect_application _) λ p.
        Keeps-bind _ _ (Keeps-inspect_new_application r) λ n.
          Keeps-bind _ _ (Keeps-final_facts _ _)
            λ f. Keeps-bind _ _ Keeps-production_digest λ d. Keeps-pure _

  pub Keeps-require_operations : (ms : List OperationManifest) → Keeps P (require_operations env ms)
  unfolding require_operations
  Keeps-require_operations ms = search keeps_rules

  pub Keeps-diagnose : (b : Bool) → Keeps P (diagnose env b)
  unfolding diagnose
  Keeps-diagnose b = Keeps-bind _ _ (Keeps-when b (refuse_held env) Keeps-refuse_held) λ _.
      Keeps-bind _ _ (Trail.Keeps-list_operations env P quiet) λ os.
        Keeps-bind _ _ (Keeps-require_operations os) λ _.
          Keeps-bind _ _ (Reads.Keeps-read_history env P quiet) λ h.
            Keeps-bind _ _ (Keeps-lift _)
              λ _. Keeps-bind _ _ (Keeps-lift _) λ s. Keeps-plan_for s.0 s.1
