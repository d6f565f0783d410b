-- ===== src/Releases/Store/Quiet.antt =====
-- The release store (dploydb/releases.py) changes neither the coordinator's context nor any fact
-- about the calls that were made.
use dploy_db.Base.{ℕ, String, Bool, Option, none, some, List}
use dploy_db.Models.State.{DeploymentState}
use dploy_db.Models.Manifest.{ReleaseManifest, ReleasePointers, ProductionApplicationHandle}
use dploy_db.World.{Environment, Context, Call}
use dploy_db.Exec.Keeps.{Keeps, Keeps-bind, Keeps-lift, keeps_rules}
use dploy_db.Exec.Quiet.{On, Quiet, Silent, Quiet-Silent, Keeps-save}
use dploy_db.Releases.{Changes}
use dploy_db.Releases.Store.{
  now, fresh_id, read_manifest, write_manifest, transition, record_recovery_intent,
  resolve_recovery, read_pointers, activate_release, keep_or_select, select, reread_pointers,
  create_release,
}
use dploy_db.Releases.Store.Reads.{
  Keeps-now, Keeps-fresh_id, Keeps-read_manifest, Keeps-read_pointers,
}

module _ (env : Environment) (F : Context → List Call → Type 0) (q : Quiet F) where
  reads : Silent (On F)
  reads = Quiet-Silent F q

  one_read : (id : ℕ) → Keeps (On F) (read_manifest env id)
  one_read id = Keeps-read_manifest env (On F) reads id

  timed : Keeps (On F) (now env)
  timed = Keeps-now env (On F) reads

  pointers_read : Keeps (On F) (read_pointers env)
  pointers_read = Keeps-read_pointers env (On F) reads

  named : Keeps (On F) (fresh_id env)
  named = Keeps-fresh_id env (On F) reads

  pub Keeps-write_manifest : (m : ReleaseManifest) → Keeps (On F) (write_manifest env m)
  unfolding write_manifest
  Keeps-write_manifest m = Keeps-bind _ _ (Keeps-lift _) (λ p. Keeps-save F q _ _ (λ w h. h))

  pub Keeps-transition :
      (id : ℕ) (s : DeploymentState) (c : Changes) → Keeps (On F) (transition env id s c)
  unfolding transition
  Keeps-transition id s c = search (keeps_rules, one_read, timed, Keeps-write_manifest) depth 9

  pub Keeps-record_recovery_intent :
      (id : ℕ) (migration activation : Bool)
      → Keeps (On F) (record_recovery_intent env id migration activation)
  unfolding record_recovery_intent
  Keeps-record_recovery_intent id migration activation =
      search (keeps_rules, one_read, timed, Keeps-write_manifest) depth 9

  pub Keeps-resolve_recovery :
      (id : ℕ) (s : DeploymentState) (recovery : ℕ) (activated : Bool)
      → Keeps (On F) (resolve_recovery env id s recovery activated)
  unfolding resolve_recovery
  Keeps-resolve_recovery id s recovery activated =
      search (keeps_rules, one_read, timed, Keeps-write_manifest) depth 9

  Keeps-reread_pointers : (o : Option ReleasePointers) → Keeps (On F) (reread_pointers env o)
  unfolding reread_pointers
  Keeps-reread_pointers none = search keeps_rules
  Keeps-reread_pointers (some p) = search keeps_rules

  Keeps-select : (id : ℕ) (o : Option ReleasePointers) → Keeps (On F) (select env id o)
  unfolding select
  Keeps-select id o = Keeps-bind _ _ timed λ t. Keeps-bind _ _ (Keeps-lift _) λ p.
      Keeps-bind _ _ (Keeps-save F q _ _ (λ w h. h))
        λ _. Keeps-bind _ _ pointers_read Keeps-reread_pointers

  Keeps-keep_or_select :
      (id : ℕ) (o : Option ReleasePointers) → Keeps (On F) (keep_or_select env id o)
  unfolding keep_or_select
  Keeps-keep_or_select id none = Keeps-select id none
  Keeps-keep_or_select id (some p) = search (keeps_rules, Keeps-select)

  pub Keeps-activate_release : (id : ℕ) → Keeps (On F) (activate_release env id)
  unfolding activate_release
  Keeps-activate_release id =
      search (keeps_rules, one_read, pointers_read, Keeps-keep_or_select) depth 9

  pub Keeps-create_release :
      (operation : ℕ) (log : String) (previous : Option ProductionApplicationHandle)
      → Keeps (On F) (create_release env operation log previous)
  unfolding create_release
  Keeps-create_release operation log previous =
      search (keeps_rules, pointers_read, timed, Keeps-write_manifest, one_read, named) depth 12
