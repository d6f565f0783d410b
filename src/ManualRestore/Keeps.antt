-- ===== src/ManualRestore/Keeps.antt =====
-- dploydb/manual_restore.py: the calls and the stores keep a fact which only a restore of the database and the
-- hook that sends traffic to the selected release could end.
pub mod Steps
use dploy_db.Base.{ℕ, String, refl, Bool, true, false, Option, none, some, List, [], ◌∷◌, ◌≡◌}
use dploy_db.Command.{
  TrafficAction, activate_old, enable_maintenance, disable_maintenance, activate_new,
  TrafficHookResult,
}
use dploy_db.Errors.{DployDbError}
use dploy_db.Models.State.{OperationStatus, in_progress, SafetyFacts, FailureRecord}
use dploy_db.Models.Manifest.{ProductionApplicationHandle, ReleaseManifest, ReleasePointers}
use dploy_db.Models.Operation.{Evidence, OperationManifest}
use dploy_db.Raised.{Raised, dploydb, base_exception, Outcome}
use dploy_db.World.{
  World, Environment, Action, Call, silent, ran, hook, RestoreContext, BackupArtifact, pre_restore,
  OperationFile, create_backup, inspect, stop, restart, verify_sqlite, check_health, release_lock,
}
use dploy_db.Exec.{Exec, ask, modify_restore, ◌>>=◌}
use dploy_db.Exec.Keeps.{
  Keeps, Keeps-pure, Keeps-raise, Keeps-bind, Keeps-lift, Keeps-gets, Keeps-try, Keeps-if,
  Triple-ask, Triple-save, Triple-modify_restore, keeps_rules,
}
use dploy_db.Exec.Quiet.{Silent, Unaware, Keeps-silent_call}
use dploy_db.Calls.{
  ran_entry, hook_entry, run, run_hook, inject, make_backup, inspect_application, stop_current,
}
use dploy_db.Releases.Store
use dploy_db.Releases.Store.{keep_or_select, select, reread_pointers, read_releases, read_history}
use dploy_db.Releases.Store.Reads as Reads
use dploy_db.Operations
use dploy_db.Operations.Quiet as Trail
use dploy_db.Operations.Reads as Reading
use dploy_db.Deploy.Calm.{is_restore, Keeps-require_some}
use dploy_db.Deploy.Release.{
  owner_left, refuse_latest, require_clean, release_and_raise, keep_original,
}
use dploy_db.Recovery.Diagnose.{open_verified}
use dploy_db.ManualRestore.{
  RestoreSelection, require_selected, require_protected, select_applications, select_backup,
  preview_configured_restore,
}
use dploy_db.ManualRestore.Run.{
  event, stage, record_restore_hook, restore_maintenance_failed, restore_maintenance_passed,
  enable_restore_maintenance, mark_failed, fail_in_progress, finish_restore_failure,
  prepare_restore, stop_selected, start_selected, require_restore_hook, expose,
}

abbrev pub is_old_target : TrafficAction → Bool
is_old_target activate_old = true
is_old_target _ = false

-- What most steps leave alone: the record of an attempted activation, the selected backup and the
-- result of the database restore.
abbrev pub SameCourse : RestoreContext → RestoreContext → Type 0
SameCourse c d =
    (c.traffic_activation_attempted ≡ d.traffic_activation_attempted)
    × (c.selected_backup ≡ d.selected_backup)
    × (c.database_restore ≡ d.database_restore)

-- What a fact must bear.
pub record Steady (P : World → Type 0) : Type 0 where
  pub at_silent : (w : World) → P w → P (record w { journal = silent ∷ w.journal })
  pub at_ran :
      (w : World) (a : Action) (b : Bool)
      → is_restore a ≡ false
      → P w
      → P (record w { journal = ran a b ∷ w.journal })
  pub at_hook :
      (w : World) (a : TrafficAction) (r : Option TrafficHookResult)
      → is_old_target a ≡ false
      → P w
      → P (record w { journal = hook a r ∷ w.journal })
  pub at_operations :
      (w : World) (o : List (ℕ × OperationFile)) → P w → P (record w { operations = o })
  pub at_pointers : (w : World) (p : Option ReleasePointers) → P w → P (record w { pointers = p })
  pub at_restoring :
      (w : World) (d : RestoreContext)
      → SameCourse w.restoring d
      → P w
      → P (record w { restoring = d })

module _ (env : Environment) (P : World → Type 0) (s : Steady P) where
  pub reads : Silent P
  reads = record { at_silent = s.at_silent }

  pub unaware : Unaware P
  unaware = record { at_silent = s.at_silent; at_operations = s.at_operations }

  pub Keeps-ran :
      {A : Type 0} (answer : List Call → Outcome A) (a : Action)
      → is_restore a ≡ false
      → Keeps P (ask answer (ran_entry a))
  Keeps-ran answer a h =
      Triple-ask answer (ran_entry a) (λ w _ p _. s.at_ran w a true h p)
        (λ w _ p. s.at_ran w a false h p)

  pub Keeps-run : (a : Action) → is_restore a ≡ false → Keeps P (run env a)
  unfolding run
  Keeps-run a h = Keeps-ran _ a h

  pub Keeps-run_hook : (a : TrafficAction) → is_old_target a ≡ false → Keeps P (run_hook env a)
  unfolding run_hook
  Keeps-run_hook a h =
      Triple-ask _ (hook_entry a) (λ w r p _. s.at_hook w a (some r) h p)
        (λ w _ p. s.at_hook w a none h p)

  pub Keeps-inject : (name : String) → Keeps P (inject env name)
  unfolding inject
  Keeps-inject name = Keeps-silent_call P reads _

  pub Keeps-make_backup : (o : ℕ) → Keeps P (make_backup env pre_restore o)
  unfolding make_backup
  Keeps-make_backup o = Keeps-ran _ create_backup refl

  pub Keeps-inspect_application :
      (h : ProductionApplicationHandle) (b : Bool) → Keeps P (inspect_application env h b)
  unfolding inspect_application
  Keeps-inspect_application h b = Keeps-ran _ inspect refl

  pub Keeps-stop_current : (h : ProductionApplicationHandle) → Keeps P (stop_current env h)
  unfolding stop_current
  Keeps-stop_current h = Keeps-ran _ stop refl

  pub Keeps-progress :
      (f : RestoreContext → RestoreContext)
      → ((c : RestoreContext) → SameCourse c (f c))
      → Keeps P (modify_restore f)
  Keeps-progress f same = Triple-modify_restore f (λ w p. s.at_restoring w _ (same w.restoring) p)

  pub Keeps-open_verified : (id : ℕ) → Keeps P (open_verified env id)
  unfolding open_verified
  Keeps-open_verified id = Keeps-ran _ _ refl

  pub Keeps-reread_pointers : (o : Option ReleasePointers) → Keeps P (reread_pointers env o)
  unfolding reread_pointers
  Keeps-reread_pointers none = search keeps_rules
  Keeps-reread_pointers (some p) = search keeps_rules

  pub Keeps-select : (id : ℕ) (o : Option ReleasePointers) → Keeps P (select env id o)
  unfolding select
  Keeps-select id o = Keeps-bind _ _ (Reads.Keeps-now env P reads) λ t.
      Keeps-bind _ _ (Keeps-lift _) λ p.
        Keeps-bind _ _
          (Triple-save _ _ (λ w h. s.at_pointers _ _ (s.at_silent w h))
            (λ w h. s.at_pointers _ _ (s.at_silent w h)) (λ w h. s.at_silent w h))
          λ _. Keeps-bind _ _ (Reads.Keeps-read_pointers env P reads) Keeps-reread_pointers

  pub Keeps-keep_or_select :
      (id : ℕ) (o : Option ReleasePointers) → Keeps P (keep_or_select env id o)
  unfolding keep_or_select
  Keeps-keep_or_select id none = Keeps-select id none
  Keeps-keep_or_select id (some p) = search (keeps_rules, Keeps-select)

  pub Keeps-read_manifest : (id : ℕ) → Keeps P (Store.read_manifest env id)
  Keeps-read_manifest id = Reads.Keeps-read_manifest env P reads id

  pub Keeps-read_pointers : Keeps P (Store.read_pointers env)
  Keeps-read_pointers = Reads.Keeps-read_pointers env P reads

  pub Keeps-activate_release : (id : ℕ) → Keeps P (Store.activate_release env id)
  unfolding Store.activate_release
  Keeps-activate_release id =
      search (keeps_rules, Keeps-read_manifest, Keeps-read_pointers, Keeps-keep_or_select) depth 9

  pub Keeps-read_releases : (ids : List ℕ) → Keeps P (read_releases env ids)
  unfolding read_releases
  Keeps-read_releases [] = Keeps-pure _
  Keeps-read_releases (id ∷ ids) =
      Keeps-bind _ _ (Keeps-read_manifest id)
        λ m. Keeps-bind _ _ (Keeps-read_releases ids) λ rest. Keeps-pure _

  pub Keeps-read_history : Keeps P (read_history env)
  unfolding read_history
  Keeps-read_history = search (keeps_rules, Keeps-read_releases, Keeps-read_pointers) depth 9

  pub Keeps-transition :
      (id : ℕ) (t : OperationStatus) (name message : String) (evidence : Evidence)
      (safety : Option SafetyFacts) (failure : Option FailureRecord)
      → Keeps P (Operations.transition env id t name message evidence safety failure)
  Keeps-transition = Trail.Keeps-transition env P unaware

  pub Keeps-event : (id : ℕ) (message : String) → Keeps P (event env id message)
  unfolding event
  Keeps-event id message = Trail.Keeps-append_event env P unaware id message _

  pub Keeps-stage :
      (id : ℕ) (name : String) (evidence : Evidence) (changed running : Bool)
      → Keeps P (stage env id name evidence changed running)
  unfolding stage
  Keeps-stage id name evidence changed running = search (keeps_rules, Keeps-transition)

  pub Keeps-record_restore_hook :
      (id : ℕ) (r : TrafficHookResult) → Keeps P (record_restore_hook env id r)
  unfolding record_restore_hook
  Keeps-record_restore_hook id r = Trail.Keeps-append_event env P unaware id _ _
