-- ===== src/ManualRestore/Selection.antt =====
-- dploydb/manual_restore.py: what a manual restore has found where it returns.
use dploy_db.Base.{ℕ, ◌≡◌, refl, ◌||◌, Option, none, some, List}
use dploy_db.Errors.{DployDbError}
use dploy_db.Raised.{Raised, dploydb, base_exception, returned}
use dploy_db.World.{
  World, Environment, BackupArtifact, RestoreContext, RestoredDatabase, Call, open_backup,
}
use dploy_db.Exec.Keeps.{
  Triple, Triple-bind, Triple-pure, Triple-raise, Triple-try, Triple-if, Triple-weaken, Triple-both,
  Triple-gets, Triple-ask, Triple-modify_restore, Keeps-gets,
}
use dploy_db.Calls.{ran_entry}
use dploy_db.Command.{disable_maintenance}
use dploy_db.Recovery.Diagnose.{open_verified}
use dploy_db.Releases.Store
use dploy_db.Releases.Store.Selected.{activate_release-Named}
use dploy_db.ManualRestore.Database.{
  Fresh, From, From-Steady, RestoredFrom, required, lasting, replaced_from, selected_from,
}
use dploy_db.ManualRestore.Keeps.{
  Steady, Keeps-progress, Keeps-stage, Keeps-run_hook, Keeps-record_restore_hook, Keeps-inject,
  Keeps-activate_release,
}
use dploy_db.ManualRestore.Keeps.Steps.{Keeps-prepare_restore}
use dploy_db.Exec.Returns.{Anything, any, guard, given}
use dploy_db.ManualRestore.{RestoreSelection, needs_recovery_error}
use dploy_db.ManualRestore.Run.{
  ManualRestoreResult, expose, restore_forward, restore_failed, settle_restore, finish_and_raise,
  roll_back_restore, run_manual_restore, restore_from_backup, configured_restore_failed,
  locked_restore,
}
use dploy_db.ManualRestore.Preview.{Protected, previewed}

-- The storage opened the backup of this identity, and the database was restored from what it opened.
abbrev pub RestoredBackup : Environment → ℕ → RestoredDatabase → Type 0
RestoredBackup env id d =
    (b : BackupArtifact) × (j : List Call) × (i : List Call) × (env.open_backup j id ≡ returned b)
    × (env.restore i b ≡ returned d)

-- What a result has of its selection: the two releases, the restored backup, and pointers that name
-- the selected release.
abbrev Of : Environment → RestoreSelection → ManualRestoreResult → World → Type 0
Of env s r w =
    (r.selected_release ≡ s.selected_release)
    × (r.replaced_release ≡ s.active_release)
    × RestoredBackup env s.selected_backup_metadata.backup_id r.database_restore
    × (r.pointers.active_release_id ≡ s.selected_release.release_id)

-- A result of the restore of release `id`.
abbrev pub Restored : Environment → ℕ → ManualRestoreResult → Type 0
Restored env id r =
    (s : RestoreSelection) × Protected env id s
    × (r.selected_release ≡ s.selected_release)
    × (r.replaced_release ≡ s.active_release)
    × RestoredBackup env s.selected_backup_metadata.backup_id r.database_restore
    × (r.pointers.active_release_id ≡ id)

module _ (env : Environment) where
  -- A handler that only raises.
  never :
      {Q : ManualRestoreResult → World → Type 0} (id : ℕ) (s : RestoreSelection) (e : DployDbError)
      → Triple Anything (finish_and_raise env id s e) Q Anything
  unfolding finish_and_raise
  never id s e = Triple-bind (λ _. Anything) _ _ (any _) (λ _. Triple-raise _ (λ w h. h))

  -- The backup that was opened for this selection.
  abbrev Opened : RestoreSelection → BackupArtifact → Type 0
  Opened s b =
      (j : List Call) × (env.open_backup j s.selected_backup_metadata.backup_id ≡ returned b)

  restored_backup :
      (s : RestoreSelection) (b : BackupArtifact) (o : Option RestoredDatabase)
      (d : RestoredDatabase)
      → Opened s b
      → RestoredFrom env b o
      → o ≡ some d
      → RestoredBackup env s.selected_backup_metadata.backup_id d
  restored_backup s b o d (j, entry) from is =
      let (i, answer) = rw is at from in (b, j, i, entry, answer)

  exposed :
      (id : ℕ) (s : RestoreSelection) (b : BackupArtifact)
      → Opened s b
      → Triple (From env b) (expose env id s) (Of env s) Anything
  unfolding expose
  exposed id s b entry =
      Triple-bind _ _ _ (lasting (Keeps-progress env _ steady _ (λ c. (refl, refl, refl)))) λ _.
        Triple-bind _ _ _ (lasting (Keeps-stage env _ steady id _ _ _ _)) λ _.
          Triple-bind _ _ _ (lasting (Keeps-run_hook env _ steady disable_maintenance refl)) λ r.
            Triple-bind _ _ _ (lasting (Keeps-record_restore_hook env _ steady id r)) λ _.
              Triple-bind _ _ _ (lasting (Keeps-gets _)) λ c. Triple-bind _ _ _ (guard _ _) λ _.
                given λ _.
                  Triple-bind _ _ _
                    (lasting (Keeps-progress env _ steady _ (λ c. (refl, refl, refl))))
                    λ _. Triple-bind _ _ _ (lasting (Keeps-inject env _ steady _)) λ _.
                      Triple-bind _ _ _ pointed λ p. given λ named.
                        Triple-bind (λ c w. Anything w × RestoredFrom env b c.database_restore) _ _
                          (Triple-gets _ (λ w h. (tt, h.1)))
                          λ c. given λ from.
                            Triple-bind (λ _. Anything) _ _ (any _)
                              λ x. Triple-bind _ _ _ (required c.database_restore) λ d. given λ is.
                                Triple-bind (λ _. Anything) _ _ (any _)
                                  λ o. Triple-pure _ (λ w h. (
                                    refl,
                                    refl,
                                    restored_backup s b c.database_restore d entry from is,
                                    named,
                                  ))
    where
      steady : Steady (From env b)
      steady = From-Steady env b

      pointed :
          Triple
            (From env b)
            (Store.activate_release env s.selected_release.release_id)
            (λ p w. From env b w × (p.active_release_id ≡ s.selected_release.release_id))
            Anything
      pointed =
          Triple-weaken (λ w. From env b w × Anything w)
            (λ p w. From env b w × (p.active_release_id ≡ s.selected_release.release_id))
            (λ w. From env b w × Anything w) (λ w h. (h, tt)) (λ p w h. h) (λ w h. tt)
            (Triple-both (Keeps-activate_release env _ steady s.selected_release.release_id)
              (activate_release-Named env s.selected_release.release_id))

  forward :
      (id : ℕ) (s : RestoreSelection) (b : BackupArtifact)
      → Opened s b
      → Triple (From env b) (restore_forward env id s) (Of env s) Anything
  unfolding restore_forward
  forward id s b entry =
      Triple-bind _ _ _ (lasting (Keeps-prepare_restore env _ (From-Steady env b) id s)) λ _.
        Triple-bind _ _ _ (replaced_from env b id s)
          λ _. Triple-bind _ _ _ (selected_from env b id s) λ _. exposed id s b entry

  settled :
      (id : ℕ) (s : RestoreSelection) (c : RestoreContext) (o : Option DployDbError) (raw : Raised)
      → Triple Anything (settle_restore env id s c o raw) (Of env s) Anything
  unfolding settle_restore roll_back_restore
  settled id s c none raw = Triple-raise _ (λ w h. h)
  settled id s c (some e) raw =
      Triple-if
        (e.payload.recovery_required || c.traffic_activation_attempted
          || c.normal_traffic_may_be_enabled)
        (finish_and_raise env id s (needs_recovery_error c)) (roll_back_restore env id s)
        (λ _. never id s (needs_recovery_error c))
        (λ _. Triple-bind (λ _. Anything) _ _ (any _) (λ e. never id s e))

  opened :
      (id : ℕ) (s : RestoreSelection)
      → Triple Fresh (restore_from_backup env id s) (Of env s) Anything
  unfolding restore_from_backup run_manual_restore restore_failed open_verified
  opened id s = Triple-bind _ _ _ entered λ b. given λ entry.
      Triple-bind (λ _. From env b) _ _ (Triple-modify_restore _ (λ w h. (refl, rw h tt)))
        λ _.
          Triple-try Anything _ _ (forward id s b entry)
            λ raw. Triple-bind (λ _. Anything) _ _ (any _) λ c. settled id s c _ raw
    where
      entered :
          Triple Fresh
            (open_verified env s.selected_backup_metadata.backup_id)
            (λ b w. Fresh w × Opened s b)
            Anything
      entered = Triple-ask _ (ran_entry open_backup) (λ w b h e. (h, (w.journal, e))) (λ w _ _. tt)

  failed :
      (id : ℕ) (s : RestoreSelection) (e : Raised)
      → Triple Anything (configured_restore_failed env id e) (Of env s) Anything
  unfolding configured_restore_failed
  failed id s (dploydb e) = Triple-bind (λ _. Anything) _ _ (any _) (λ _. Triple-raise _ (λ w h. h))
  failed id s (base_exception t) = Triple-raise _ (λ w h. h)
  failed id s _ =
      Triple-bind (λ _. Anything) _ _ (any _)
        λ c. Triple-bind (λ _. Anything) _ _ (any _) (λ _. Triple-raise _ (λ w h. h))

  locked : (id : ℕ) → Triple Anything (locked_restore env id) (λ r w. Restored env id r) Anything
  unfolding locked_restore
  locked id =
      Triple-bind (λ _. Anything) _ _ (any _)
        λ _. Triple-bind _ _ _ (previewed env id) λ s. given λ protected.
          Triple-bind (λ _. Anything) _ _ (any _)
            λ o.
              Triple-bind (λ _. Anything) _ _ (any _)
                λ _.
                  Triple-bind (λ _. Fresh) _ _ (Triple-modify_restore _ (λ w _. refl))
                    λ _.
                      Triple-weaken Fresh (Of env s) Anything (λ w h. h)
                        (λ r w h. (s, protected, h.0, h.1, h.2, rw protected.named at h.3))
                        (λ w h. h)
                        (Triple-try Anything _ _ (opened o.operation_id s)
                          (failed o.operation_id s))
