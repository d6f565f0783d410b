-- ===== src/ManualRestore/Database.antt =====
-- dploydb/manual_restore.py: from which backup the database of a manual restore that returns comes.
use dploy_db.Base.{◌≡◌, refl, true, Option, none, some, ℕ, List, not, arith}
use dploy_db.Command.{TrafficHookResult, activate_old, passed}
use dploy_db.Raised.{returned}
use dploy_db.World.{World, Environment, Call, BackupArtifact, RestoredDatabase, restore}
use dploy_db.Exec.{Exec}
use dploy_db.Exec.Keeps.{
  Keeps, Triple, Triple-bind, Triple-pure, Triple-raise, Triple-gets, Triple-ask, Triple-if,
  Triple-modify_restore, Triple-weaken,
}
use dploy_db.Exec.Returns.{Anything, any, given}
use dploy_db.Calls.{ran_entry, hook_entry, run_hook, restore_database}
use dploy_db.Deploy.Steps.{require_some, hook_facts}
use dploy_db.ManualRestore.{RestoreSelection}
use dploy_db.ManualRestore.Run.{replace_database, select_traffic, selection_failed, stage}
use dploy_db.ManualRestore.Keeps.{
  Steady, Keeps-inject, Keeps-progress, Keeps-stage, Keeps-event, Keeps-record_restore_hook,
}
use dploy_db.ManualRestore.Keeps.Steps.{Keeps-start_selected}

-- No database has been restored.
abbrev pub Fresh : World → Type 0
Fresh w = w.restoring.database_restore ≡ none

pub Fresh-Steady : Steady Fresh
Fresh-Steady = record {
  at_silent = λ w h. h;
  at_ran = λ w a b e h. h;
  at_hook = λ w a r e h. h;
  at_operations = λ w o h. h;
  at_pointers = λ w p h. h;
  at_restoring = λ w d e h. rw (← e.2) h;
}

-- A database that was restored is what the restore of this backup answered.
abbrev pub RestoredFrom : Environment → BackupArtifact → Option RestoredDatabase → Type 0
RestoredFrom env b none = Unit
RestoredFrom env b (some d) = (j : List Call) × (env.restore j b ≡ returned d)

-- This backup is the selected one, and the restored database comes from it.
abbrev pub From : Environment → BackupArtifact → World → Type 0
From env b w =
    (w.restoring.selected_backup ≡ some b) × RestoredFrom env b w.restoring.database_restore

pub From-Steady : (env : Environment) (b : BackupArtifact) → Steady (From env b)
From-Steady env b = record {
  at_silent = λ w h. h;
  at_ran = λ w a c e h. h;
  at_hook = λ w a r e h. h;
  at_operations = λ w o h. h;
  at_pointers = λ w p h. h;
  at_restoring = λ w d e h. (rw (← e.1) h.0, rw (← e.2) h.1);
}

-- What is required of an optional value is that value.
pub required :
    {A : Type 0} {P : World → Type 0} (o : Option A)
    → Triple P (require_some o) (λ x w. P w × (o ≡ some x)) Anything
unfolding require_some
required none = Triple-raise _ (λ w h. tt)
required (some a) = Triple-pure a (λ w h. (h, refl))

-- A kept fact, where nothing is said of a failure.
pub lasting :
    {A : Type 0} {P : World → Type 0} {m : Exec A} → Keeps P m → Triple P m (λ _. P) Anything
lasting {P = P} k = Triple-weaken P (λ _. P) P (λ w h. h) (λ a w h. h) (λ w h. tt) k

module _ (env : Environment) (b : BackupArtifact) (id : ℕ) (selection : RestoreSelection) where
  abbrev Here : World → Type 0
  Here = From env b

  abbrev steady : Steady Here
  steady = From-Steady env b

  answered :
      (b' : BackupArtifact)
      → b' ≡ b
      → Triple Here
          (restore_database env b')
          (λ d w. Here w × ((j : List Call) × (env.restore j b ≡ returned d)))
          Anything
  unfolding restore_database
  answered b' same =
      Triple-ask _ (ran_entry restore) (λ w d h e. (h, (w.journal, rw same at e))) (λ w _ _. tt)

  pub replaced_from : Triple Here (replace_database env id selection) (λ _. Here) Anything
  unfolding replace_database
  replaced_from = Triple-bind _ _ _ (lasting (Keeps-stage env _ steady id _ _ _ _)) λ _.
      Triple-bind (λ c w. Here w × (c.selected_backup ≡ some b)) _ _
        (Triple-gets _ (λ w h. (h, h.0)))
        λ c. given λ chosen. Triple-bind _ _ _ (required c.selected_backup) λ b'. given λ is.
          Triple-bind _ _ _ (answered b' (same_backup c.selected_backup b' is chosen)) λ d.
            given λ answer.
              Triple-bind (λ _. Here) _ _ (Triple-modify_restore _ (λ w h. (h.0, answer)))
                λ _.
                  Triple-bind _ _ _
                    (lasting (Keeps-progress env _ steady _ (λ c. (refl, refl, refl))))
                    λ _. Triple-bind _ _ _ (lasting (Keeps-event env _ steady id _)) λ _.
                      Triple-bind _ _ _ (lasting (Keeps-inject env _ steady _))
                        λ _. lasting (Keeps-start_selected env _ steady id selection)
    where
      same_backup :
          (o : Option BackupArtifact) (b' : BackupArtifact) → o ≡ some b' → o ≡ some b → b' ≡ b
      same_backup o b' p q = ground (arith, p, q)

  targeted : Triple Here (run_hook env activate_old) (λ _. Here) Anything
  unfolding run_hook
  targeted = Triple-ask _ (hook_entry activate_old) (λ w r h _. h) (λ w _ _. tt)

  untargeted :
      (r : TrafficHookResult)
      → Triple Here (selection_failed env id selection r) (λ _. Here) Anything
  unfolding selection_failed
  untargeted r =
      Triple-bind (λ _. Anything) _ _ (Triple-modify_restore _ (λ w _. tt))
        λ _. Triple-bind (λ _. Anything) _ _ (any _) λ c. Triple-raise _ (λ w h. tt)

  pub selected_from : Triple Here (select_traffic env id selection) (λ _. Here) Anything
  unfolding select_traffic
  selected_from =
      Triple-bind (λ _. Here) _ _ (Triple-modify_restore _ (λ w h. h))
        λ _. Triple-bind _ _ _ (lasting (Keeps-stage env _ steady id _ _ _ _)) λ _.
          Triple-bind _ _ _ targeted λ r.
            Triple-bind _ _ _ (lasting (Keeps-record_restore_hook env _ steady id r)) λ _.
              Triple-if (not (passed r)) (selection_failed env id selection r)
                (stage env id "manual_restore_traffic_target_selected" (hook_facts r) true true)
                (λ _. untargeted r) (λ _. lasting (Keeps-stage env _ steady id _ _ _ _))
