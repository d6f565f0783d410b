-- ===== src/Recovery/Plan.antt =====
-- What a plan of `build_recovery_plan` (dploydb/recovery.py) authorizes, for all durable records and
-- all live facts.
pub mod Shape
pub mod NoWayBack
use dploy_db.Base.{
  ◌≡◌, refl, Bool, true, false, not, Option, none, some, ◌||◌, ◌⊎◌, List, [], ◌∷◌, ◌++◌, ltb, arith,
  ℕ, ◌==◌, is_some, is_none, ◌&&◌, if◌then◌else◌, inl, inr,
}
use dploy_db.Models.Manifest.{ReleaseManifest}
use dploy_db.Command.{outcome_is, start_failed, cancelled}
use dploy_db.Models.Operation.{
  OperationManifest, OperationEvent, Evidence, note, source_plan, traffic_hook,
}
use dploy_db.Recovery.{
  RecoveryDisposition, RecoveryAction, remove_new_application, restore_final_backup,
  restart_previous_application, activate_previous_traffic, disable_maintenance, verify_previous,
  mark_rolled_back, verify_new, mark_active, no_action, recover_previous, complete_new,
  manual_required, running, stopped, absent, runtime_is_running, runtime_is_stopped,
  runtime_is_unknown, is_absent_or_unknown, RecoveryLiveState, RecoveryPlan, Conclusion,
  not_attempted, not_started, activation_succeeded, uncertain, activation_conclusion,
  last_activation, concluded, manual, may_have_changed, database_matches_final, complete_plan,
  previous_plan, plan_by_conclusion, build_recovery_plan, recovery_actions,
}

abbrev action_index : RecoveryAction → ℕ
action_index remove_new_application = 0
action_index restore_final_backup = 1
action_index restart_previous_application = 2
action_index activate_previous_traffic = 3
action_index disable_maintenance = 4
action_index verify_previous = 5
action_index mark_rolled_back = 6
action_index verify_new = 7
action_index mark_active = 8

abbrev pub has_action : RecoveryAction → List RecoveryAction → Bool
has_action a [] = false
has_action a (b ∷ bs) = action_index a == action_index b || has_action a bs

-- Each action stands behind all actions of a lower index.
abbrev pub in_order : List RecoveryAction → Bool
in_order [] = true
in_order (a ∷ []) = true
in_order (a ∷ b ∷ bs) = ltb (action_index a) (action_index b) && in_order (b ∷ bs)

-- What must hold where a plan restores the database.
pub record RestoreGround (operation : OperationManifest) (events : List OperationEvent)
    (release : ReleaseManifest) (live : RecoveryLiveState) : Type 0 where
  pub not_activated : release.traffic_activated ≡ false
  pub no_activation :
      (activation_conclusion release events ≡ not_attempted)
      ⊎ (activation_conclusion release events ≡ not_started)
  pub backup_known : is_some release.final_backup_id ≡ true
  pub backup_verified : live.final_backup_verified ≡ true
  pub previous_stopped : live.previous_application ≡ stopped
  pub previous_known : is_some release.previous_application ≡ true
  pub changed : may_have_changed operation release ≡ true
  pub differs : database_matches_final live ≡ false

-- The facts of `RestoreGround` that the branch for a release without activation tests.
record BranchGround (operation : OperationManifest) (release : ReleaseManifest)
    (live : RecoveryLiveState) : Type 0 where
  backup_known : is_some release.final_backup_id ≡ true
  backup_verified : live.final_backup_verified ≡ true
  previous_stopped : live.previous_application ≡ stopped
  previous_known : is_some release.previous_application ≡ true
  changed : may_have_changed operation release ≡ true
  differs : database_matches_final live ≡ false

actions_restore :
    (o : OperationManifest) (r : ReleaseManifest) (l : RecoveryLiveState)
    → has_action restore_final_backup (recovery_actions o r l) ≡ true
    → (may_have_changed o r ≡ true) × (database_matches_final l ≡ false)
unfolding recovery_actions
actions_restore o r l h = (ground arith, ground arith)

previous_restore :
    (o : OperationManifest) (r : ReleaseManifest) (l : RecoveryLiveState)
    → has_action restore_final_backup (previous_plan o r l).actions ≡ true
    → BranchGround o r l
unfolding previous_plan
previous_restore o r l h = ground (arith, actions_restore o r l)

conclusion_restore :
    (c : Conclusion) (o : OperationManifest) (r : ReleaseManifest) (l : RecoveryLiveState)
    → has_action restore_final_backup (plan_by_conclusion c o r l).actions ≡ true
    → ((c ≡ not_attempted) ⊎ (c ≡ not_started))
      × (has_action restore_final_backup (previous_plan o r l).actions ≡ true)
unfolding plan_by_conclusion complete_plan
conclusion_restore activation_succeeded o r l h = ground arith
conclusion_restore uncertain o r l h = ground arith
conclusion_restore not_attempted o r l h = (inl refl, h)
conclusion_restore not_started o r l h = (inr refl, h)

build_restore :
    (o : OperationManifest) (es : List OperationEvent) (r : ReleaseManifest) (l : RecoveryLiveState)
    → has_action restore_final_backup (build_recovery_plan o es r l).actions ≡ true
    → has_action restore_final_backup
        (plan_by_conclusion (activation_conclusion r es) o r l).actions
      ≡ true
unfolding build_recovery_plan
build_restore o es r l h = ground arith

-- A release that is recorded as activated is concluded to be activated.
activated_conclusion :
    (r : ReleaseManifest) (es : List OperationEvent)
    → (activation_conclusion r es ≡ not_attempted) ⊎ (activation_conclusion r es ≡ not_started)
    → r.traffic_activated ≡ false
unfolding activation_conclusion
activated_conclusion r es h = ground arith

-- A recovery plan restores the database only where all of this holds: the release is not recorded
-- as activated, the activation hook is concluded not to have been attempted or not to have
-- started, the final backup is recorded and verified, the exact previous application is recorded
-- and is stopped, production may have changed, and the database differs from the backup.
pub build_recovery_plan-RestoreGround :
    (o : OperationManifest) (es : List OperationEvent) (r : ReleaseManifest) (l : RecoveryLiveState)
    → has_action restore_final_backup (build_recovery_plan o es r l).actions ≡ true
    → RestoreGround o es r l
build_recovery_plan-RestoreGround o es r l h =
    let (none_activated, h') =
      conclusion_restore (activation_conclusion r es) o r l (build_restore o es r l h) in
    let g = previous_restore o r l h' in
    record {
      not_activated = activated_conclusion r es none_activated;
      no_activation = none_activated;
      backup_known = g.backup_known;
      backup_verified = g.backup_verified;
      previous_stopped = g.previous_stopped;
      previous_known = g.previous_known;
      changed = g.changed;
      differs = g.differs;
    }
