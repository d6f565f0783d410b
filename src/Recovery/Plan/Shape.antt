-- ===== src/Recovery/Plan/Shape.antt =====
-- The actions of each disposition of a plan of `build_recovery_plan` (dploydb/recovery.py).
use dploy_db.Base.{
  ◌≡◌, Bool, true, false, not, ◌||◌, ◌⊎◌, List, [], ◌∷◌, ◌++◌, arith, is_some, is_none, ◌&&◌,
  if◌then◌else◌,
}
use dploy_db.Models.Manifest.{ReleaseManifest}
use dploy_db.Models.Operation.{OperationManifest, OperationEvent}
use dploy_db.Recovery.{
  RecoveryDisposition, RecoveryAction, remove_new_application, restore_final_backup,
  restart_previous_application, activate_previous_traffic, disable_maintenance, verify_previous,
  mark_rolled_back, verify_new, mark_active, no_action, recover_previous, complete_new,
  manual_required, running, stopped, absent, runtime_is_running, runtime_is_stopped,
  runtime_is_unknown, is_absent_or_unknown, RecoveryLiveState, Conclusion, not_attempted,
  not_started, activation_succeeded, uncertain, activation_conclusion, manual, may_have_changed,
  database_matches_final, complete_plan, previous_plan, plan_by_conclusion, build_recovery_plan,
  recovery_actions,
}
use dploy_db.Recovery.Plan.{has_action}

-- `steps`, where they are asked for.
abbrev pub optional : Bool → List RecoveryAction → List RecoveryAction → List RecoveryAction
optional asked step rest = if asked then step ++ rest else rest

-- What a plan back to the previous release does, and what it has found where it leaves a step out.
pub record PreviousSteps (o : OperationManifest) (r : ReleaseManifest) (l : RecoveryLiveState)
    (steps : List RecoveryAction) : Type 0 where
  pub removes : Bool
  pub restores : Bool
  pub restarts : Bool
  pub sequence :
      steps
      ≡ optional removes (remove_new_application ∷ []) (
          optional restores (restore_final_backup ∷ []) (
            optional restarts (restart_previous_application ∷ []) (
              activate_previous_traffic ∷ disable_maintenance ∷ verify_previous ∷ mark_rolled_back
              ∷ [])))
  -- the new release is known and is removed, or nothing of it is left
  pub removal :
      ((removes ≡ true) × (is_some r.new_application ≡ true))
      ⊎ ((removes ≡ false) × (l.new_application ≡ absent))
  -- the verified final backup is restored over a stopped application that is restarted after it; or
  -- the database is the one of the final backup, or was never changed
  pub restore :
      ((restores ≡ true) × (l.final_backup_verified ≡ true) × (restarts ≡ true))
      ⊎ ((restores ≡ false) × ((may_have_changed o r ≡ false) ⊎ (database_matches_final l ≡ true)))
  -- the previous application is restarted, or it runs
  pub restart :
      ((restarts ≡ true) × (l.previous_application ≡ stopped))
      ⊎ ((restarts ≡ false) × (l.previous_application ≡ running))

-- The actions of a plan of each disposition.
abbrev pub Shape :
    OperationManifest
    → ReleaseManifest
    → RecoveryLiveState
    → RecoveryDisposition
    → List RecoveryAction
    → Type 0
Shape o r l no_action steps = steps ≡ []
Shape o r l manual_required steps = steps ≡ []
Shape o r l complete_new steps = steps ≡ disable_maintenance ∷ verify_new ∷ mark_active ∷ []
Shape o r l recover_previous steps = PreviousSteps o r l steps

pub PreviousSteps-unmarked :
    (o : OperationManifest) (r : ReleaseManifest) (l : RecoveryLiveState)
    (steps : List RecoveryAction)
    → PreviousSteps o r l steps
    → has_action mark_active steps ≡ false
PreviousSteps-unmarked o r l steps p = rw p.sequence (by_choice p.removes p.restores p.restarts)
  where
    by_choice :
        (a b c : Bool)
        → has_action mark_active (
            optional a (remove_new_application ∷ []) (
              optional b (restore_final_backup ∷ []) (
                optional c (restart_previous_application ∷ []) (
                  activate_previous_traffic ∷ disable_maintenance ∷ verify_previous
                  ∷ mark_rolled_back ∷ []))))
          ≡ false
    by_choice a b c = ground arith

-- What the guards of the branch for the previous release leave.
record PreviousGuards (o : OperationManifest) (r : ReleaseManifest) (l : RecoveryLiveState)
    : Type 0 where
  previous_seen : is_absent_or_unknown l.previous_application ≡ false
  new_seen : runtime_is_unknown l.new_application ≡ false
  new_known :
      ((runtime_is_running l.new_application || runtime_is_stopped l.new_application)
        && is_none r.new_application)
      ≡ false
  backup :
      (may_have_changed o r && (is_none r.final_backup_id || not l.final_backup_verified)) ≡ false
  quiet :
      (may_have_changed o r
        && not (database_matches_final l)
        && runtime_is_running l.previous_application)
      ≡ false

recovery_actions-PreviousSteps :
    (o : OperationManifest) (r : ReleaseManifest) (l : RecoveryLiveState)
    → PreviousGuards o r l
    → PreviousSteps o r l (recovery_actions o r l)
unfolding recovery_actions runtime_is_running runtime_is_stopped runtime_is_unknown
    is_absent_or_unknown
recovery_actions-PreviousSteps o r l g = record {
  removes = runtime_is_running l.new_application || runtime_is_stopped l.new_application;
  restores = may_have_changed o r && not (database_matches_final l);
  restarts = runtime_is_stopped l.previous_application;
  sequence = ground arith;
  removal = ground (arith, g.new_seen, g.new_known);
  restore = ground (arith, g.backup, g.previous_seen, g.quiet);
  restart = ground (arith, g.previous_seen);
}

guarded :
    (o : OperationManifest) (r : ReleaseManifest) (l : RecoveryLiveState)
    → is_absent_or_unknown l.previous_application ≡ false
    → runtime_is_unknown l.new_application ≡ false
    → ((runtime_is_running l.new_application || runtime_is_stopped l.new_application)
        && is_none r.new_application)
      ≡ false
    → (may_have_changed o r && (is_none r.final_backup_id || not l.final_backup_verified)) ≡ false
    → (may_have_changed o r
        && not (database_matches_final l)
        && runtime_is_running l.previous_application)
      ≡ false
    → PreviousSteps o r l (recovery_actions o r l)
guarded o r l seen new_seen new_known backup quiet = recovery_actions-PreviousSteps o r l (record {
  previous_seen = seen;
  new_seen = new_seen;
  new_known = new_known;
  backup = backup;
  quiet = quiet;
})

previous_plan-Shape :
    (o : OperationManifest) (r : ReleaseManifest) (l : RecoveryLiveState)
    → Shape o r l (previous_plan o r l).disposition (previous_plan o r l).actions
unfolding previous_plan manual
previous_plan-Shape o r l = ground (arith, guarded o r l)

plan_by_conclusion-Shape :
    (c : Conclusion) (o : OperationManifest) (r : ReleaseManifest) (l : RecoveryLiveState)
    → let p = plan_by_conclusion c o r l in Shape o r l p.disposition p.actions
unfolding plan_by_conclusion complete_plan
plan_by_conclusion-Shape activation_succeeded o r l = ground arith
plan_by_conclusion-Shape uncertain o r l = ground arith
plan_by_conclusion-Shape not_attempted o r l = previous_plan-Shape o r l
plan_by_conclusion-Shape not_started o r l = previous_plan-Shape o r l

-- A plan that is not executable (nothing to do, or manual work) holds no action. One that completes
-- the new release disables maintenance, verifies the new release and marks it active. One that goes
-- back to the previous release removes the new application, restores the final backup and restarts
-- the previous application, each where it is needed, and then activates previous traffic, disables
-- maintenance, verifies the previous release and marks the release rolled back: exactly these
-- steps, in this order. A removal is left out only where the new application is absent, a restore
-- only where the database was not changed or is the one of the backup, and a restart only where
-- the previous application runs; a restore has a verified backup and a stopped application that is
-- restarted after it.
pub build_recovery_plan-Shape :
    (o : OperationManifest) (es : List OperationEvent) (r : ReleaseManifest) (l : RecoveryLiveState)
    → let p = build_recovery_plan o es r l in Shape o r l p.disposition p.actions
unfolding build_recovery_plan
build_recovery_plan-Shape o es r l =
    ground (arith, plan_by_conclusion-Shape (activation_conclusion r es) o r l)
