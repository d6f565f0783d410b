-- ===== src/Recovery/Plan/NoWayBack.antt =====
-- Plans of `build_recovery_plan` (dploydb/recovery.py) where new traffic may have been activated.
use dploy_db.Base.{
  ◌≡◌, refl, Bool, true, false, not, Option, none, some, ◌||◌, ◌⊎◌, List, arith, is_none, ◌&&◌, inr,
}
use dploy_db.Models.Manifest.{ReleaseManifest}
use dploy_db.Command.{outcome_is, start_failed, cancelled}
use dploy_db.Models.Operation.{
  OperationManifest, OperationEvent, Evidence, note, source_plan, traffic_hook,
}
use dploy_db.Recovery.{
  RecoveryDisposition, remove_new_application, restore_final_backup, restart_previous_application,
  activate_previous_traffic, no_action, RecoveryLiveState, RecoveryPlan, Conclusion, not_attempted,
  not_started, activation_succeeded, uncertain, activation_conclusion, last_activation, concluded,
  manual, complete_plan, plan_by_conclusion, build_recovery_plan,
}
use dploy_db.Recovery.Plan.{has_action}

-- The durable evidence proves that the activation hook did not start, or was cancelled before it
-- could.
abbrev proved_unstarted : Option Evidence → Bool
proved_unstarted (some (traffic_hook a p o x)) =
    outcome_is o start_failed || (outcome_is o cancelled && is_none x)
proved_unstarted _ = false

-- New traffic was activated, or its activation was attempted and its last evidence does not prove
-- that the hook never ran.
abbrev pub may_have_switched : ReleaseManifest → List OperationEvent → Bool
may_have_switched r es =
    r.traffic_activated
    || (r.traffic_activation_attempted && not (proved_unstarted (last_activation none es)))

abbrev is_no_action : RecoveryDisposition → Bool
is_no_action no_action = true
is_no_action _ = false

-- The conclusion of `build_recovery_plan-NoWayBack`.
abbrev pub NoWayBack : RecoveryPlan → Type 0
NoWayBack p =
    ((is_no_action p.disposition ≡ true) ⊎ (p.automatic_database_restore_allowed ≡ false))
    × (has_action restore_final_backup p.actions ≡ false)
    × (has_action remove_new_application p.actions ≡ false)
    × (has_action restart_previous_application p.actions ≡ false)
    × (has_action activate_previous_traffic p.actions ≡ false)

concluded_switched :
    (e : Option Evidence)
    → proved_unstarted e ≡ false
    → (concluded e ≡ activation_succeeded) ⊎ (concluded e ≡ uncertain)
unfolding concluded
concluded_switched none h = inr refl
concluded_switched (some note) h = inr refl
concluded_switched (some (source_plan a b)) h = inr refl
concluded_switched (some (traffic_hook a p o x)) h = ground arith

conclusion_switched :
    (r : ReleaseManifest) (es : List OperationEvent)
    → may_have_switched r es ≡ true
    → (activation_conclusion r es ≡ activation_succeeded) ⊎ (activation_conclusion r es ≡ uncertain)
unfolding activation_conclusion
conclusion_switched r es h = ground (arith, concluded_switched (last_activation none es))

plan_by_conclusion-NoWayBack :
    (c : Conclusion) (o : OperationManifest) (r : ReleaseManifest) (l : RecoveryLiveState)
    → (c ≡ activation_succeeded) ⊎ (c ≡ uncertain)
    → NoWayBack (plan_by_conclusion c o r l)
unfolding plan_by_conclusion complete_plan manual
plan_by_conclusion-NoWayBack activation_succeeded o r l h = ground arith
plan_by_conclusion-NoWayBack uncertain o r l h = ground arith
plan_by_conclusion-NoWayBack not_attempted o r l h = ground arith
plan_by_conclusion-NoWayBack not_started o r l h = ground arith

-- Where new traffic was activated, or its activation was attempted and the last hook evidence does
-- not prove that the hook never ran, a plan neither restores the database, nor removes the new
-- application, nor restarts the previous one, nor routes traffic back, and one that is not for an
-- ended deployment does not allow an automatic restore.
pub build_recovery_plan-NoWayBack :
    (o : OperationManifest) (es : List OperationEvent) (r : ReleaseManifest) (l : RecoveryLiveState)
    → may_have_switched r es ≡ true
    → NoWayBack (build_recovery_plan o es r l)
unfolding build_recovery_plan manual
build_recovery_plan-NoWayBack o es r l h = ground (
  arith,
  plan_by_conclusion-NoWayBack (activation_conclusion r es) o r l (conclusion_switched r es h),
)
