-- ===== src/Deploy/Calm/Forward.antt =====
-- The steps of dploydb/deploy.py, dploydb/candidate.py and dploydb/cutover.py that keep every calm
-- predicate.
use dploy_db.Base.{ℕ, String, refl, Bool, true, Option, none, some, List}
use dploy_db.Command.{TrafficHookResult, disable_maintenance, enable_maintenance}
use dploy_db.Models.State.{DeploymentState, SafetyFacts, OperationStatus, FailureRecord}
use dploy_db.Models.Manifest.{ProductionApplicationHandle}
use dploy_db.Models.Operation.{Evidence}
use dploy_db.World.{Environment, Context, Call, BackupArtifact, verify_sqlite, check_health}
use dploy_db.Exec.Keeps.{Keeps, Keeps-pure, Keeps-raise, Keeps-bind, Keeps-gets, keeps_rules}
use dploy_db.Exec.Quiet.{On}
use dploy_db.Releases.{Changes}
use dploy_db.Releases.Store
use dploy_db.Releases.Store.Quiet
use dploy_db.Operations
use dploy_db.Operations.Quiet as Trail
use dploy_db.Deploy.Steps.{
  persist_stage, record_hook, snapshot_evidence, snapshot_changes, observe, identify,
  resolve_previous, verify_previous, maintenance_failed, maintenance_passed, enable,
  replicate_required, replicate_final, disable_after_activation,
}
use dploy_db.Deploy.Calm.{
  Calm, Calm-Quiet, Calm-Unaware, Keeps-context, Keeps-run, Keeps-run_hook, Keeps-inject,
  Keeps-replicate_backup, Keeps-inspect_application, Keeps-discover_current, Keeps-require_some,
}

module _ (env : Environment) (F : Context → List Call → Type 0) (calm : Calm F) where
  pub Keeps-release :
      (id : ℕ) (s : DeploymentState) (c : Changes) → Keeps (On F) (Store.transition env id s c)
  Keeps-release id s c = Quiet.Keeps-transition env F (Calm-Quiet F calm) id s c

  pub Keeps-intent : (id : ℕ) (a b : Bool) → Keeps (On F) (Store.record_recovery_intent env id a b)
  Keeps-intent id a b = Quiet.Keeps-record_recovery_intent env F (Calm-Quiet F calm) id a b

  pub Keeps-operation :
      (id : ℕ) (s : OperationStatus) (stage message : String) (evidence : Evidence)
      (safety : Option SafetyFacts) (failure : Option FailureRecord)
      → Keeps (On F) (Operations.transition env id s stage message evidence safety failure)
  Keeps-operation id s stage message evidence safety failure =
      Trail.Keeps-transition env (On F) (Calm-Unaware F calm) id s stage message evidence safety
        failure

  pub Keeps-event :
      (id : ℕ) (message : String) (evidence : Evidence)
      → Keeps (On F) (Operations.append_event env id message evidence)
  Keeps-event id message evidence =
      Trail.Keeps-append_event env (On F) (Calm-Unaware F calm) id message evidence

  pub Keeps-persist_stage :
      (s : DeploymentState) (message : String) (evidence : Evidence) (safety : SafetyFacts)
      (c : Changes)
      → Keeps (On F) (persist_stage env s message evidence safety c)
  unfolding persist_stage
  Keeps-persist_stage s message evidence safety c =
      search (keeps_rules, Keeps-operation, Keeps-release) depth 9

  pub Keeps-record_hook : (r : TrafficHookResult) → Keeps (On F) (record_hook env r)
  unfolding record_hook
  Keeps-record_hook r =
      Keeps-bind _ _ (Keeps-context F calm _ (λ c. refl)) (λ _. search (keeps_rules, Keeps-event))

  Keeps-snapshot_evidence : (o : Option (ℕ × ℕ)) → Keeps (On F) (snapshot_evidence env o)
  unfolding snapshot_evidence
  Keeps-snapshot_evidence none = Keeps-raise _
  Keeps-snapshot_evidence (some b) = Keeps-pure _

  pub Keeps-observe : (s : DeploymentState) (o : Option (ℕ × ℕ)) → Keeps (On F) (observe env s o)
  unfolding observe snapshot_changes
  Keeps-observe s o = search (keeps_rules, Keeps-snapshot_evidence, Keeps-release) depth 9

  Keeps-identify : (o : Option ProductionApplicationHandle) → Keeps (On F) (identify env o)
  unfolding identify
  Keeps-identify (some h) =
      Keeps-bind _ _ (Keeps-inspect_application F calm env h true) (λ _. Keeps-pure tt)
  Keeps-identify none =
      Keeps-bind _ _ (Keeps-discover_current F calm env)
        (λ found. Keeps-context F calm _ (λ c. refl))

  pub Keeps-resolve_previous : Keeps (On F) (resolve_previous env)
  unfolding resolve_previous
  Keeps-resolve_previous = search (keeps_rules, Keeps-identify, Keeps-event) depth 9

  pub Keeps-verify_previous : Keeps (On F) (verify_previous env)
  unfolding verify_previous
  Keeps-verify_previous = Keeps-bind _ _ (Keeps-gets _) λ c.
      Keeps-bind _ _ (search keeps_rules) λ _. Keeps-bind _ _ (Keeps-require_some c.previous) λ h.
        Keeps-bind _ _ (Keeps-run F calm env verify_sqlite refl) λ _.
          Keeps-bind _ _ (Keeps-run F calm env check_health refl)
            λ _. Keeps-bind _ _ (Keeps-context F calm _ (λ c. refl)) λ _. Keeps-event _ _ _

  Keeps-maintenance_failed : (r : TrafficHookResult) → Keeps (On F) (maintenance_failed env r)
  unfolding maintenance_failed
  Keeps-maintenance_failed r =
      Keeps-bind _ _ (Keeps-run_hook F calm env disable_maintenance refl) λ cleanup.
        Keeps-bind _ _ (Keeps-record_hook cleanup)
          λ _. search (keeps_rules, Keeps-verify_previous) depth 9

  Keeps-maintenance_passed : (r : TrafficHookResult) → Keeps (On F) (maintenance_passed env r)
  unfolding maintenance_passed
  Keeps-maintenance_passed r = Keeps-bind _ _ (Keeps-context F calm _ (λ c. refl)) λ _.
      Keeps-bind _ _ (Keeps-gets _)
        λ c. Keeps-bind _ _ (Keeps-require_some c.previous) λ h. Keeps-persist_stage _ _ _ _ _

  pub Keeps-enable : Keeps (On F) (enable env)
  unfolding enable
  Keeps-enable = Keeps-bind _ _ (Keeps-run_hook F calm env enable_maintenance refl) λ result.
      search (keeps_rules, Keeps-record_hook, Keeps-maintenance_failed, Keeps-maintenance_passed)

  Keeps-replicate_required : (b : BackupArtifact) → Keeps (On F) (replicate_required env b)
  unfolding replicate_required
  Keeps-replicate_required b = Keeps-bind _ _ (Keeps-gets _) λ c.
      Keeps-bind _ _ (search keeps_rules) λ _.
        Keeps-bind _ _ (Keeps-replicate_backup F calm env b _) λ remote.
          Keeps-bind _ _ (search keeps_rules)
            λ _. Keeps-bind _ _ (Keeps-event _ _ _) λ _. Keeps-inject F calm env _

  pub Keeps-replicate_final : (b : BackupArtifact) → Keeps (On F) (replicate_final env b)
  unfolding replicate_final
  Keeps-replicate_final b = search (keeps_rules, Keeps-replicate_required)

  pub Keeps-disable_after_activation : Keeps (On F) (disable_after_activation env)
  unfolding disable_after_activation
  Keeps-disable_after_activation =
      Keeps-bind _ _ (Keeps-run_hook F calm env disable_maintenance refl) λ result.
        Keeps-bind _ _ (Keeps-record_hook result)
          λ _. Keeps-bind _ _ (search keeps_rules) λ _. Keeps-context F calm _ (λ c. refl)
