-- ===== src/Recovery/Restores.antt =====
-- When `recover_configured_deployment` (dploydb/recovery.py) may restore the production database.
use dploy_db.Base.{
  ℕ, ◌≡◌, refl, true, false, not, List, lookup, Option, Bool-cases, inl, inr, arith,
}
use dploy_db.Models.Manifest.{ReleaseManifest, ProductionApplicationHandle}
use dploy_db.Models.Operation.{OperationManifest, OperationEvent}
use dploy_db.Raised.{Outcome, returned, raised}
use dploy_db.World.{World, Environment, Context, Call, acquire_lock, release_lock, OperationFile}
use dploy_db.Exec.{Exec, raise_if, raise, pure}
use dploy_db.Exec.Keeps.{
  Post, Triple, Triple-bind, Triple-pure, Triple-ask, Triple-try, Triple-weaken, Triple-both,
  Triple-raise, Triple-if,
}
use dploy_db.Exec.Quiet.{On}
use dploy_db.Exec.Returns.{Anything}
use dploy_db.Operations.{file_events}
use dploy_db.Calls.{run}
use dploy_db.Deploy.Calm.{Calm, Keeps-run}
use dploy_db.Deploy.Journal.{is_database_restore, restored_in}
use dploy_db.Deploy.ReleaseSafety.{Keeps-release_and_raise}
use dploy_db.Recovery.{
  RecoveryPlan, RecoveryLiveState, ApplicationRuntimeState, stopped, restore_final_backup,
  executable,
}
use dploy_db.Recovery.Plan.{has_action, RestoreGround, build_recovery_plan-RestoreGround}
use dploy_db.Recovery.Diagnose.Facts.{StoredRelease, StoredOperation, Planned, diagnosed}
use dploy_db.Recovery.Diagnose.Live.{StateSeen, BackupSeen, DigestSeen, Inspected, BackupOpened}
use dploy_db.Recovery.Diagnose.Reads.{Calm-Undisturbed, Keeps-diagnose}
use dploy_db.Recovery.Diagnose.{diagnose}
use dploy_db.Deploy.Report.{operation_log}
use dploy_db.Recovery.Ownership.{plan_error}
use dploy_db.Recovery.Recover.{recover_by, locked_recovery, recover_configured_deployment}
use dploy_db.Recovery.Calm.{Keeps-recover_by}

-- The stores hold a release and its operation on which a restore is safe, for live facts that the
-- outside has answered: the storage opened the final backup, with the recorded digest, and the
-- engine inspected the previous application, not running.
pub record RestoreAllowed (env : Environment) (releases : List (ℕ × ReleaseManifest))
    (operations : List (ℕ × OperationFile)) : Type 0 where
  pub release : ReleaseManifest
  pub operation : OperationManifest
  pub events : List OperationEvent
  pub live : RecoveryLiveState
  pub release_stored : StoredRelease releases release
  pub operation_stored : StoredOperation operations operation
  pub events_stored : file_events (lookup operation.operation_id operations) ≡ events
  pub ground : RestoreGround operation events release live
  pub backup_opened :
      BackupOpened env release.final_backup_id release.final_backup_sha256 live.final_backup_sha256
  pub previous_inspected : Inspected env release.previous_application false
  pub digest_read : DigestSeen env live.production_database_sha256

abbrev Unrestored : Context → List Call → Type 0
Unrestored c j = restored_in j ≡ false

Unrestored-Calm : Calm Unrestored
unfolding restored_in is_database_restore
Unrestored-Calm = record {
  at_silent = λ c j h. h;
  at_ran = λ c j a b e h. ground arith;
  at_hook = λ c j a r e h. h;
  at_context = λ c d j e h. h;
}

module _ (env : Environment) (releases : List (ℕ × ReleaseManifest))
    (operations : List (ℕ × OperationFile)) where
  -- A restore in the journal was allowed.
  abbrev Allowed : Context → List Call → Type 0
  Allowed c j = restored_in j ≡ true → RestoreAllowed env releases operations

  Allowed-Calm : Calm Allowed
  unfolding restored_in is_database_restore
  Allowed-Calm = record {
    at_silent = λ c j h. h;
    at_ran = λ c j a b e h f. h (ground arith);
    at_hook = λ c j a r e h. h;
    at_context = λ c d j e h. h;
  }

  abbrev Safe : World → Type 0
  Safe w = On Allowed w

  abbrev Begun : World → Type 0
  Begun w = (w.operations ≡ operations) × (w.releases ≡ releases) × On Unrestored w

  safe : (w : World) → On Unrestored w → Safe w
  safe w h e = ground arith

  -- Nothing more is to show where a restore is allowed.
  allowed_post :
      {A : Type 0}
      → RestoreAllowed env releases operations
      → (x : Outcome A × World) → Post (λ _. Safe) Safe x
  allowed_post a (returned r, w) = λ e. a
  allowed_post a (raised x, w) = λ e. a

  -- The facts that the plan was built on, as the outside answered them.
  opened_by :
      (live : RecoveryLiveState) (id recorded : Option ℕ)
      → BackupSeen env id recorded (live.final_backup_verified, live.final_backup_sha256)
      → live.final_backup_verified ≡ true
      → BackupOpened env id recorded live.final_backup_sha256
  opened_by live id recorded seen verified = rw verified at seen

  stopped_by :
      (handle : Option ProductionApplicationHandle) (state : ApplicationRuntimeState)
      → StateSeen env handle state
      → state ≡ stopped
      → Inspected env handle false
  stopped_by handle state seen is = rw is at seen

  allowed_by :
      (plan : RecoveryPlan)
      → Planned env releases operations plan
      → has_action restore_final_backup plan.actions ≡ true
      → RestoreAllowed env releases operations
  allowed_by plan p h =
      let g : RestoreGround p.operation p.events p.release p.live =
        build_recovery_plan-RestoreGround p.operation p.events p.release p.live (rw p.built at h) in
      record {
        release = p.release;
        operation = p.operation;
        events = p.events;
        live = p.live;
        release_stored = p.release_stored;
        operation_stored = p.operation_stored;
        events_stored = p.events_stored;
        ground = g;
        backup_opened =
            opened_by p.live p.release.final_backup_id p.release.final_backup_sha256 p.backup_seen
              g.backup_verified;
        previous_inspected =
            stopped_by p.release.previous_application p.live.previous_application p.previous_seen
              g.previous_stopped;
        digest_read = p.production_seen;
      }

  recovered_by :
      (plan : RecoveryPlan)
      → Planned env releases operations plan
      → Triple (On Unrestored) (recover_by env plan) (λ _. Safe) Safe
  recovered_by plan p = elim (Bool-cases (has_action restore_final_backup plan.actions)) [
    | inl asked ↦ record {
      at = λ w h. allowed_post (allowed_by plan p asked) (recover_by env plan w);
    }
    | inr unasked ↦
        Triple-weaken (On Unrestored) (λ _. On Unrestored) (On Unrestored) (λ w h. h)
          (λ _ w h. safe w h) safe (Keeps-recover_by env Unrestored Unrestored-Calm plan unasked)
  ]

  planned :
      Triple Begun
        (diagnose env false)
        (λ plan w. Planned env releases operations plan × On Unrestored w)
        Safe
  planned =
      Triple-weaken (λ w. ((w.operations ≡ operations) × (w.releases ≡ releases)) × On Unrestored w)
        (λ plan w. Planned env releases operations plan × On Unrestored w)
        (λ w. Anything w × On Unrestored w) (λ w h. ((h.0, h.1), h.2)) (λ plan w h. h)
        (λ w h. safe w h.1)
        (Triple-both (diagnosed env releases operations)
          (Keeps-diagnose env (On Unrestored) (Calm-Undisturbed Unrestored Unrestored-Calm) false))

  locked : Triple Begun (locked_recovery env) (λ _. Safe) Safe
  unfolding locked_recovery
  locked =
      Triple-bind (λ plan w. On Unrestored w × Planned env releases operations plan) _ _
        (Triple-weaken Begun (λ plan w. Planned env releases operations plan × On Unrestored w) Safe
          (λ w h. h) (λ plan w h. (h.1, h.0)) (λ w h. h) planned)
        λ plan.
          given
            λ p. Triple-bind (λ _. On Unrestored) _ _ (not_executable plan) λ _. recovered_by plan p
    where
      given :
          {A : Type 0} {m : Exec A} {H : Type 0}
          → (H → Triple (On Unrestored) m (λ _. Safe) Safe)
          → Triple (λ w. On Unrestored w × H) m (λ _. Safe) Safe
      given k = record { at = λ w h. (k h.1).at w h.0 }

      not_executable :
          (plan : RecoveryPlan)
          → Triple
              (On Unrestored)
              (raise_if
                (not (executable plan))
                (plan_error plan plan.reason operation_log plan.next_safe_action))
              (λ _. On Unrestored)
              Safe
      not_executable plan =
          Triple-if (not (executable plan))
            (raise (plan_error plan plan.reason operation_log plan.next_safe_action)) (pure tt)
            (λ _.
              Triple-raise (plan_error plan plan.reason operation_log plan.next_safe_action) safe)
            (λ _. Triple-pure tt (λ w h. h))

  acquired : Triple Begun (run env acquire_lock) (λ _. Begun) Safe
  unfolding run restored_in is_database_restore
  acquired = Triple-ask _ _ (λ w _ h _. h) (λ w _ h. safe w h.2)

  recovers : Triple Begun (recover_configured_deployment env) (λ _. Safe) Safe
  unfolding recover_configured_deployment
  recovers =
      Triple-bind (λ _. Begun) _ _ acquired
        λ _.
          Triple-bind (λ _. Safe) _ _
            (Triple-try Safe _ _ locked (Keeps-release_and_raise env Allowed Allowed-Calm))
            λ r.
              Triple-bind (λ _. Safe) _ _ (Keeps-run Allowed Allowed-Calm env release_lock refl)
                λ _. Triple-pure r (λ w h. h)

safely : {A : Type 0} (P : World → Type 0) (x : Outcome A × World) → Post (λ _. P) P x → P x.1
safely P (returned a, w) h = h
safely P (raised e, w) h = h

-- If a run of the recovery has restored the production database, however the run ended, then the
-- stores held, when it began, a release and its operation on which a restore is safe: new traffic
-- was not activated and its hook was not attempted or did not start, the recorded final backup was
-- opened by the storage with the recorded digest and matches no digest that was read of the
-- database, the recorded previous application was inspected and was not running, and production may
-- have changed.
pub recover_configured_deployment-RestoreAllowed :
    (env : Environment) (w : World)
    → restored_in w.journal ≡ false
    → restored_in (recover_configured_deployment env w).1.journal ≡ true
    → RestoreAllowed env w.releases w.operations
recover_configured_deployment-RestoreAllowed env w fresh =
    safely (Safe env w.releases w.operations) (recover_configured_deployment env w)
      ((recovers env w.releases w.operations).at w (refl, refl, fresh))
