-- ===== src/Models/Manifest.antt =====
-- dploydb/models.py: `ProductionApplicationHandle`, `ReleaseManifest`, `ReleasePointers`, and the
-- validators of their identities and of a release's life cycle.
pub mod Laws
use text.Mathlib.Text.{◌==◌ as str_eq}
use dploy_db.Base.{
  ℕ, String, Bool, true, false, not, ◌&&◌, ◌||◌, Option, none, some, List, [], ◌∷◌, ltb, ◌==◌,
  is_none, is_some, option_eq, bool_eq,
}
use dploy_db.Command.{TrafficAction, CommandOutcome}
use dploy_db.Models.State.{
  DeploymentState, created, preflight_passed, snapshot_verified, rehearsal_passed,
  candidate_healthy, maintenance_enabled, current_app_stopped, final_snapshot_verified,
  production_migrated, new_app_healthy, traffic_activated, active, rollback_started, rolled_back,
  manual_restore_started, manual_restore_completed, state_is, state_in, FailureRecord, Check,
}

pub data Source : Type 0 where
  bootstrap release : Source

pub record ProductionApplicationHandle : Type 0 where
  pub source : Source
  pub container_id : String
  pub container_name : String
  pub compose_project : String
  pub compose_service : String
  pub version : Option String
  pub release_id : Option ℕ
  pub operation_id : Option ℕ
  pub database_directory : String
  pub database_target : String
  pub host_port : ℕ
  pub container_port : ℕ
  pub health_url : String

is_release : Source → Bool
is_release release = true
is_release bootstrap = false

-- `validate_source_identity`
unfoldable pub handle_checks : ProductionApplicationHandle → List Check
unfolding is_release
handle_checks h =
    record {
      violated =
          is_release h.source
          && (is_none h.version || is_none h.release_id || is_none h.operation_id);
      message = "release application handle requires version, release_id, and operation_id";
    }
    ∷ record {
      violated = not (is_release h.source) && (is_some h.release_id || is_some h.operation_id);
      message = "bootstrap application handle must not claim a release_id or operation_id";
    }
    ∷ []

-- `ReleaseHookEvidence` and `ReleaseHealthEvidence`, without durations and texts that nothing reads.
pub record ReleaseHookEvidence : Type 0 where
  pub action : TrafficAction
  pub passed : Bool
  pub outcome : CommandOutcome
  pub output_complete : Bool

pub record ReleaseHealthEvidence : Type 0 where
  pub for_new : Bool
  pub version : String

pub record ReleaseManifest : Type 0 where
  pub recovery_protocol_version : Option ℕ
  pub release_id : ℕ
  pub operation_id : ℕ
  pub project : String
  pub requested_version : String
  pub status : DeploymentState
  pub configuration_fingerprint : ℕ
  pub operation_log_path : String
  pub previous_release_id : Option ℕ
  pub previous_application : Option ProductionApplicationHandle
  pub new_application : Option ProductionApplicationHandle
  pub rehearsal_backup_id : Option ℕ
  pub rehearsal_backup_sha256 : Option ℕ
  pub final_backup_id : Option ℕ
  pub final_backup_sha256 : Option ℕ
  pub production_health_passed : Bool
  pub production_changed : Bool
  pub production_migration_started : Bool
  pub traffic_activation_attempted : Bool
  pub traffic_activated : Bool
  pub traffic_hooks : List ReleaseHookEvidence
  pub health_checks : List ReleaseHealthEvidence
  pub started_at : ℕ
  pub updated_at : ℕ
  pub completed_at : Option ℕ
  pub failure : Option FailureRecord
  pub recovery_operation_id : Option ℕ
  pub recovered_at : Option ℕ
  pub recovery_failure : Option FailureRecord

-- The sets of states that the validator names.
unfoldable pub is_terminal : DeploymentState → Bool
unfolding state_in
is_terminal s =
    state_in s
      (active ∷ rolled_back ∷ DeploymentState.failed_safe ∷ DeploymentState.recovery_required ∷ [])

unfoldable pub is_failed : DeploymentState → Bool
unfolding state_in
is_failed s =
    state_in s (rolled_back ∷ DeploymentState.failed_safe ∷ DeploymentState.recovery_required ∷ [])

unfoldable pub needs_rehearsal : DeploymentState → Bool
unfolding state_in
needs_rehearsal s = state_in s (
    snapshot_verified ∷ rehearsal_passed ∷ candidate_healthy ∷ maintenance_enabled
    ∷ current_app_stopped ∷ final_snapshot_verified ∷ production_migrated ∷ new_app_healthy
    ∷ traffic_activated ∷ active ∷ rollback_started ∷ rolled_back ∷ [])

unfoldable pub needs_previous : DeploymentState → Bool
unfolding state_in
needs_previous s = state_in s (
    current_app_stopped ∷ final_snapshot_verified ∷ production_migrated ∷ new_app_healthy
    ∷ traffic_activated ∷ active ∷ rollback_started ∷ rolled_back ∷ [])

unfoldable pub is_migrated : DeploymentState → Bool
unfolding state_in
is_migrated s = state_in s (production_migrated ∷ new_app_healthy ∷ traffic_activated ∷ active ∷ [])

-- `self.new_application is not None and (…)`
contradicts_new : Option ProductionApplicationHandle → ReleaseManifest → Bool
contradicts_new none m = false
contradicts_new (some h) m =
    not (option_eq h.release_id (some m.release_id))
    || not (version_is h.version)
    || not (option_eq h.operation_id (some m.operation_id))
  where
    version_is : Option String → Bool
    version_is none = false
    version_is (some v) = str_eq v m.requested_version

-- `previous_release_id is not None and previous_application is not None`, and they differ
contradicts_previous : Option ℕ → Option ProductionApplicationHandle → Bool
contradicts_previous (some r) (some h) = not (option_eq h.release_id (some r))
contradicts_previous _ _ = false

completed_differs : ReleaseManifest → Bool
completed_differs m = is_some m.completed_at && not (option_eq m.completed_at (some m.updated_at))

-- `validate_release_lifecycle`: its tests, in their order.
unfoldable pub lifecycle_checks : ReleaseManifest → List Check
unfolding contradicts_new contradicts_previous completed_differs
lifecycle_checks m =
    record {
      violated = ltb m.updated_at m.started_at;
      message = "updated_at must not precede started_at";
    }
    ∷ record {
      violated = not (bool_eq (is_none m.rehearsal_backup_id) (is_none m.rehearsal_backup_sha256));
      message = "rehearsal backup ID and checksum must be recorded together";
    }
    ∷ record {
      violated = not (bool_eq (is_none m.final_backup_id) (is_none m.final_backup_sha256));
      message = "final backup ID and checksum must be recorded together";
    }
    ∷ record {
      violated = not (bool_eq (is_terminal m.status) (is_some m.completed_at));
      message = "terminal release state and completed_at must agree";
    }
    ∷ record {
      violated = completed_differs m;
      message = "completed_at must equal updated_at for a terminal release";
    }
    ∷ record {
      violated = not (bool_eq (is_failed m.status) (is_some m.failure));
      message = "failure details must be present exactly for non-active terminals";
    }
    ∷ record {
      violated =
          (is_some m.recovery_operation_id || is_some m.recovered_at || is_some m.recovery_failure)
          && not (
              is_some m.recovery_operation_id
              && is_some m.recovered_at
              && is_some m.recovery_failure);
      message = "recovery resolution fields must be recorded together";
    }
    ∷ record {
      violated =
          (is_some m.recovery_operation_id || is_some m.recovered_at || is_some m.recovery_failure)
          && not (state_in m.status (active ∷ rolled_back ∷ []));
      message = "only active or rolled-back releases can record resolution";
    }
    ∷ record {
      violated = state_in m.status (manual_restore_started ∷ manual_restore_completed ∷ []);
      message = "manual restore states do not belong to a deployment release";
    }
    ∷ record {
      violated = contradicts_previous m.previous_release_id m.previous_application;
      message = "previous release and application identities contradict";
    }
    ∷ record {
      violated = contradicts_new m.new_application m;
      message = "new application identity contradicts the release manifest";
    }
    ∷ record {
      violated = needs_rehearsal m.status && is_none m.rehearsal_backup_id;
      message = "release state requires verified rehearsal backup evidence";
    }
    ∷ record {
      violated = needs_previous m.status && is_none m.previous_application;
      message = "release state requires the exact previous application identity";
    }
    ∷ record {
      violated =
          m.traffic_activated
          && not (
              state_in m.status
                (traffic_activated ∷ active ∷ DeploymentState.recovery_required ∷ []));
      message = "traffic activation fact contradicts the release state";
    }
    ∷ record {
      violated = m.traffic_activated && not m.production_changed;
      message = "activated traffic requires a changed production release";
    }
    ∷ record {
      violated = m.production_migration_started && is_none m.final_backup_id;
      message = "production migration intent requires a verified final backup";
    }
    ∷ record {
      violated =
          m.traffic_activation_attempted
          && (not m.production_migration_started
              || not m.production_changed
              || is_none m.new_application
              || not m.production_health_passed);
      message = "traffic activation intent requires a checked production application";
    }
    ∷ record {
      violated = m.traffic_activated && not m.traffic_activation_attempted;
      message = "activated traffic requires a durable activation attempt";
    }
    ∷ record {
      violated =
          state_is m.status DeploymentState.failed_safe
          && (m.production_changed || m.traffic_activated);
      message = "failed_safe release must leave production unchanged";
    }
    ∷ record {
      violated = state_is m.status rolled_back && m.traffic_activated;
      message = "rolled_back release cannot have activated new traffic";
    }
    ∷ record {
      violated = is_migrated m.status && (is_none m.final_backup_id || not m.production_changed);
      message = "production mutation requires the verified final backup";
    }
    ∷ record {
      violated = is_migrated m.status && not m.production_migration_started;
      message = "production mutation state requires durable migration intent";
    }
    ∷ record {
      violated =
          state_in m.status (new_app_healthy ∷ traffic_activated ∷ active ∷ [])
          && (is_none m.new_application || not m.production_health_passed);
      message = "healthy new-application evidence is required";
    }
    ∷ record {
      violated = state_in m.status (traffic_activated ∷ active ∷ []) && not m.traffic_activated;
      message = "traffic-activated state requires the stored traffic fact";
    }
    ∷ record {
      violated = state_is m.status active && is_none m.previous_application;
      message = "active release must preserve the previous application identity";
    }
    ∷ []

-- The first test that fails gives the `ValueError`.
unfoldable pub first_violation : List Check → Option String
first_violation [] = none
first_violation (c ∷ cs) =
    let rest = first_violation cs in elim c.violated [ true ↦ some c.message | false ↦ rest ]

pub record ReleasePointers : Type 0 where
  pub active_release_id : ℕ
  pub previous_release_id : Option ℕ
  pub updated_at : ℕ

-- `validate_pointer_identity`
unfoldable pub pointer_checks : ReleasePointers → List Check
pointer_checks p =
    record {
      violated = option_eq p.previous_release_id (some p.active_release_id);
      message = "active and previous release IDs must differ";
    }
    ∷ []
