-- ===== src/World.antt =====
-- What a coordinator sees and changes: the durable files, the coordinator's own record (`_Context`
-- of dploydb/deploy.py, `_RestoreContext` of dploydb/manual_restore.py), and the outside world. The
-- outside world is an `Environment`: a function for each thing that the code asks of it, of the
-- whole journal of calls so far, so that it can answer in any way and differently each time, and
-- fail at any point.
use dploy_db.Base.{ℕ, String, Bool, false, Option, none, List, Dict}
use dploy_db.Command.{CommandResult, TrafficAction, TrafficHookResult}
use dploy_db.Models.Lock.{LockOwnerMetadata, LockInspection}
use dploy_db.Models.Manifest.{
  ProductionApplicationHandle, ReleaseManifest, ReleasePointers, ReleaseHookEvidence,
  ReleaseHealthEvidence,
}
use dploy_db.Models.Operation.{OperationManifest, OperationEvent}
use dploy_db.Raised.{Raised, Outcome}
use dploy_db.Errors.{Secrets}

pub data BackupPurpose : Type 0 where
  standalone pre_restore rehearsal final : BackupPurpose

-- `BackupArtifact` with its `BackupMetadata`, as far as the coordinators compare it.
pub record BackupArtifact : Type 0 where
  pub backup_id : ℕ
  pub project : String
  pub purpose : BackupPurpose
  pub size_bytes : ℕ
  pub sha256 : ℕ
  pub operation_id : Option ℕ
  pub database_path : String
  pub metadata_path : String

-- dploydb/runners/base.py
pub record ProductionInspection : Type 0 where
  pub handle : ProductionApplicationHandle
  pub running : Bool
  pub command : CommandResult

pub record ProductionStop : Type 0 where
  pub handle : ProductionApplicationHandle
  pub command : CommandResult
  pub inspection : ProductionInspection

-- `VerifiedDatabaseRestoreResult`
pub record RestoredDatabase : Type 0 where
  pub backup_id : ℕ
  pub size_bytes : ℕ
  pub sha256 : ℕ

-- `RemoteBackupMetadata`: the local metadata that it repeats, and the release.
pub record RemoteBackup : Type 0 where
  pub backup : BackupArtifact
  pub release_id : Option ℕ

-- One operation's directory: `manifest.json`, where it is written, and `events.jsonl`.
pub record OperationFile : Type 0 where
  pub manifest : Option OperationManifest
  pub events : List OperationEvent

-- `_Context`: the fields that the coordinator sets.
pub record Context : Type 0 where
  pub operation_id : ℕ
  pub release_id : ℕ
  pub previous : Option ProductionApplicationHandle
  pub stopped : Option ProductionStop
  pub final_backup : Option BackupArtifact
  pub new_application : Option ProductionApplicationHandle
  pub maintenance_enabled : Bool
  pub production_may_have_changed : Bool
  pub traffic_activation_attempted : Bool
  pub traffic_activated : Bool
  pub hook_evidence : List ReleaseHookEvidence
  pub health_evidence : List ReleaseHealthEvidence

-- What the coordinator calls, without the traffic hooks.
pub data Action : Type 0 where
  verify_sqlite create_backup verify_backup rehearse check_rehearsal validate_candidate
        clean_workspace inspect discover stop replicate migrate start collect_logs check_health
        remove_new restart restore apply_retention acquire_lock record_owner release_lock
        inspect_live prove_absent open_backup digest :
      Action

-- The journal of calls. `silent` is a durable read or write, a reading of the clock, a fresh
-- identity or a fault point; a Boolean says whether the call returned; a hook that raised has no
-- result.
pub data Call : Type 0 where
  silent : Call
  ran : Action → Bool → Call
  hook : TrafficAction → Option TrafficHookResult → Call

-- An atomic replacement is made and synced, is not made, or is made and then fails to sync.
pub data DiskOutcome : Type 0 where
  written : DiskOutcome
  not_written : Raised → DiskOutcome
  not_synced : Raised → DiskOutcome

pub record Configuration : Type 0 where
  pub project : String
  pub fingerprint : ℕ
  pub database_path : String
  pub database_directory : String
  pub database_volume_target : String
  pub version : String
  -- `backup.remote is not None and backup.remote.required`
  pub remote_required : Bool
  pub has_replicator : Bool
  pub has_retention : Bool

pub record Environment : Type 0 where
  pub config : Configuration
  pub secrets : Secrets
  pub disk : List Call → DiskOutcome
  pub read : List Call → Option Raised
  pub clock : List Call → ℕ
  pub fresh : List Call → ℕ
  -- `lock.previous_owner`: the owner record that `acquire` found
  pub previous_owner : List Call → Option LockOwnerMetadata
  pub inject : List Call → String → Option Raised
  pub call : List Call → Action → Outcome (Unit {0})
  pub run_hook : List Call → TrafficAction → Outcome CommandResult
  pub run_command : List Call → Action → Outcome CommandResult
  pub create_backup : List Call → BackupPurpose → ℕ → Outcome BackupArtifact
  pub verify_backup : List Call → ℕ → Outcome BackupArtifact
  pub replicate : List Call → BackupArtifact → ℕ → Outcome RemoteBackup
  pub inspect : List Call → ProductionApplicationHandle → Bool → Outcome ProductionInspection
  pub discover : List Call → Outcome ProductionInspection
  pub stop : List Call → ProductionApplicationHandle → Outcome ProductionStop
  pub start : List Call → Outcome ProductionApplicationHandle
  pub restore : List Call → BackupArtifact → Outcome RestoredDatabase
  -- `inspect_lock(state_directory)`
  pub inspect_lock : List Call → LockInspection
  -- `lock.record_owner(…, replace_stale_owner_id=…)`
  pub replace_owner : List Call → Option ℕ → Outcome (Unit {0})
  pub inspect_live : List Call → ProductionApplicationHandle → Outcome ProductionInspection
  -- `prove_release_absent(release_id, version).proven`
  pub prove_absent : List Call → ℕ → String → Outcome Bool
  -- entering `open_verified_configured_backup`
  pub open_backup : List Call → ℕ → Outcome BackupArtifact
  -- the digest of `calculate_sha256(database.path)`
  pub production_sha256 : List Call → Outcome ℕ

-- `_RestoreContext` of dploydb/manual_restore.py: the fields that the manual restore sets.
pub record RestoreContext : Type 0 where
  pub maintenance_enabled : Bool
  pub current_stopped : Bool
  pub current_stop_attempted : Bool
  pub selected_running : Bool
  pub selected_restart_attempted : Bool
  pub database_replaced : Bool
  pub traffic_activation_attempted : Bool
  pub normal_traffic_may_be_enabled : Bool
  pub selected_backup : Option BackupArtifact
  pub pre_restore_backup : Option BackupArtifact
  pub database_restore : Option RestoredDatabase

abbrev pub new_restore : RestoreContext
new_restore = record {
  maintenance_enabled = false;
  current_stopped = false;
  current_stop_attempted = false;
  selected_running = false;
  selected_restart_attempted = false;
  database_replaced = false;
  traffic_activation_attempted = false;
  normal_traffic_may_be_enabled = false;
  selected_backup = none;
  pre_restore_backup = none;
  database_restore = none;
}

pub record World : Type 0 where
  pub releases : Dict ReleaseManifest
  pub pointers : Option ReleasePointers
  pub operations : Dict OperationFile
  pub context : Context
  pub restoring : RestoreContext
  pub journal : List Call
