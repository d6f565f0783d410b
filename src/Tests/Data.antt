-- ===== src/Tests/Data.antt =====
-- A project with one stored release and one stored operation, and an outside in which everything
-- works.
use dploy_db.Base.{ℕ, ◌≡◌, refl, ◌+◌, Bool, true, false, none, some, [], ◌∷◌, length}
use dploy_db.Command.{CommandResult, CapturedOutput, succeeded}
use dploy_db.Models.State.{final_snapshot_verified, new_app_healthy, created, in_progress}
use dploy_db.Models.Manifest.{bootstrap, release, ProductionApplicationHandle, ReleaseManifest}
use dploy_db.Models.Operation.{OperationManifest, OperationEvent, note}
use dploy_db.Models.Lock.{idle}
use dploy_db.Operations.{no_facts}
use dploy_db.Raised.{Outcome, returned, raised}
use dploy_db.World.{
  World, Environment, Context, Configuration, BackupArtifact, BackupPurpose, final, ProductionStop,
  written, new_restore,
}

-- What a program returned, or a stand-in.
abbrev pub value : {A : Type 0} → Outcome A → A → A
value (returned a) b = a
value (raised e) b = b

abbrev pub is_returned : {A : Type 0} → Outcome A → Bool
is_returned (returned _) = true
is_returned (raised _) = false

-- A program that returned, returned its value.
pub returned_value :
    {A : Type 0} (x : Outcome A) (b : A) → is_returned x ≡ true → x ≡ returned (value x b)
returned_value (returned a) b h = refl
returned_value (raised e) b h = cc

abbrev pub no_output : CapturedOutput
no_output = record { total_bytes = 0; retained_bytes = 0; truncated = false }

abbrev pub good_command : CommandResult
good_command = record {
  outcome = succeeded;
  exit_code = some 0;
  stdout = no_output;
  stderr = no_output;
  termination_reason = none;
  termination_attempted = false;
  forced_kill = false;
  start_error = none;
  cleanup_error = none;
}

abbrev pub old_application : ProductionApplicationHandle
old_application = record {
  source = bootstrap;
  container_id = "c1";
  container_name = "app";
  compose_project = "shop";
  compose_service = "web";
  version = none;
  release_id = none;
  operation_id = none;
  database_directory = "/srv/db";
  database_target = "/data";
  host_port = 8000;
  container_port = 80;
  health_url = "http://localhost:8000/health";
}

abbrev pub new_application : ProductionApplicationHandle
new_application = record {
  source = release;
  container_id = "c2";
  container_name = "app-v2";
  compose_project = "shop";
  compose_service = "web";
  version = some "v2";
  release_id = some 7;
  operation_id = some 3;
  database_directory = "/srv/db";
  database_target = "/data";
  host_port = 8001;
  container_port = 80;
  health_url = "http://localhost:8001/health";
}

abbrev pub backup : BackupPurpose → ℕ → BackupArtifact
backup p operation = record {
  backup_id = 40;
  project = "shop";
  purpose = p;
  size_bytes = 4096;
  sha256 = 99;
  operation_id = some operation;
  database_path = "/backups/40.sqlite3";
  metadata_path = "/backups/40.json";
}

abbrev pub stopped_application : ProductionStop
stopped_application = record {
  handle = old_application;
  command = good_command;
  inspection = record { handle = old_application; running = false; command = good_command };
}

abbrev pub configuration : Configuration
configuration = record {
  project = "shop";
  fingerprint = 5;
  database_path = "/srv/db/app.sqlite3";
  database_directory = "/srv/db";
  database_volume_target = "/data";
  version = "v2";
  remote_required = false;
  has_replicator = false;
  has_retention = false;
}

-- The time is the number of calls so far.
abbrev pub outside : Environment
outside = record {
  config = configuration;
  secrets = record { redact_text = λ t. t };
  disk = λ _. written;
  read = λ _. none;
  clock = λ j. 100 + length j;
  fresh = λ j. 1000 + length j;
  previous_owner = λ _. none;
  inject = λ _ _. none;
  call = λ _ _. returned tt;
  run_hook = λ _ _. returned good_command;
  run_command = λ _ _. returned good_command;
  create_backup = λ _ p o. returned (backup p o);
  verify_backup = λ _ id. returned (backup final 3);
  replicate = λ _ b r. returned (record { backup = b; release_id = some r });
  inspect =
      λ _ h running. returned (record { handle = h; running = running; command = good_command });
  discover =
      λ _. returned (record { handle = old_application; running = true; command = good_command });
  stop = λ _ h. returned stopped_application;
  start = λ _. returned new_application;
  restore = λ _ b. returned (record { backup_id = 40; size_bytes = 4096; sha256 = 99 });
  replace_owner = λ _ _. returned tt;
  inspect_lock =
      λ _. record { state = idle; lock_held = false; owner = none; metadata_error = none };
  inspect_live = λ _ h. returned (record { handle = h; running = true; command = good_command });
  prove_absent = λ _ _ _. returned true;
  open_backup = λ _ id. returned (backup final 3);
  production_sha256 = λ _. returned 99;
}

abbrev pub fresh_release : ReleaseManifest
fresh_release = record {
  recovery_protocol_version = some 2;
  release_id = 7;
  operation_id = 3;
  project = "shop";
  requested_version = "v2";
  status = created;
  configuration_fingerprint = 5;
  operation_log_path = "events.jsonl";
  previous_release_id = none;
  previous_application = none;
  new_application = none;
  rehearsal_backup_id = none;
  rehearsal_backup_sha256 = none;
  final_backup_id = none;
  final_backup_sha256 = none;
  production_health_passed = false;
  production_changed = false;
  production_migration_started = false;
  traffic_activation_attempted = false;
  traffic_activated = false;
  traffic_hooks = [];
  health_checks = [];
  started_at = 10;
  updated_at = 10;
  completed_at = none;
  failure = none;
  recovery_operation_id = none;
  recovered_at = none;
  recovery_failure = none;
}

abbrev pub fresh_operation : OperationManifest
fresh_operation = record {
  operation_id = 3;
  operation_type = "deploy";
  project = "shop";
  status = in_progress;
  stage = "created";
  configuration_fingerprint = 5;
  safety = no_facts;
  started_at = 10;
  updated_at = 10;
  completed_at = none;
  failure = none;
  last_event_sequence = 1;
}

abbrev pub first_event : OperationEvent
first_event = record {
  sequence = 1;
  timestamp = 10;
  operation_id = 3;
  status = in_progress;
  stage = "created";
  message = "Operation started.";
  evidence = note;
}

abbrev pub fresh_context : Context
fresh_context = record {
  operation_id = 3;
  release_id = 7;
  previous = none;
  stopped = none;
  final_backup = none;
  new_application = none;
  maintenance_enabled = false;
  production_may_have_changed = false;
  traffic_activation_attempted = false;
  traffic_activated = false;
  hook_evidence = [];
  health_evidence = [];
}

abbrev pub start : World
start = record {
  releases = (7, fresh_release) ∷ [];
  pointers = none;
  operations = (3, record { manifest = some fresh_operation; events = first_event ∷ [] }) ∷ [];
  context = fresh_context;
  restoring = new_restore;
  journal = [];
}

-- The release just before its migration.
abbrev pub backed_up_release : ReleaseManifest
backed_up_release = record fresh_release {
  status = final_snapshot_verified;
  previous_application = some old_application;
  rehearsal_backup_id = some 40;
  rehearsal_backup_sha256 = some 99;
  final_backup_id = some 41;
  final_backup_sha256 = some 98;
}

abbrev pub backed_up : World
backed_up = record start { releases = (7, backed_up_release) ∷ [] }

-- The release just before its activation.
abbrev pub checked : World
checked = record start {
  releases =
      (
        7,
        record backed_up_release {
          status = new_app_healthy;
          new_application = some new_application;
          production_health_passed = true;
          production_changed = true;
          production_migration_started = true;
        },
      )
      ∷ [];
}
