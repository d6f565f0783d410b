-- ===== src/ManualRestore.antt =====
-- dploydb/manual_restore.py: the selection of the protected previous release for a manual restore, and
-- how the coordinator of the restore reports failures.
pub mod Run
pub mod Keeps
pub mod Safety
pub mod Preview
pub mod Database
pub mod Selection
use text.Mathlib.Text.{◌==◌ as str_eq}
use dploy_db.Base.{
  ℕ, String, Bool, true, false, not, ◌||◌, Option, none, some, List, [], ◌∷◌, ◌&&◌, ◌==◌, option_eq,
  if◌then◌else◌, is_none,
}
use dploy_db.Command.{TrafficHookResult, outcome_is, cleanup_failed}
use dploy_db.Errors.{
  DployDbError, new_error, safety_check_error, recovery_required_error, operation_failed_error,
  external_command_error,
}
use dploy_db.Models.State.{active, state_is}
use dploy_db.Models.Manifest.{ProductionApplicationHandle, ReleaseManifest, ReleasePointers}
use dploy_db.Raised.{Raised, dploydb, base_exception}
use dploy_db.World.{Environment, BackupArtifact, BackupPurpose, final, RestoreContext}
use dploy_db.Exec.{Exec, pure, raise, raise_if, ◌>>=◌, ◌>>◌}
use dploy_db.Releases.{ReleaseHistory}
use dploy_db.Releases.Store
use dploy_db.Cutover.{same_handle}
use dploy_db.Deploy.Report.{operation_log}
use dploy_db.Recovery.Diagnose.{open_verified}

-- `RestoreSelection`
pub record RestoreSelection : Type 0 where
  pub active_release : ReleaseManifest
  pub selected_release : ReleaseManifest
  pub selected_backup_metadata : BackupArtifact
  pub current_application : ProductionApplicationHandle
  pub selected_application : ProductionApplicationHandle

abbrev refusal : String → String → Raised
refusal what next = dploydb (new_error safety_check_error what false none (some "releases") next)

-- `ReleaseHistorySnapshot.find`
unfoldable pub find_release : ℕ → List ReleaseManifest → Option ReleaseManifest
find_release id [] = none
find_release id (m ∷ ms) = if m.release_id == id then some m else find_release id ms

-- `backup.metadata.purpose is BackupPurpose.FINAL`
unfoldable pub is_final_purpose : BackupPurpose → Bool
is_final_purpose final = true
is_final_purpose _ = false

unfoldable pub same_application :
    Option ProductionApplicationHandle → ProductionApplicationHandle → Bool
same_application none h = false
same_application (some g) h = same_handle g h

-- The backup is the final one of the operation that deployed the active release.
unfoldable pub fits_active : BackupArtifact → ReleaseManifest → ℕ → Bool
unfolding is_final_purpose
fits_active b replaced sha256 =
    is_final_purpose b.purpose
    && option_eq b.operation_id (some replaced.operation_id)
    && b.sha256 == sha256

module _ (env : Environment) where
  unfoldable pub require_selected : Option ReleaseManifest → Exec ReleaseManifest
  require_selected (some m) = pure m
  require_selected none =
      raise
        (refusal "release does not exist" "Run dploydb releases and select an existing release ID.")

  -- `pointers is not None and pointers.previous_release_id is not None`, with the selected release
  unfoldable pub require_protected : ℕ → Option ReleasePointers → Exec ReleasePointers
  require_protected id none = raise (
      refusal "there is no protected previous release to restore"
        "Deploy a verified release before requesting a previous restore.")
  require_protected id (some p) = do
    raise_if (is_none p.previous_release_id) (
        refusal "there is no protected previous release to restore"
          "Deploy a verified release before requesting a previous restore.")
    raise_if (not (option_eq p.previous_release_id (some id))) (
        refusal "manual restore is limited to the immediately previous protected release"
          "Select the protected previous release; older history is read-only during the hackathon.")
    pure p

  unfoldable pub select_applications :
      ReleaseManifest
      → Option ProductionApplicationHandle
      → Option ProductionApplicationHandle
      → Exec (ProductionApplicationHandle × ProductionApplicationHandle)
  unfolding same_application
  select_applications replaced (some current) (some chosen) = do
    raise_if (not (same_application replaced.previous_application chosen)) (
        refusal "active release does not preserve the selected previous application identity"
          "Do not restore until the application identity is reconciled.")
    raise_if (str_eq current.container_id chosen.container_id) (
        refusal "active and selected releases unexpectedly identify the same container"
          "Inspect the release manifests and live Docker state.")
    pure (current, chosen)
  select_applications replaced _ _ = raise (
      refusal "manual restore requires exact active and previous application identities"
        "Do not guess a container; preserve the release manifests.")

  unfoldable pub select_backup : ReleaseManifest → Option ℕ → Option ℕ → Exec BackupArtifact
  unfolding fits_active
  select_backup replaced (some id) (some sha256) = do
    backup ← open_verified env id
    raise_if (not (fits_active backup replaced sha256)) (
        refusal "selected restore backup contradicts the active release manifest"
          "Preserve the backup and release evidence; do not restore it.")
    pure backup
  select_backup replaced _ _ = raise (
      refusal "active release does not reference its verified pre-migration final backup"
        "Do not restore an older release without its final backup.")

  -- `preview_configured_restore`
  unfoldable pub preview_configured_restore : ℕ → Exec RestoreSelection
  preview_configured_restore id = do
    history ← Store.read_history env
    selected ← require_selected (find_release id history.releases)
    pointers ← require_protected id history.pointers
    replaced ← Store.read_manifest env pointers.active_release_id
    raise_if (not (state_is replaced.status active) || not (state_is selected.status active)) (
        refusal "active/previous release status is not safe for manual restore"
          "Run dploydb status and resolve release-state contradictions first.")
    raise_if (not (option_eq replaced.previous_release_id (some selected.release_id))) (
        refusal "active release lineage does not match the protected previous pointer"
          "Preserve release state and inspect the active manifest manually.")
    (current, chosen) ←
        select_applications replaced replaced.new_application selected.new_application
    backup ← select_backup replaced replaced.final_backup_id replaced.final_backup_sha256
    pure (record {
      active_release = replaced;
      selected_release = selected;
      selected_backup_metadata = backup;
      current_application = current;
      selected_application = chosen;
    })

-- `_restore_hook_error`
unfoldable pub restore_hook_error : TrafficHookResult → RestoreContext → Bool → DployDbError
unfolding outcome_is
restore_hook_error r c recovery =
    new_error
      (if recovery || outcome_is r.command.outcome cleanup_failed
        then recovery_required_error
        else external_command_error)
      "manual restore traffic hook ended without passing" c.database_replaced
      (some c.selected_running) operation_log
      "Keep maintenance enabled and inspect the recorded hook evidence."

-- The cases of `_normalize_restore_coordinator_error` for an exception that no handler expects.
unfoldable pub boundary_error : RestoreContext → DployDbError
boundary_error c =
    if c.current_stop_attempted && not c.current_stopped
    then new_error recovery_required_error
        "the current application stop was attempted without durable stopped proof" false none
        operation_log "Keep maintenance enabled and inspect the exact current container."
    else if c.selected_restart_attempted && not c.selected_running
    then new_error recovery_required_error
        "the selected application restart was attempted without durable running proof"
        c.database_replaced none operation_log
        "Keep maintenance enabled and inspect both exact containers before database rollback."
    else new_error operation_failed_error "manual restore boundary failed" c.database_replaced
        (some (not c.current_stopped)) operation_log
        "Keep maintenance enabled until the original release is restored."

-- `_normalize_restore_coordinator_error`; `none` lets the exception through.
unfoldable pub normalize_restore : RestoreContext → Raised → Option DployDbError
unfolding boundary_error
normalize_restore c (dploydb e) = some e
normalize_restore c (base_exception t) = none
normalize_restore c _ = some (boundary_error c)

-- The error of a restore that may have exposed new traffic, or that asks for recovery itself.
unfoldable pub needs_recovery_error : RestoreContext → DployDbError
needs_recovery_error c =
    new_error recovery_required_error "manual restore requires recovery" c.database_replaced
      (some c.selected_running) operation_log
      "Keep the recorded database and applications unchanged. Determine the live traffic and maintenance state before any database restore."
