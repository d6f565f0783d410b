-- ===== src/Tests/Stores.antt =====
-- The stores of releases and operations at work.
use dploy_db.Base.{◌≡◌, refl, true, false, ◌⊎◌}
use dploy_db.Raised.{Outcome, other_exception}
use dploy_db.World.{World, Environment, not_synced}
use dploy_db.Models.State.{preflight_passed}
use dploy_db.Models.Manifest.{ReleaseManifest}
use dploy_db.Releases.{unset}
use dploy_db.Exec.{◌>>=◌, try_except, try_finally}
use dploy_db.Releases.{
  transitions, now_not_before, changed, validated, transition_manifest, intent_manifest,
  resolve_manifest, next_pointers,
}
use dploy_db.Releases.Store.{
  redact_failure, redact_manifest, corruption, read_answer, read_file, now, fresh_id,
  parsed_manifest, read_manifest, write_manifest, transition, record_recovery_intent,
  resolve_recovery, read_previous, check_pointers, read_pointers, read_active, active_release,
  valid_pointers, reread_pointers, select, keep_or_select, activate_release, pointed,
  create_release,
}
use dploy_db.Models.State.{
  state_index, state_is, state_in, state_value, is_terminal_operation, is_failed_operation,
  is_recovery_required, status_index, status_value,
}
use dploy_db.Models.Manifest.{
  handle_checks, is_terminal, is_failed, needs_rehearsal, needs_previous, is_migrated,
  lifecycle_checks, first_violation, pointer_checks,
}
use dploy_db.Base.{lookup, insert}
use dploy_db.Releases.Store.Atomic.{
  Stepped, Intent, transition-Stepped, transition-raised, record_recovery_intent-Intent,
}
use dploy_db.Tests.Data.{outside, start, fresh_release, value, backed_up}

abbrev stepped : Outcome ReleaseManifest × World
stepped = transition outside 7 preflight_passed unset start

transition-Stepped_example :
    Stepped 7 preflight_passed start (value stepped.0 fresh_release) stepped.1
unfolding ◌>>=◌ try_except try_finally transitions now_not_before changed validated
    transition_manifest intent_manifest resolve_manifest next_pointers redact_failure
    redact_manifest corruption read_answer read_file now fresh_id parsed_manifest read_manifest
    write_manifest transition record_recovery_intent resolve_recovery read_previous check_pointers
    read_pointers read_active active_release valid_pointers reread_pointers select keep_or_select
    activate_release pointed create_release state_index state_is state_in state_value
    is_terminal_operation is_failed_operation is_recovery_required status_index status_value
    handle_checks is_terminal is_failed needs_rehearsal needs_previous is_migrated lifecycle_checks
    first_violation pointer_checks lookup insert
transition-Stepped_example =
    transition-Stepped outside 7 preflight_passed unset start (value stepped.0 fresh_release)
      stepped.1 refl

-- A disk that fails to sync each file.
abbrev unsynced : Environment
unsynced = record outside { disk = λ _. not_synced (other_exception "fsync") }

abbrev half_stepped : Outcome ReleaseManifest × World
half_stepped = transition unsynced 7 preflight_passed unset start

transition-raised_example :
    (half_stepped.1.releases ≡ start.releases)
    ⊎ (new : ReleaseManifest) × Stepped 7 preflight_passed start new half_stepped.1
unfolding ◌>>=◌ try_except try_finally transitions now_not_before changed validated
    transition_manifest intent_manifest resolve_manifest next_pointers redact_failure
    redact_manifest corruption read_answer read_file now fresh_id parsed_manifest read_manifest
    write_manifest transition record_recovery_intent resolve_recovery read_previous check_pointers
    read_pointers read_active active_release valid_pointers reread_pointers select keep_or_select
    activate_release pointed create_release state_index state_is state_in state_value
    is_terminal_operation is_failed_operation is_recovery_required status_index status_value
    handle_checks is_terminal is_failed needs_rehearsal needs_previous is_migrated lifecycle_checks
    first_violation pointer_checks lookup insert
transition-raised_example =
    transition-raised unsynced 7 preflight_passed unset start (other_exception "fsync")
      half_stepped.1 refl

abbrev intended : Outcome ReleaseManifest × World
intended = record_recovery_intent outside 7 true false backed_up

record_recovery_intent-Intent_example :
    Intent 7 true false backed_up (value intended.0 fresh_release) intended.1
unfolding ◌>>=◌ try_except try_finally transitions now_not_before changed validated
    transition_manifest intent_manifest resolve_manifest next_pointers redact_failure
    redact_manifest corruption read_answer read_file now fresh_id parsed_manifest read_manifest
    write_manifest transition record_recovery_intent resolve_recovery read_previous check_pointers
    read_pointers read_active active_release valid_pointers reread_pointers select keep_or_select
    activate_release pointed create_release state_index state_is state_in state_value
    is_terminal_operation is_failed_operation is_recovery_required status_index status_value
    handle_checks is_terminal is_failed needs_rehearsal needs_previous is_migrated lifecycle_checks
    first_violation pointer_checks lookup insert
record_recovery_intent-Intent_example =
    record_recovery_intent-Intent outside 7 true false backed_up (value intended.0 fresh_release)
      intended.1 refl
