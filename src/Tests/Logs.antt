-- ===== src/Tests/Logs.antt =====
-- The store of operations at work.
use dploy_db.Base.{◌≡◌, refl, none}
use dploy_db.Raised.{Outcome}
use dploy_db.World.{World}
use dploy_db.Models.State.{succeeded}
use dploy_db.Models.Operation.{OperationManifest, note}
use dploy_db.Exec.{◌>>=◌, try_except, try_finally}
use dploy_db.Operations.{
  validated_operation, trail_ok, agrees, file_manifest, file_events, append_to, replace_in,
  is_operation_failed, completed, supplied, started_later, later_of, newest, corruption,
  read_answer, read_file, clock, fresh_id, now_not_before, parsed_manifest, read_manifest,
  read_events, read_consistent, append_event_record, torn, write_manifest, redact_failure, changed,
  transition, append_event, create_operation, read_all, list_operations, latest_operation,
}
use dploy_db.Models.State.{
  state_index, state_is, state_in, state_value, is_terminal_operation, is_failed_operation,
  is_recovery_required, status_index, status_value,
}
use dploy_db.Models.Manifest.{
  handle_checks, is_terminal, is_failed, needs_rehearsal, needs_previous, is_migrated,
  lifecycle_checks, first_violation, pointer_checks,
}
use dploy_db.Models.Operation.{operation_checks}
use dploy_db.Base.{lookup, insert}
use dploy_db.Operations.Log.{Logged, transition-Logged, append_event-Logged}
use dploy_db.Tests.Data.{outside, start, fresh_operation, value}

abbrev finished : Outcome OperationManifest × World
finished = transition outside 3 succeeded "active" "done" note none none start

transition-Logged_example :
    Logged 3 start (value finished.0 fresh_operation) finished.1
    × ((value finished.0 fresh_operation).status ≡ succeeded)
unfolding ◌>>=◌ try_except try_finally validated_operation trail_ok agrees file_manifest file_events
    append_to replace_in is_operation_failed completed supplied started_later later_of newest
    corruption read_answer read_file clock fresh_id now_not_before parsed_manifest read_manifest
    read_events read_consistent append_event_record torn write_manifest redact_failure changed
    transition append_event create_operation read_all list_operations latest_operation state_index
    state_is state_in state_value is_terminal_operation is_failed_operation is_recovery_required
    status_index status_value handle_checks is_terminal is_failed needs_rehearsal needs_previous
    is_migrated lifecycle_checks first_violation pointer_checks operation_checks lookup insert
transition-Logged_example =
    transition-Logged outside 3 succeeded "active" "done" note none none start
      (value finished.0 fresh_operation) finished.1 refl

abbrev noted : World
noted = (append_event outside 3 "checked" note start).1

append_event-Logged_example : (new : OperationManifest) × Logged 3 start new noted
unfolding ◌>>=◌ try_except try_finally validated_operation trail_ok agrees file_manifest file_events
    append_to replace_in is_operation_failed completed supplied started_later later_of newest
    corruption read_answer read_file clock fresh_id now_not_before parsed_manifest read_manifest
    read_events read_consistent append_event_record torn write_manifest redact_failure changed
    transition append_event create_operation read_all list_operations latest_operation state_index
    state_is state_in state_value is_terminal_operation is_failed_operation is_recovery_required
    status_index status_value handle_checks is_terminal is_failed needs_rehearsal needs_previous
    is_migrated lifecycle_checks first_violation pointer_checks operation_checks lookup insert
append_event-Logged_example = append_event-Logged outside 3 "checked" note start noted refl
