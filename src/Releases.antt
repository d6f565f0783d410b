-- ===== src/Releases.antt =====
-- dploydb/releases.py: the transition table of a release, and the manifests that `transition`,
-- `record_recovery_intent`, `resolve_recovery` and `activate_release` compute. Reading and writing
-- the files is in Releases/Store.antt.
pub mod Graph
pub mod Resolve
pub mod Store
use dploy_db.Base.{
  ℕ, String, Bool, true, false, not, ◌&&◌, ◌||◌, Option, none, some, List, [], ◌∷◌, ltb,
  if◌then◌else◌, is_none, ◌==◌, map, contains,
}
use dploy_db.Models.State.{
  DeploymentState, created, preflight_passed, snapshot_verified, rehearsal_passed,
  candidate_healthy, maintenance_enabled, current_app_stopped, final_snapshot_verified,
  production_migrated, new_app_healthy, traffic_activated, active, rollback_started, rolled_back,
  failed_safe, recovery_required, state_is, state_in, FailureRecord,
}
use dploy_db.Models.Manifest.{
  ProductionApplicationHandle, ReleaseHookEvidence, ReleaseHealthEvidence, ReleaseManifest,
  ReleasePointers, is_terminal, lifecycle_checks, first_violation,
}
use dploy_db.Raised.{Raised, other_exception, Outcome, returned, raised}

-- `_TRANSITIONS.get(status, frozenset())`
unfoldable pub transitions : DeploymentState → List DeploymentState
transitions created = preflight_passed ∷ failed_safe ∷ recovery_required ∷ []
transitions preflight_passed = snapshot_verified ∷ failed_safe ∷ recovery_required ∷ []
transitions snapshot_verified = rehearsal_passed ∷ failed_safe ∷ recovery_required ∷ []
transitions rehearsal_passed = candidate_healthy ∷ failed_safe ∷ recovery_required ∷ []
transitions candidate_healthy = maintenance_enabled ∷ failed_safe ∷ recovery_required ∷ []
transitions maintenance_enabled = current_app_stopped ∷ rollback_started ∷ recovery_required ∷ []
transitions current_app_stopped =
    final_snapshot_verified ∷ rollback_started ∷ recovery_required ∷ []
transitions final_snapshot_verified =
    production_migrated ∷ rollback_started ∷ recovery_required ∷ []
transitions production_migrated = new_app_healthy ∷ rollback_started ∷ recovery_required ∷ []
transitions new_app_healthy = traffic_activated ∷ rollback_started ∷ recovery_required ∷ []
transitions traffic_activated = active ∷ recovery_required ∷ []
transitions rollback_started = rolled_back ∷ recovery_required ∷ []
transitions _ = []

-- The keyword arguments of `ReleaseStore.transition`; `none` is `_UNSET`.
pub record Changes : Type 0 where
  pub previous_application : Option ProductionApplicationHandle
  pub new_application : Option ProductionApplicationHandle
  pub rehearsal_backup : Option (ℕ × ℕ)
  pub final_backup : Option (ℕ × ℕ)
  pub production_health_passed : Option Bool
  pub production_changed : Option Bool
  pub traffic_activated : Option Bool
  pub traffic_hooks : Option (List ReleaseHookEvidence)
  pub health_checks : Option (List ReleaseHealthEvidence)
  pub failure : Option FailureRecord

-- Nothing is supplied.
abbrev pub unset : Changes
unset = record {
  previous_application = none;
  new_application = none;
  rehearsal_backup = none;
  final_backup = none;
  production_health_passed = none;
  production_changed = none;
  traffic_activated = none;
  traffic_hooks = none;
  health_checks = none;
  failure = none;
}

-- `supplied if supplied is not _UNSET else current`
abbrev supplied_or : {A : Type 0} → Option A → A → A
supplied_or none a = a
supplied_or (some b) a = b

-- The same for a field that may be `None`.
abbrev supplied_some : {A : Type 0} → Option A → Option A → Option A
supplied_some none a = a
supplied_some (some b) a = some b

abbrev first_of_pair : Option (ℕ × ℕ) → Option ℕ
first_of_pair none = none
first_of_pair (some (a, b)) = some a

abbrev second_of_pair : Option (ℕ × ℕ) → Option ℕ
second_of_pair none = none
second_of_pair (some (a, b)) = some b

-- `_now_not_before`: a clock that went back is read as the stored time.
unfoldable pub now_not_before : ℕ → ℕ → ℕ
now_not_before previous current = if ltb current previous then previous else current

-- `current.model_copy(update=changes)` in `transition`
unfoldable pub changed : ReleaseManifest → ℕ → DeploymentState → Changes → ReleaseManifest
changed m now s c = record m {
  status = s;
  previous_application = supplied_some c.previous_application m.previous_application;
  new_application = supplied_some c.new_application m.new_application;
  rehearsal_backup_id = supplied_some (first_of_pair c.rehearsal_backup) m.rehearsal_backup_id;
  rehearsal_backup_sha256 =
      supplied_some (second_of_pair c.rehearsal_backup) m.rehearsal_backup_sha256;
  final_backup_id = supplied_some (first_of_pair c.final_backup) m.final_backup_id;
  final_backup_sha256 = supplied_some (second_of_pair c.final_backup) m.final_backup_sha256;
  production_health_passed = supplied_or c.production_health_passed m.production_health_passed;
  production_changed = supplied_or c.production_changed m.production_changed;
  traffic_activated = supplied_or c.traffic_activated m.traffic_activated;
  traffic_hooks = supplied_or c.traffic_hooks m.traffic_hooks;
  health_checks = supplied_or c.health_checks m.health_checks;
  updated_at = now;
  completed_at = if is_terminal s then some now else none;
  failure = supplied_some c.failure m.failure;
}

-- `ReleaseManifest.model_validate_json(updated.model_dump_json())`
unfoldable pub validated : ReleaseManifest → Outcome ReleaseManifest
validated m = elim (first_violation (lifecycle_checks m)) [
  | none ↦ returned m
  | some message ↦ raised (other_exception message)
]

-- `transition`, between the read of the current manifest and the write of the new one.
unfoldable pub transition_manifest :
    ReleaseManifest → ℕ → DeploymentState → Changes → Outcome ReleaseManifest
unfolding changed now_not_before
transition_manifest m now s c =
    if is_terminal m.status
    then raised (other_exception "terminal release cannot transition")
    else if not (state_in s (transitions m.status))
    then raised (other_exception "release transition is not allowed")
    else validated (changed m (now_not_before m.updated_at now) s c)

-- `record_recovery_intent`, between the read and the write.
unfoldable pub intent_manifest : ReleaseManifest → ℕ → Bool → Bool → Outcome ReleaseManifest
unfolding now_not_before
intent_manifest m now migration activation =
    if not migration && not activation
    then raised (other_exception "at least one recovery intent must be recorded")
    else if is_terminal m.status
    then raised (other_exception "terminal release recovery intent is immutable")
    else validated (record m {
      production_migration_started = migration || m.production_migration_started;
      traffic_activation_attempted = activation || m.traffic_activation_attempted;
      updated_at = now_not_before m.updated_at now;
    })

-- `resolve_recovery`, between the read and the write.
unfoldable pub resolve_manifest :
    ReleaseManifest → ℕ → DeploymentState → ℕ → Bool → Outcome ReleaseManifest
unfolding now_not_before
resolve_manifest m now s recovery activated =
    if not (state_in s (active ∷ rolled_back ∷ []))
    then raised (other_exception "recovery can resolve only to active or rolled_back")
    else if not (state_is m.status recovery_required) || is_none m.failure
    then raised (other_exception "release is not recovery_required with preserved failure evidence")
    else validated (record m {
      status = s;
      updated_at = now_not_before m.updated_at now;
      completed_at = some (now_not_before m.updated_at now);
      traffic_activated = activated;
      recovery_operation_id = some recovery;
      recovered_at = some (now_not_before m.updated_at now);
      recovery_failure = m.failure;
      failure = if state_is s active then none else m.failure;
    })

-- `ReleaseHistorySnapshot`: the releases and the pointers that were read with them.
pub record ReleaseHistory : Type 0 where
  pub pointers : Option ReleasePointers
  pub releases : List ReleaseManifest

-- The order of `read_history`: by `(started_at, release_id)`, newest first.
unfoldable pub started_later : ReleaseManifest → ReleaseManifest → Bool
started_later a b =
    ltb b.started_at a.started_at || (a.started_at == b.started_at && ltb b.release_id a.release_id)

-- The test of `read_history` on the pointers.
unfoldable pub selects_known : Option ReleasePointers → List ReleaseManifest → Bool
selects_known none ms = true
selects_known (some p) ms =
    contains p.active_release_id (map (λ m. m.release_id) ms) && known p.previous_release_id
  where
    known : Option ℕ → Bool
    known none = true
    known (some id) = contains id (map (λ m. m.release_id) ms)

-- `activate_release`, between the read of the selection and the write of the new one.
unfoldable pub next_pointers : Option ReleasePointers → ℕ → ℕ → ReleasePointers
next_pointers none now release = record {
  active_release_id = release;
  previous_release_id = none;
  updated_at = now;
}
next_pointers (some p) now release = record {
  active_release_id = release;
  previous_release_id = some p.active_release_id;
  updated_at = now;
}
