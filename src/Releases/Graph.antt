-- ===== src/Releases/Graph.antt =====
-- The state machine of a release (dploydb/releases.py): what its operations can reach, in
-- which order, and what each stored state proves about the path to it.
pub mod Paths
use dploy_db.Base.{
  ℕ, ◌<◌, ◌≡◌, Bool, true, false, not, ◌&&◌, ◌||◌, inl, inr, List, [], ◌∷◌, arith, Option-cases,
}
use dploy_db.Models.State.{DeploymentState, created, state_index, state_in}
use dploy_db.Models.Manifest.{ReleaseManifest, is_terminal, first_violation, lifecycle_checks}
use dploy_db.Models.Manifest.Laws.{IsValid}
use dploy_db.Raised.{returned, guard-returned}
use dploy_db.Releases.{
  Changes, transitions, changed, now_not_before, validated, transition_manifest, intent_manifest,
  resolve_manifest,
}

-- A manifest that came out of `validated` is the one that went in, and it is valid.
pub validated-returned :
    (m : ReleaseManifest) {m' : ReleaseManifest} → validated m ≡ returned m' → (m' ≡ m) × IsValid m
unfolding validated
validated-returned m h = elim (Option-cases (first_violation (lifecycle_checks m))) [
  | inl ok ↦ (ground arith, ok)
  | inr (message, bad) ↦ ground arith
]

-- What a returned transition has tested.
pub record Advanced (m : ReleaseManifest) (now : ℕ) (s : DeploymentState) (c : Changes)
    (m' : ReleaseManifest) : Type 0 where
  pub open_before : is_terminal m.status ≡ false
  pub allowed : state_in s (transitions m.status) ≡ true
  pub result : m' ≡ changed m (now_not_before m.updated_at now) s c
  pub valid : IsValid m'

pub transition-Advanced :
    (m : ReleaseManifest) (now : ℕ) (s : DeploymentState) (c : Changes) {m' : ReleaseManifest}
    → transition_manifest m now s c ≡ returned m'
    → Advanced m now s c m'
unfolding transition_manifest
transition-Advanced m now s c h =
    let (still, h1) = guard-returned (is_terminal m.status) _ _ h in
    let (edge, h2) = guard-returned (not (state_in s (transitions m.status))) _ _ h1 in
    let (same, valid) = validated-returned _ h2 in
    record {
      open_before = still;
      allowed = ground (arith, edge);
      result = same;
      valid = rw same valid;
    }

-- What a returned intent has tested, and what it writes.
pub record Intended (m : ReleaseManifest) (now : ℕ) (migration activation : Bool)
    (m' : ReleaseManifest) : Type 0 where
  pub open_before : is_terminal m.status ≡ false
  pub same_status : m'.status ≡ m.status
  pub migration_flag :
      m'.production_migration_started ≡ (migration || m.production_migration_started)
  pub activation_flag :
      m'.traffic_activation_attempted ≡ (activation || m.traffic_activation_attempted)
  pub same_identity : m'.release_id ≡ m.release_id
  pub valid : IsValid m'

pub intent-Intended :
    (m : ReleaseManifest) (now : ℕ) (migration activation : Bool) {m' : ReleaseManifest}
    → intent_manifest m now migration activation ≡ returned m'
    → Intended m now migration activation m'
unfolding intent_manifest
intent-Intended m now migration activation h =
    let (_, h1) = guard-returned (not migration && not activation) _ _ h in
    let (still, h2) = guard-returned (is_terminal m.status) _ _ h1 in
    let (same, valid) = validated-returned _ h2 in
    record {
      open_before = still;
      same_status = rw same;
      migration_flag = rw same;
      activation_flag = rw same;
      same_identity = rw same;
      valid = rw same valid;
    }

-- Every allowed transition goes to a state that stands later in `DeploymentState`.
pub transitions_forward :
    (s t : DeploymentState) → state_in t (transitions s) ≡ true → state_index s < state_index t
unfolding transitions state_in
transitions_forward s t h = ground arith

-- The states that a release has been in, newest first, along any calls of `transition`,
-- `record_recovery_intent` and `resolve_recovery` on it that returned.
pub data History : ReleaseManifest → List DeploymentState → Type 0 where
  start : {m : ReleaseManifest} → m.status ≡ created → IsValid m → History m (created ∷ [])
  advance :
      {m m' : ReleaseManifest} {h : List DeploymentState} (now : ℕ) (s : DeploymentState)
      (c : Changes)
      → History m h
      → transition_manifest m now s c ≡ returned m'
      → History m' (s ∷ h)
  intend :
      {m m' : ReleaseManifest} {h : List DeploymentState} (now : ℕ) (migration activation : Bool)
      → History m h
      → intent_manifest m now migration activation ≡ returned m'
      → History m' h
  resolve :
      {m m' : ReleaseManifest} {h : List DeploymentState} (now : ℕ) (s : DeploymentState)
      (recovery : ℕ) (activated : Bool)
      → History m h
      → resolve_manifest m now s recovery activated ≡ returned m'
      → History m' (s ∷ h)
