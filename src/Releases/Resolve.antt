-- ===== src/Releases/Resolve.antt =====
-- A recovery that is resolved (dploydb/releases.py, `resolve_recovery`) keeps the failure that
-- asked for it.
use dploy_db.Base.{
  ℕ, ◌≡◌, refl, Bool, true, false, not, ◌||◌, some, [], ◌∷◌, is_none, is_some, arith, ◌⊎◌, inl, inr,
  ◌≤◌,
}
use dploy_db.Models.State.{
  DeploymentState, active, rolled_back, recovery_required, state_in, state_is, state_index,
}
use dploy_db.Models.Manifest.{ReleaseManifest}
use dploy_db.Models.Manifest.Laws.{IsValid}
use dploy_db.Raised.{returned, guard-returned}
use dploy_db.Releases.{resolve_manifest, now_not_before}
use dploy_db.Releases.Graph.{validated-returned}

-- What a resolved recovery has tested, and what it stores.
pub record Resolved (m : ReleaseManifest) (s : DeploymentState) (recovery : ℕ)
    (m' : ReleaseManifest) : Type 0 where
  pub was_recovery : m.status ≡ recovery_required
  pub had_failure : is_some m.failure ≡ true
  pub target : (s ≡ active) ⊎ (s ≡ rolled_back)
  pub reached : m'.status ≡ s
  pub same_identity : m'.release_id ≡ m.release_id
  pub kept_failure : m'.recovery_failure ≡ m.failure
  pub by_operation : m'.recovery_operation_id ≡ some recovery
  pub intents :
      (m'.production_migration_started ≡ m.production_migration_started)
      × (m'.traffic_activation_attempted ≡ m.traffic_activation_attempted)
  pub not_earlier : m.updated_at ≤ m'.updated_at
  pub valid : IsValid m'

target_cases :
    (s : DeploymentState)
    → not (state_in s (active ∷ rolled_back ∷ [])) ≡ false
    → (s ≡ active) ⊎ (s ≡ rolled_back)
unfolding state_in
target_cases active h = inl refl
target_cases rolled_back h = inr refl
target_cases _ h = ground arith

status_is_recovery :
    (s : DeploymentState) → state_is s recovery_required ≡ true → s ≡ recovery_required
unfolding state_is state_index
status_is_recovery s h = ground arith

-- A resolution that is computed had a release that requires recovery with a stored failure; it ends
-- active or rolled back, keeps that failure and both intents, and is valid.
pub resolve_manifest-Resolved :
    (m : ReleaseManifest) (now : ℕ) (s : DeploymentState) (recovery : ℕ) (activated : Bool)
    (m' : ReleaseManifest)
    → resolve_manifest m now s recovery activated ≡ returned m'
    → Resolved m s recovery m'
unfolding resolve_manifest now_not_before
resolve_manifest-Resolved m now s recovery activated m' h =
    let (allowed, h1) = guard-returned (not (state_in s (active ∷ rolled_back ∷ []))) _ _ h in
    let (was, h2) =
      guard-returned (not (state_is m.status recovery_required) || is_none m.failure) _ _ h1 in
    let (same, valid) = validated-returned _ h2 in
    record {
      was_recovery = status_is_recovery m.status (ground (arith, was));
      had_failure = ground (arith, was);
      target = target_cases s allowed;
      reached = rw same;
      same_identity = rw same;
      kept_failure = rw same;
      by_operation = rw same;
      intents = rw same (refl, refl);
      not_earlier = rw same (ground arith);
      valid = rw same valid;
    }
