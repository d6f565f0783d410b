-- ===== src/Releases/Store/Atomic.antt =====
-- The promise of `ReleaseStore.transition` and `record_recovery_intent` (dploydb/releases.py): one
-- allowed step of one release, durable as a whole or not at all.
use dploy_db.Base.{ℕ, ◌≡◌, refl, Bool, true, false, ◌||◌, some, lookup, insert, ◌⊎◌, inl, inr}
use dploy_db.Models.State.{DeploymentState, recovery_required, state_in}
use dploy_db.Models.Manifest.{ReleaseManifest, is_terminal}
use dploy_db.Models.Manifest.Laws.{IsValid}
use dploy_db.Raised.{Raised, returned, raised}
use dploy_db.World.{World, Environment}
use dploy_db.Exec.Keeps.{at_return, at_raise}
use dploy_db.Releases.{
  Changes, changed, transitions, transition_manifest, intent_manifest, resolve_manifest,
}
use dploy_db.Releases.Resolve.{resolve_manifest-Resolved}
use dploy_db.Releases.Graph.{transition-Advanced, intent-Intended}
use dploy_db.Releases.Store.{redact_manifest, transition, record_recovery_intent, resolve_recovery}
use dploy_db.Releases.Store.Effects.{
  Replaced, transition-Replaced, record_recovery_intent-Replaced, resolve_recovery-Replaced,
}

-- From `w` to `w'` the release `id` alone has changed: by an allowed step from a state that was not
-- terminal to `s`, and what is stored is the valid manifest `new`.
pub record Stepped (id : ℕ) (s : DeploymentState) (w : World) (new : ReleaseManifest) (w' : World)
    : Type 0 where
  pub before : ReleaseManifest
  pub was : lookup id w.releases ≡ some before
  pub was_open : is_terminal before.status ≡ false
  pub allowed : state_in s (transitions before.status) ≡ true
  pub reached : new.status ≡ s
  pub valid : IsValid new
  pub files : w'.releases ≡ insert id new w.releases

-- From `w` to `w'` the release `id` alone has changed: its intents alone have been raised.
pub record Intent (id : ℕ) (migration activation : Bool) (w : World) (new : ReleaseManifest)
    (w' : World) : Type 0 where
  pub before : ReleaseManifest
  pub was : lookup id w.releases ≡ some before
  pub same_status : new.status ≡ before.status
  pub migration_flag :
      new.production_migration_started ≡ (migration || before.production_migration_started)
  pub activation_flag :
      new.traffic_activation_attempted ≡ (activation || before.traffic_activation_attempted)
  pub valid : IsValid new
  pub files : w'.releases ≡ insert id new w.releases

-- From `w` to `w'` the release `id` alone has changed: from one that required recovery to one that
-- the operation `recovery` resolved to `s`.
pub record Resolution (id : ℕ) (s : DeploymentState) (recovery : ℕ) (w : World)
    (new : ReleaseManifest) (w' : World) : Type 0 where
  pub before : ReleaseManifest
  pub was : lookup id w.releases ≡ some before
  pub was_recovery : before.status ≡ recovery_required
  pub reached : new.status ≡ s
  pub by_operation : new.recovery_operation_id ≡ some recovery
  pub valid : IsValid new
  pub files : w'.releases ≡ insert id new w.releases

step :
    (env : Environment) (id : ℕ) (s : DeploymentState) (c : Changes) (w : World)
    (new : ReleaseManifest) (w' : World)
    → Replaced env w.releases id (λ m t. transition_manifest m t s c) new w'
    → Stepped id s w new w'
unfolding redact_manifest changed
step env id s c w new w' r =
    let a = transition-Advanced r.before r.time s c r.step in
    record {
      before = r.before;
      was = r.was;
      was_open = a.open_before;
      allowed = a.allowed;
      reached = rw (r.redacted, a.result);
      valid = r.valid;
      files = r.now_files;
    }

intend :
    (env : Environment) (id : ℕ) (migration activation : Bool) (w : World) (new : ReleaseManifest)
    (w' : World)
    → Replaced env w.releases id (λ m t. intent_manifest m t migration activation) new w'
    → Intent id migration activation w new w'
unfolding redact_manifest
intend env id migration activation w new w' r =
    let a = intent-Intended r.before r.time migration activation r.step in
    record {
      before = r.before;
      was = r.was;
      same_status = rw r.redacted a.same_status;
      migration_flag = rw r.redacted a.migration_flag;
      activation_flag = rw r.redacted a.activation_flag;
      valid = r.valid;
      files = r.now_files;
    }

-- A transition that returns has made exactly one allowed step of the release to the asked state, and
-- what it returns is valid and is what the store now holds; no other release has changed.
pub transition-Stepped :
    (env : Environment) (id : ℕ) (s : DeploymentState) (c : Changes) (w : World)
    (new : ReleaseManifest) (w' : World)
    → transition env id s c w ≡ (returned new, w')
    → Stepped id s w new w'
transition-Stepped env id s c w new w' e =
    step env id s c w new w' (at_return (transition-Replaced env id s c w.releases) w refl new w' e)

-- A transition that raises has changed no release, or has made the step that it was asked for.
pub transition-raised :
    (env : Environment) (id : ℕ) (s : DeploymentState) (c : Changes) (w : World) (x : Raised)
    (w' : World)
    → transition env id s c w ≡ (raised x, w')
    → (w'.releases ≡ w.releases) ⊎ (new : ReleaseManifest) × Stepped id s w new w'
transition-raised env id s c w x w' e =
    elim (at_raise (transition-Replaced env id s c w.releases) w refl x w' e) [
      | inl same ↦ inl same
      | inr (new, r) ↦ inr (new, step env id s c w new w' r)
    ]

-- An intent that is recorded is durable when the call returns: the stored manifest has the asked
-- flags raised beside those it had, it has kept its status, and no other release has changed.
pub record_recovery_intent-Intent :
    (env : Environment) (id : ℕ) (migration activation : Bool) (w : World) (new : ReleaseManifest)
    (w' : World)
    → record_recovery_intent env id migration activation w ≡ (returned new, w')
    → Intent id migration activation w new w'
record_recovery_intent-Intent env id migration activation w new w' e =
    intend env id migration activation w new w' (
      at_return (record_recovery_intent-Replaced env id migration activation w.releases) w refl new
        w' e)

resolution :
    (env : Environment) (id : ℕ) (s : DeploymentState) (recovery : ℕ) (activated : Bool) (w : World)
    (new : ReleaseManifest) (w' : World)
    → Replaced env w.releases id (λ m t. resolve_manifest m t s recovery activated) new w'
    → Resolution id s recovery w new w'
unfolding redact_manifest
resolution env id s recovery activated w new w' r =
    let a = resolve_manifest-Resolved r.before r.time s recovery activated r.computed r.step in
    record {
      before = r.before;
      was = r.was;
      was_recovery = a.was_recovery;
      reached = rw r.redacted a.reached;
      by_operation = rw r.redacted a.by_operation;
      valid = r.valid;
      files = r.now_files;
    }

-- A resolution that returns has ended exactly one release that required recovery, in the asked
-- state, under the identity of the recovery operation.
pub resolve_recovery-Resolution :
    (env : Environment) (id : ℕ) (s : DeploymentState) (recovery : ℕ) (activated : Bool) (w : World)
    (new : ReleaseManifest) (w' : World)
    → resolve_recovery env id s recovery activated w ≡ (returned new, w')
    → Resolution id s recovery w new w'
resolve_recovery-Resolution env id s recovery activated w new w' e =
    resolution env id s recovery activated w new w'
      (at_return (resolve_recovery-Replaced env id s recovery activated w.releases) w refl new w' e)
