-- ===== src/Releases/Store/Effects.antt =====
-- What the operations of `ReleaseStore` (dploydb/releases.py) make of the release files, on every
-- way through them: a change is one replaced file, or none at all.
use dploy_db.Base.{
  ℕ, ◌≡◌, ◌∙◌, refl, Bool, Option, none, some, List, ◌==◌, lookup, insert, lookup-insert_self, ◌⊎◌,
  inl, inr, arith, Option-cases, Bool-cases,
}
use dploy_db.Models.State.{DeploymentState}
use dploy_db.Models.Manifest.{ReleaseManifest, first_violation, lifecycle_checks}
use dploy_db.Models.Manifest.Laws.{IsValid}
use dploy_db.Raised.{Outcome, returned}
use dploy_db.World.{World, Environment}
use dploy_db.Exec.{Exec, lift, ◌>>=◌, ◌>>◌}
use dploy_db.Exec.Keeps.{
  Triple, Triple-bind, Triple-ask, Triple-gets, Triple-lift, Triple-save, Triple-weaken,
}
use dploy_db.Releases.{Changes, transition_manifest, intent_manifest, resolve_manifest, changed}
use dploy_db.Releases.Resolve.{resolve_manifest-Resolved}
use dploy_db.Releases.Graph.{validated-returned, transition-Advanced, intent-Intended}
use dploy_db.Releases.Store.{
  redact_manifest, read_file, now, parsed_manifest, read_manifest, write_manifest, transition,
  record_recovery_intent, resolve_recovery,
}

-- The form that the operations on one release share: read, compute, replace, read again.
replace : Environment → ℕ → (ReleaseManifest → ℕ → Outcome ReleaseManifest) → Exec ReleaseManifest
replace env id f = do
  current ← read_manifest env id
  t ← now env
  m ← lift (f current t)
  write_manifest env m
  read_manifest env id

-- The file of `id` in `files` was a valid manifest, `f` computed the new one from it, and the new
-- files have the redaction of that and are the same elsewhere.
pub record Replaced (env : Environment) (files : List (ℕ × ReleaseManifest)) (id : ℕ)
    (f : ReleaseManifest → ℕ → Outcome ReleaseManifest) (new : ReleaseManifest) (w : World)
    : Type 0 where
  pub before : ReleaseManifest
  pub time : ℕ
  pub computed : ReleaseManifest
  pub was : lookup id files ≡ some before
  pub was_valid : IsValid before
  pub step : f before time ≡ returned computed
  pub redacted : new ≡ redact_manifest env.secrets computed
  pub valid : IsValid new
  pub now_files : w.releases ≡ insert id new files

-- A file that is read: what `read_manifest` has tested.
parsed-returned :
    (env : Environment) (id : ℕ) (o : Option ReleaseManifest) (m : ReleaseManifest)
    → parsed_manifest env id o ≡ returned m
    → (o ≡ some m) × IsValid m × (m.release_id ≡ id)
unfolding parsed_manifest
parsed-returned env id none m h = ground arith
parsed-returned env id (some x) m h = elim (Option-cases (first_violation (lifecycle_checks x))) [
  | inl ok ↦ elim (Bool-cases (x.release_id == id)) [
    | inl same ↦ (ground arith, ground arith, ground arith)
    | inr other ↦ ground arith
  ]
  | inr (message, bad) ↦ ground arith
]

module _ (env : Environment) (id : ℕ) where
  -- The file of `id` has been read from `files`.
  abbrev pub Found : List (ℕ × ReleaseManifest) → ReleaseManifest → World → Type 0
  Found files m w =
      (w.releases ≡ files) × (lookup id files ≡ some m) × IsValid m × (m.release_id ≡ id)

  found :
      (files d : List (ℕ × ReleaseManifest)) (m : ReleaseManifest) (w : World)
      → w.releases ≡ files
      → d ≡ files
      → parsed_manifest env id (lookup id d) ≡ returned m
      → Found files m w
  found files d m w here same e =
      let (there, valid, own) = parsed-returned env id (lookup id d) m e in
      (here, rw (← same) there, valid, own)

  pub read_manifest-Found :
      (files : List (ℕ × ReleaseManifest))
      → Triple
          (λ w. w.releases ≡ files)
          (read_manifest env id)
          (λ m w. Found files m w)
          (λ w. w.releases ≡ files)
  unfolding read_manifest read_file
  read_manifest-Found files =
      Triple-bind (λ _ w. w.releases ≡ files) _ _ (Triple-ask _ _ (λ w _ h _. h) (λ w _ h. h))
        λ _.
          Triple-bind (λ d w. (w.releases ≡ files) × (d ≡ files)) _ _
            (Triple-gets _ (λ w h. (h, h)))
            λ d. Triple-lift _ (λ w m h e. found files d m w h.0 h.1 e) (λ w e h _. h.0)

  -- What the write leaves: the redacted manifest is there and valid, or nothing has changed.
  abbrev Written : List (ℕ × ReleaseManifest) → ReleaseManifest → World → Type 0
  Written files m w =
      (w.releases ≡ insert id (redact_manifest env.secrets m) files)
      × IsValid (redact_manifest env.secrets m)

  redact_keeps_id :
      (m : ReleaseManifest) → (redact_manifest env.secrets m).release_id ≡ m.release_id
  unfolding redact_manifest
  redact_keeps_id m = refl

  write :
      (files : List (ℕ × ReleaseManifest)) (m : ReleaseManifest)
      → m.release_id ≡ id
      → Triple
          (λ w. w.releases ≡ files)
          (write_manifest env m)
          (λ _ w. Written files m w)
          (λ w. (w.releases ≡ files) ⊎ Written files m w)
  unfolding write_manifest
  write files m own =
      Triple-bind
        (λ p w.
          (w.releases ≡ files)
          × (p ≡ redact_manifest env.secrets m)
          × IsValid (redact_manifest env.secrets m))
        _ _
        (Triple-lift _ (λ w p h e. let (is, valid) = validated-returned _ e in (h, is, valid))
          (λ w e h _. inl h))
        λ p. Triple-save _ _ (λ w h. put p w h) (λ w h. inr (put p w h)) (λ w h. inl h.0)
    where
      put :
          (p : ReleaseManifest) (w : World)
          → (w.releases ≡ files)
            × (p ≡ redact_manifest env.secrets m)
            × IsValid (redact_manifest env.secrets m)
          → (insert p.release_id p w.releases ≡ insert id (redact_manifest env.secrets m) files)
            × IsValid (redact_manifest env.secrets m)
      put p w (same, is, valid) = (rw (is, same, redact_keeps_id m, own), valid)

  module _ (f : ReleaseManifest → ℕ → Outcome ReleaseManifest)
      (own : (m : ReleaseManifest) (t : ℕ) (m' : ReleaseManifest)
        → f m t ≡ returned m'
        → m'.release_id ≡ m.release_id) where
    -- From the computed manifest on: the write, and the read of what was written.
    stored :
        (files : List (ℕ × ReleaseManifest)) (m : ReleaseManifest) (t : ℕ) (m' : ReleaseManifest)
        → lookup id files ≡ some m
        → IsValid m
        → m.release_id ≡ id
        → f m t ≡ returned m'
        → Triple
            (λ w. w.releases ≡ files)
            (write_manifest env m' >> read_manifest env id)
            (λ new w. Replaced env files id f new w)
            (λ w. (w.releases ≡ files) ⊎ (new : ReleaseManifest) × Replaced env files id f new w)
    stored files m t m' there ok named e =
        Triple-bind (λ _ w. Written files m' w) _ _
          (Triple-weaken (λ w. w.releases ≡ files) (λ _ w. Written files m' w)
            (λ w. (w.releases ≡ files) ⊎ Written files m' w) (λ w h. h) (λ _ w h. h)
            (λ w h. elim h [ inl same ↦ inl same | inr new ↦ inr (kept, result w new) ])
            (write files m' (own m t m' e ∙ named)))
          λ _. record { at = λ w h. (again h.1).at w h.0 }
      where
        kept : ReleaseManifest
        kept = redact_manifest env.secrets m'

        result : (w : World) → Written files m' w → Replaced env files id f kept w
        result w (now_is, valid) = record {
          before = m;
          time = t;
          computed = m';
          was = there;
          was_valid = ok;
          step = e;
          redacted = refl;
          valid = valid;
          now_files = now_is;
        }

        as_read :
            (m : ReleaseManifest) (w : World)
            → lookup id (insert id kept files) ≡ some m
            → Replaced env files id f kept w
            → Replaced env files id f m w
        as_read m w found r =
            let same : m ≡ kept = ground (arith, lookup-insert_self id kept files) in rw same r

        again :
            IsValid kept
            → Triple
                (λ w. w.releases ≡ insert id kept files)
                (read_manifest env id)
                (λ new w. Replaced env files id f new w)
                (λ w.
                  (w.releases ≡ files) ⊎ (new : ReleaseManifest) × Replaced env files id f new w)
        again valid =
            Triple-weaken (λ w. w.releases ≡ insert id kept files)
              (λ m w. Found (insert id kept files) m w) (λ w. w.releases ≡ insert id kept files)
              (λ w h. h) (λ m w h. as_read m w h.1 (result w (h.0, valid)))
              (λ w h. inr (kept, result w (h, valid))) (read_manifest-Found (insert id kept files))

    replaced :
        (files : List (ℕ × ReleaseManifest))
        → Triple
            (λ w. w.releases ≡ files)
            (replace env id f)
            (λ new w. Replaced env files id f new w)
            (λ w. (w.releases ≡ files) ⊎ (new : ReleaseManifest) × Replaced env files id f new w)
    unfolding replace now
    replaced files =
        Triple-bind (Found files) _ _
          (Triple-weaken (λ w. w.releases ≡ files) (Found files) (λ w. w.releases ≡ files)
            (λ w h. h) (λ m w h. h) (λ w h. inl h) (read_manifest-Found files))
          λ m.
            Triple-bind (λ t. Found files m) _ _ (Triple-ask _ _ (λ w t h _. h) (λ w _ h. inl h.0))
              λ t.
                Triple-bind (λ m' w. Found files m w × (f m t ≡ returned m')) _ _
                  (Triple-lift _ (λ w m' h e. (h, e)) (λ w e h _. inl h.0))
                  λ m'. record {
                    at = λ w h. (stored files m t m' h.0.1 h.0.2 h.0.3 h.1).at w h.0.0;
                  }

transition-own :
    (s : DeploymentState) (c : Changes) (m : ReleaseManifest) (t : ℕ) (m' : ReleaseManifest)
    → transition_manifest m t s c ≡ returned m'
    → m'.release_id ≡ m.release_id
unfolding changed
transition-own s c m t m' h = rw ((transition-Advanced m t s c h).result)

-- `transition` on release files: what it returns is the stored file, computed from the file before
-- by an allowed transition; and if it raises, the files are either as before or changed in that way.
pub transition-Replaced :
    (env : Environment) (id : ℕ) (s : DeploymentState) (c : Changes)
    (files : List (ℕ × ReleaseManifest))
    → Triple
        (λ w. w.releases ≡ files)
        (transition env id s c)
        (λ new w. Replaced env files id (λ m t. transition_manifest m t s c) new w)
        (λ w.
          (w.releases ≡ files)
          ⊎ (new : ReleaseManifest) × Replaced env files id
              (λ m t. transition_manifest m t s c)
              new
              w)
unfolding transition replace
transition-Replaced env id s c files =
    replaced env id (λ m t. transition_manifest m t s c) (transition-own s c) files

-- The same for `record_recovery_intent`.
pub record_recovery_intent-Replaced :
    (env : Environment) (id : ℕ) (migration activation : Bool) (files : List (ℕ × ReleaseManifest))
    → Triple
        (λ w. w.releases ≡ files)
        (record_recovery_intent env id migration activation)
        (λ new w. Replaced env files id (λ m t. intent_manifest m t migration activation) new w)
        (λ w.
          (w.releases ≡ files)
          ⊎ (new : ReleaseManifest) × Replaced env files id
              (λ m t. intent_manifest m t migration activation)
              new
              w)
unfolding record_recovery_intent replace
record_recovery_intent-Replaced env id migration activation files =
    replaced env id (λ m t. intent_manifest m t migration activation)
      (λ m t m' h. (intent-Intended m t migration activation h).same_identity) files

-- The same for `resolve_recovery`.
pub resolve_recovery-Replaced :
    (env : Environment) (id : ℕ) (s : DeploymentState) (recovery : ℕ) (activated : Bool)
    (files : List (ℕ × ReleaseManifest))
    → Triple
        (λ w. w.releases ≡ files)
        (resolve_recovery env id s recovery activated)
        (λ new w. Replaced env files id (λ m t. resolve_manifest m t s recovery activated) new w)
        (λ w.
          (w.releases ≡ files)
          ⊎ (new : ReleaseManifest) × Replaced env files id
              (λ m t. resolve_manifest m t s recovery activated)
              new
              w)
unfolding resolve_recovery replace
resolve_recovery-Replaced env id s recovery activated files =
    replaced env id (λ m t. resolve_manifest m t s recovery activated)
      (λ m t m' h. (resolve_manifest-Resolved m t s recovery activated m' h).same_identity) files
