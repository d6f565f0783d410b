-- ===== src/Recovery/Diagnose/Live.antt =====
-- What the live facts of a diagnosis (dploydb/recovery.py) have been read from: the answers of the
-- container engine, of the backup storage and of the database.
use dploy_db.Base.{◌≡◌, refl, Bool, true, false, Option, none, some, ℕ, List, option_eq}
use dploy_db.Models.Manifest.{ProductionApplicationHandle}
use dploy_db.Raised.{Raised, production_inspection_error, base_exception, returned}
use dploy_db.World.{Environment, Call, BackupArtifact, ProductionInspection}
use dploy_db.Exec.Keeps.{Triple, Triple-bind, Triple-pure, Triple-ask, Triple-try, Triple-raise}
use dploy_db.Exec.Returns.{Anything}
use dploy_db.Recovery.{ApplicationRuntimeState, running, stopped, absent, unknown}
use dploy_db.Recovery.Diagnose.{
  inspect_application, inspect_handle, not_inspected, runtime_state, final_facts, compare_backup,
  open_verified, not_verified, production_digest, no_digest,
}

-- The engine inspected the application of the handle and answered whether it runs.
abbrev pub Inspected : Environment → Option ProductionApplicationHandle → Bool → Type 0
Inspected env handle answer =
    (h : ProductionApplicationHandle) × (j : List Call) × (i : ProductionInspection) × (handle
      ≡ some h)
    × (env.inspect_live j h ≡ returned i)
    × (i.running ≡ answer)

-- Where the state of an application comes from.
abbrev pub StateSeen :
    Environment → Option ProductionApplicationHandle → ApplicationRuntimeState → Type 0
StateSeen env handle running = Inspected env handle true
StateSeen env handle stopped = Inspected env handle false
StateSeen env handle absent = ⊥
StateSeen env handle unknown = Unit

-- The storage opened the backup of this identity, and its digest is the recorded one and the one
-- that is compared with the database.
abbrev pub BackupOpened : Environment → Option ℕ → Option ℕ → Option ℕ → Type 0
BackupOpened env id recorded compared =
    (k : ℕ) × (j : List Call) × (b : BackupArtifact) × (id ≡ some k)
    × (env.open_backup j k ≡ returned b)
    × (option_eq (some b.sha256) recorded ≡ true)
    × (compared ≡ some b.sha256)

-- Where it comes from that a backup is verified.
abbrev pub BackupSeen : Environment → Option ℕ → Option ℕ → Bool × Option ℕ → Type 0
BackupSeen env id recorded (true, compared) = BackupOpened env id recorded compared
BackupSeen env id recorded (false, compared) = Unit

-- Where the digest of the production database comes from.
abbrev pub DigestSeen : Environment → Option ℕ → Type 0
DigestSeen env none = Unit
DigestSeen env (some d) = (j : List Call) × (env.production_sha256 j ≡ returned d)

module _ (env : Environment) where
  runtime_state-StateSeen :
      (h : ProductionApplicationHandle) (j : List Call) (i : ProductionInspection) (b : Bool)
      → env.inspect_live j h ≡ returned i
      → i.running ≡ b
      → StateSeen env (some h) (runtime_state b)
  unfolding runtime_state
  runtime_state-StateSeen h j i true e r = (h, j, i, refl, e, r)
  runtime_state-StateSeen h j i false e r = (h, j, i, refl, e, r)

  not_inspected-StateSeen :
      (o : Option ProductionApplicationHandle) (e : Raised)
      → Triple Anything (not_inspected env e) (λ s _. StateSeen env o s) Anything
  unfolding not_inspected
  not_inspected-StateSeen o (production_inspection_error m) = Triple-pure unknown (λ w h. tt)
  not_inspected-StateSeen o _ = Triple-raise _ (λ w h. tt)

  pub inspect_application-StateSeen :
      (o : Option ProductionApplicationHandle)
      → Triple Anything (inspect_application env o) (λ s _. StateSeen env o s) Anything
  unfolding inspect_application inspect_handle
  inspect_application-StateSeen none = Triple-pure unknown (λ w h. tt)
  inspect_application-StateSeen (some h) =
      Triple-try Anything _ _
        (Triple-bind (λ i _. (j : List Call) × (env.inspect_live j h ≡ returned i)) _ _
          (Triple-ask _ _ (λ w i _ e. (w.journal, e)) (λ w _ _. tt))
          λ i. Triple-pure _ (λ w a. runtime_state-StateSeen h a.0 i i.running a.1 refl))
        (not_inspected-StateSeen (some h))

  compared-BackupSeen :
      (id : ℕ) (recorded : Option ℕ) (j : List Call) (a : BackupArtifact) (b : Bool)
      → env.open_backup j id ≡ returned a
      → option_eq (some a.sha256) recorded ≡ b
      → BackupSeen env (some id) recorded (b, some a.sha256)
  compared-BackupSeen id recorded j a true e same = (id, j, a, refl, e, same, refl)
  compared-BackupSeen id recorded j a false e same = tt

  not_verified-BackupSeen :
      (id recorded : Option ℕ) (e : Raised)
      → Triple Anything (not_verified env e) (λ f _. BackupSeen env id recorded f) Anything
  unfolding not_verified
  not_verified-BackupSeen id recorded (base_exception t) = Triple-raise _ (λ w h. tt)
  not_verified-BackupSeen id recorded _ = Triple-pure (false, none) (λ w h. tt)

  pub final_facts-BackupSeen :
      (id recorded : Option ℕ)
      → Triple Anything (final_facts env id recorded) (λ f _. BackupSeen env id recorded f) Anything
  unfolding final_facts compare_backup open_verified
  final_facts-BackupSeen none recorded = Triple-pure (false, none) (λ w h. tt)
  final_facts-BackupSeen (some id) recorded =
      Triple-try Anything _ _
        (Triple-bind (λ a _. (j : List Call) × (env.open_backup j id ≡ returned a)) _ _
          (Triple-ask _ _ (λ w i _ e. (w.journal, e)) (λ w _ _. tt))
          λ a. Triple-pure _ (λ w x. compared-BackupSeen id recorded x.0 a _ x.1 refl))
        (not_verified-BackupSeen (some id) recorded)

  no_digest-DigestSeen :
      (e : Raised) → Triple Anything (no_digest env e) (λ d _. DigestSeen env d) Anything
  unfolding no_digest
  no_digest-DigestSeen (base_exception t) = Triple-raise _ (λ w h. tt)
  no_digest-DigestSeen _ = Triple-pure none (λ w h. tt)

  pub production_digest-DigestSeen :
      Triple Anything (production_digest env) (λ d _. DigestSeen env d) Anything
  unfolding production_digest
  production_digest-DigestSeen =
      Triple-try Anything _ _
        (Triple-bind (λ d _. (j : List Call) × (env.production_sha256 j ≡ returned d)) _ _
          (Triple-ask _ _ (λ w i _ e. (w.journal, e)) (λ w _ _. tt))
          λ d. Triple-pure (some d) (λ w a. a))
        no_digest-DigestSeen
