-- ===== src/ManualRestore/Preview.antt =====
-- dploydb/manual_restore.py: what `preview_configured_restore` has found where it returns.
use dploy_db.Base.{
  ℕ, ◌≡◌, refl, Bool, true, false, Option, none, some, List, [], ◌∷◌, ◌==◌, option_eq,
  if◌then◌else◌, arith,
}
use text.Mathlib.Text.{◌==◌ as str_eq}
use dploy_db.Models.State.{active, state_is}
use dploy_db.Models.Manifest.{ProductionApplicationHandle, ReleaseManifest}
use dploy_db.Raised.{returned}
use dploy_db.World.{Environment, BackupArtifact, Call, open_backup}
use dploy_db.Exec.Keeps.{Triple, Triple-bind, Triple-pure, Triple-raise, Triple-ask}
use dploy_db.Calls.{ran_entry}
use dploy_db.Recovery.Diagnose.{open_verified}
use dploy_db.Exec.Returns.{Anything, any, guard, given}
use dploy_db.ManualRestore.{
  RestoreSelection, find_release, same_application, fits_active, require_selected,
  select_applications, select_backup, preview_configured_restore,
}

-- The applications of the two releases.
pub record Apart (replaced : ReleaseManifest) (a b : Option ProductionApplicationHandle)
    (p : ProductionApplicationHandle × ProductionApplicationHandle) : Type 0 where
  pub current : a ≡ some p.0
  pub chosen : b ≡ some p.1
  pub preserved : same_application replaced.previous_application p.1 ≡ true
  pub different : str_eq p.0.container_id p.1.container_id ≡ false

-- The backup is what the storage opened as the final one that the replaced release recorded.
pub record Recorded (env : Environment) (replaced : ReleaseManifest) (id sha256 : Option ℕ)
    (b : BackupArtifact) : Type 0 where
  pub identity : ℕ
  pub journal : List Call
  pub recorded_id : id ≡ some identity
  pub looked_up : env.open_backup journal identity ≡ returned b
  pub digest : ℕ
  pub known : sha256 ≡ some digest
  pub fits : fits_active b replaced digest ≡ true

-- The selection of release `id`.
pub record Protected (env : Environment) (id : ℕ) (s : RestoreSelection) : Type 0 where
  pub named : s.selected_release.release_id ≡ id
  pub both_active :
      (state_is s.active_release.status active ≡ true)
      × (state_is s.selected_release.status active ≡ true)
  pub lineage : option_eq s.active_release.previous_release_id (some id) ≡ true
  pub apart :
      Apart s.active_release s.active_release.new_application s.selected_release.new_application
        (s.current_application, s.selected_application)
  pub recorded :
      Recorded env s.active_release s.active_release.final_backup_id
        s.active_release.final_backup_sha256 s.selected_backup_metadata

find_release-named :
    (id : ℕ) (ms : List ReleaseManifest) (m : ReleaseManifest)
    → find_release id ms ≡ some m
    → m.release_id ≡ id
unfolding find_release
find_release-named id [] m e = ground arith
find_release-named id (x ∷ ms) m e =
    by_match (x.release_id == id) refl e (find_release-named id ms m)
  where
    by_match :
        (b : Bool)
        → (x.release_id == id) ≡ b
        → (if b then some x else find_release id ms) ≡ some m
        → (find_release id ms ≡ some m → m.release_id ≡ id)
        → m.release_id ≡ id
    by_match true same f rest = ground arith
    by_match false other f rest = rest f

module _ (env : Environment) where
  selected :
      (id : ℕ) (ms : List ReleaseManifest) (o : Option ReleaseManifest)
      → find_release id ms ≡ o
      → Triple Anything (require_selected env o) (λ m w. Anything w × (m.release_id ≡ id)) Anything
  unfolding require_selected
  selected id ms none e = Triple-raise _ (λ w h. h)
  selected id ms (some m) e = Triple-pure m (λ w h. (h, find_release-named id ms m e))

  applications :
      (replaced : ReleaseManifest) (a b : Option ProductionApplicationHandle)
      → Triple Anything
          (select_applications env replaced a b)
          (λ p w. Anything w × Apart replaced a b p)
          Anything
  unfolding select_applications
  applications replaced none b = Triple-raise _ (λ w h. h)
  applications replaced (some a) none = Triple-raise _ (λ w h. h)
  applications replaced (some a) (some b) = Triple-bind _ _ _ (guard _ _) λ _. given λ same.
      Triple-bind _ _ _ (guard _ _) λ _. given λ other.
        Triple-pure (a, b)
          (λ w h. (
            tt,
            record { current = refl; chosen = refl; preserved = ground arith; different = other },
          ))

  backups :
      (replaced : ReleaseManifest) (a b : Option ℕ)
      → Triple Anything
          (select_backup env replaced a b)
          (λ x w. Anything w × Recorded env replaced a b x)
          Anything
  unfolding select_backup open_verified
  backups replaced none b = Triple-raise _ (λ w h. h)
  backups replaced (some a) none = Triple-raise _ (λ w h. h)
  backups replaced (some a) (some d) =
      Triple-bind (λ x w. Anything w × ((j : List Call) × (env.open_backup j a ≡ returned x))) _ _
        (Triple-ask _ (ran_entry open_backup) (λ w x _ e. (tt, (w.journal, e))) (λ w _ _. tt))
        λ x. given λ (j, answer). Triple-bind _ _ _ (guard _ _) λ _. given λ fits.
          Triple-pure x (λ w h. (
            tt,
            record {
              identity = a;
              journal = j;
              recorded_id = refl;
              looked_up = answer;
              digest = d;
              known = refl;
              fits = ground arith;
            },
          ))

  pub previewed :
      (id : ℕ)
      → Triple Anything
          (preview_configured_restore env id)
          (λ s w. Anything w × Protected env id s)
          Anything
  unfolding preview_configured_restore
  previewed id =
      Triple-bind (λ _. Anything) _ _ (any _)
        λ history. Triple-bind _ _ _ (selected id history.releases _ refl) λ chosen. given λ named.
          Triple-bind (λ _. Anything) _ _ (any _)
            λ p.
              Triple-bind (λ _. Anything) _ _ (any _)
                λ replaced. Triple-bind _ _ _ (guard _ _) λ _. given λ ok.
                  Triple-bind _ _ _ (guard _ _) λ _. given λ lineage.
                    Triple-bind _ _ _ (applications replaced _ _) λ apps. given λ apart.
                      Triple-bind _ _ _ (backups replaced _ _) λ b. given λ recorded.
                        Triple-pure _ (λ w h. (
                          tt,
                          record {
                            named = named;
                            both_active = (ground arith, ground arith);
                            lineage = ground arith;
                            apart = apart;
                            recorded = recorded;
                          },
                        ))
