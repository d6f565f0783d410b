-- ===== src/Models/Manifest/Laws.antt =====
-- What a release manifest that passed `validate_release_lifecycle` (dploydb/models.py) guarantees.
use dploy_db.Base.{
  ℕ, zero, suc, ◌≡◌, refl, Bool, true, false, none, List, [], ◌∷◌, arith, is_some, Bool-cases, inl,
  inr,
}
use dploy_db.Models.State.{Check, active}
use dploy_db.Models.Manifest.{
  ReleaseManifest, lifecycle_checks, first_violation, is_failed, is_migrated, needs_rehearsal,
}

-- The test at a place of the list, and `false` past its end.
abbrev pub violated_at : ℕ → List Check → Bool
violated_at n [] = false
violated_at zero (c ∷ cs) = c.violated
violated_at (suc n) (c ∷ cs) = violated_at n cs

-- Where no test is the first that fails, none fails.
pub passes_at : (n : ℕ) (cs : List Check) → first_violation cs ≡ none → violated_at n cs ≡ false
unfolding first_violation
passes_at n [] h = refl
passes_at zero (c ∷ cs) h = ground arith
passes_at (suc n) (c ∷ cs) h = elim (Bool-cases c.violated) [
  | inl bad ↦ ground arith
  | inr good ↦ passes_at n cs (ground arith)
]

-- A manifest that the models accept.
abbrev pub IsValid : ReleaseManifest → Type 0
IsValid m = first_violation (lifecycle_checks m) ≡ none

-- An accepted active release has everything that the safety argument rests on: the final backup,
-- a changed production database with its durable intent, a healthy new application, the
-- activation attempt, the activation itself, the previous application, and no failure.
pub active_complete :
    (m : ReleaseManifest)
    → IsValid m
    → m.status ≡ active
    → (is_some m.final_backup_id ≡ true)
      × (is_some m.rehearsal_backup_id ≡ true)
      × (m.production_changed ≡ true)
      × (m.production_migration_started ≡ true)
      × (is_some m.new_application ≡ true)
      × (m.production_health_passed ≡ true)
      × (m.traffic_activation_attempted ≡ true)
      × (m.traffic_activated ≡ true)
      × (is_some m.previous_application ≡ true)
      × (is_some m.failure ≡ false)
unfolding lifecycle_checks is_migrated is_failed needs_rehearsal
active_complete m v h =
    let at = λ (n : ℕ). passes_at n (lifecycle_checks m) v in
    (
      ground (arith, at 20),
      ground (arith, at 11),
      ground (arith, at 20),
      ground (arith, at 21),
      ground (arith, at 22),
      ground (arith, at 22),
      ground (arith, at 17, at 23),
      ground (arith, at 23),
      ground (arith, at 24),
      ground (arith, at 5),
    )
