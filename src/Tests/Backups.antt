-- ===== src/Tests/Backups.antt =====
-- A retention pass over three backups of the project and one of another.
use dploy_db.Base.{
  ℕ, ◌≡◌, refl, inl, inr, Option, none, some, true, false, not, ◌&&◌, ltb, List, ◌∷◌, [], contains,
}
use dploy_db.Models.Manifest.{ReleaseManifest, ReleasePointers}
use dploy_db.Raised.{Raised}
use dploy_db.Releases.{ReleaseHistory}
use dploy_db.Retention.{Stored, is_candidate}
use dploy_db.Retention.{
  safety_error, find, selected_ids, backups_of, protect, protected_backup_ids, has_duplicate,
  keep_unprotected, is_retained, is_deleted, plan_inventory, delete_all, run_plans, with_plans,
  with_protected, apply_retention,
}
use dploy_db.Sorting.{insert_by, sort_by}
use dploy_db.Retention.Plan.{newer_candidates, plan_inventory-exact}
use dploy_db.Retention.Safety.{Spares, plan_inventory-idempotent, apply_retention-protects}
use dploy_db.Tests.Data.{backed_up_release}

abbrev stored : ℕ → ℕ → Stored
stored id t = record { backup_id = id; project = "shop"; completed_at = t }

abbrev foreign : Stored
foreign = record { backup_id = 50; project = "blog"; completed_at = 1 }

-- 40 and 41 belong to the previous release; of the others the newest one is kept.
abbrev inventory : List Stored
inventory = stored 40 1 ∷ stored 42 2 ∷ stored 43 3 ∷ foreign ∷ []

plan_inventory-exact_example :
    (contains 42 (42 ∷ []) ≡ (
      is_candidate "shop" (40 ∷ 41 ∷ []) (stored 42 2)
      && not (ltb (newer_candidates inventory "shop" (40 ∷ 41 ∷ []) (stored 42 2)) 1)))
    × (contains 42 (40 ∷ 43 ∷ 50 ∷ []) ≡ not (contains 42 (42 ∷ [])))
unfolding safety_error find selected_ids backups_of protect protected_backup_ids has_duplicate
    keep_unprotected is_retained is_deleted plan_inventory delete_all run_plans with_plans
    with_protected apply_retention insert_by sort_by
plan_inventory-exact_example =
    plan_inventory-exact inventory "shop" (40 ∷ 41 ∷ []) 1 (42 ∷ []) (40 ∷ 43 ∷ 50 ∷ [])
      (stored 42 2) refl (inr (inl refl))

plan_inventory-idempotent_example : contains 43 [] ≡ false
unfolding safety_error find selected_ids backups_of protect protected_backup_ids has_duplicate
    keep_unprotected is_retained is_deleted plan_inventory delete_all run_plans with_plans
    with_protected apply_retention insert_by sort_by
plan_inventory-idempotent_example =
    plan_inventory-idempotent inventory "shop" (40 ∷ 41 ∷ []) 1 [] (40 ∷ 43 ∷ 50 ∷ []) (stored 43 3)
      refl refl (inr (inl refl))

-- The active release, without backups of its own.
abbrev current : ReleaseManifest
current = record backed_up_release {
  release_id = 8;
  rehearsal_backup_id = none;
  final_backup_id = none;
}

abbrev pointers : ReleasePointers
pointers = record { active_release_id = 8; previous_release_id = some 7; updated_at = 1 }

abbrev history : ReleaseHistory
history = record { pointers = some pointers; releases = current ∷ backed_up_release ∷ [] }

-- The storage fails at its first deletion.
abbrev broken : ℕ → Option Raised
broken _ = some (Raised.other_exception "storage")

apply_retention-protects_example :
    Spares 40 (apply_retention "shop" 1 history inventory inventory true (λ _. none) broken)
unfolding safety_error find selected_ids backups_of protect protected_backup_ids has_duplicate
    keep_unprotected is_retained is_deleted plan_inventory delete_all run_plans with_plans
    with_protected apply_retention insert_by sort_by
apply_retention-protects_example =
    apply_retention-protects "shop" 1 history inventory inventory true (λ _. none) broken pointers 7
      40 backed_up_release refl (inr refl) refl (inl refl)
