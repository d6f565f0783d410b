-- ===== src/Retention.antt =====
-- dploydb/retention.py: which backups one retention pass deletes. Backup and release identities are
-- numbers, in the order that Python sorts them.
pub mod Plan
pub mod Safety
use text.Mathlib.Text.{◌==◌ as str_eq}
use dploy_db.Base.{
  ℕ, String, Bool, true, false, not, ◌&&◌, ◌||◌, Option, none, some, List, [], ◌∷◌, ◌++◌, map, ltb,
  ◌==◌, if◌then◌else◌, take, select, contains,
}
use dploy_db.Errors.{new_error, safety_check_error}
use dploy_db.Models.Manifest.{ReleaseManifest, ReleasePointers}
use dploy_db.Raised.{Raised, dploydb, other_exception, Outcome, returned, raised}
use dploy_db.Releases.{ReleaseHistory}
use dploy_db.Sorting.{sort_by}

-- One verified backup of an inventory: `(backup_id, project, completed_at)`.
pub record Stored : Type 0 where
  pub backup_id : ℕ
  pub project : String
  pub completed_at : ℕ

-- `_retention_safety_error`
unfoldable pub safety_error : String → Raised
safety_error detail = dploydb (
    new_error safety_check_error detail false none none
      "Preserve all backups, repair release or backup inventory evidence, then retry retention.")

-- `history.find(release_id)`
unfoldable pub find : ℕ → List ReleaseManifest → Option ReleaseManifest
find id [] = none
find id (m ∷ ms) = if m.release_id == id then some m else find id ms

-- `[pointers.active_release_id]`, and the previous release where there is one
unfoldable pub selected_ids : ReleasePointers → List ℕ
selected_ids p = p.active_release_id ∷ previous p.previous_release_id
  where
    previous : Option ℕ → List ℕ
    previous none = []
    previous (some id) = id ∷ []

-- The backups that one release protects.
unfoldable pub backups_of : ReleaseManifest → List ℕ
backups_of m = one m.rehearsal_backup_id ++ one m.final_backup_id
  where
    one : Option ℕ → List ℕ
    one none = []
    one (some id) = id ∷ []

-- The loop of `protected_backup_ids`: a set as the list of what was added to it.
unfoldable pub protect : List ReleaseManifest → String → List ℕ → Outcome (List ℕ)
unfolding find backups_of safety_error
protect releases project [] = returned []
protect releases project (id ∷ ids) =
    let rest = protect releases project ids in found (find id releases) rest
  where
    with_rest : ReleaseManifest → Outcome (List ℕ) → Outcome (List ℕ)
    with_rest m (returned others) = returned (backups_of m ++ others)
    with_rest m (raised e) = raised e

    found : Option ReleaseManifest → Outcome (List ℕ) → Outcome (List ℕ)
    found none rest =
        raised
          (safety_error "release pointers select a manifest missing from the retention snapshot")
    found (some m) rest =
        if not (str_eq m.project project)
        then raised (
            safety_error
              "release pointers select a different project; backup retention was refused")
        else with_rest m rest

-- `protected_backup_ids`
unfoldable pub protected_backup_ids : ReleaseHistory → String → Outcome (List ℕ)
unfolding protect selected_ids
protected_backup_ids h project = by_pointers h.pointers
  where
    by_pointers : Option ReleasePointers → Outcome (List ℕ)
    by_pointers none = returned []
    by_pointers (some p) = protect h.releases project (selected_ids p)

-- `len(identities) != len(set(identities))`
unfoldable pub has_duplicate : List Stored → Bool
has_duplicate [] = false
has_duplicate (r ∷ rs) = contains r.backup_id (map (λ x. x.backup_id) rs) || has_duplicate rs

-- The sort key `(completed_at, backup_id)`.
abbrev pub newer : Stored → Stored → Bool
newer a b =
    ltb b.completed_at a.completed_at
    || (a.completed_at == b.completed_at && ltb b.backup_id a.backup_id)

abbrev pub older : Stored → Stored → Bool
older a b = newer b a

abbrev pub ids_of : List Stored → List ℕ
ids_of rs = map (λ r. r.backup_id) rs

-- `record[1] == project` and `record[0] not in protected`
abbrev pub is_candidate : String → List ℕ → Stored → Bool
is_candidate project protected r = str_eq r.project project && not (contains r.backup_id protected)

-- The newest candidates, as many as are kept.
unfoldable pub keep_unprotected : List Stored → String → List ℕ → ℕ → List ℕ
keep_unprotected records project protected keep_last =
    ids_of (take keep_last (sort_by newer (select (is_candidate project protected) records)))

-- The test of the set comprehension `retained`.
unfoldable pub is_retained : List Stored → String → List ℕ → ℕ → Stored → Bool
unfolding keep_unprotected
is_retained records project protected keep_last r =
    contains r.backup_id protected
    || contains r.backup_id (keep_unprotected records project protected keep_last)
    || not (str_eq r.project project)

-- The test of the comprehension that makes `deleted`: managed and not retained.
unfoldable pub is_deleted : List Stored → String → List ℕ → ℕ → Stored → Bool
unfolding is_retained
is_deleted records project protected keep_last r =
    str_eq r.project project && not (is_retained records project protected keep_last r)

-- `_plan_inventory`: the deleted identities, oldest first, and the retained ones in order.
unfoldable pub plan_inventory : List Stored → String → List ℕ → ℕ → Outcome (List ℕ × List ℕ)
unfolding has_duplicate is_deleted is_retained safety_error
plan_inventory records project protected keep_last =
    if has_duplicate records
    then raised (safety_error "backup inventory contains duplicate identities")
    else returned (
      ids_of (sort_by older (select (is_deleted records project protected keep_last) records)),
      sort_by ltb (ids_of (select (is_retained records project protected keep_last) records)),
    )

pub record RetentionResult : Type 0 where
  pub protected : List ℕ
  pub local_deleted : List ℕ
  pub remote_deleted : List ℕ
  pub local_retained : List ℕ
  pub remote_retained : List ℕ

-- `for backup_id in …: storage.delete(backup_id)`: the requests that were made, and what raised.
unfoldable pub delete_all : (ℕ → Option Raised) → List ℕ → List ℕ × Option Raised
delete_all storage [] = ([], none)
delete_all storage (id ∷ ids) = let rest = delete_all storage ids in next (storage id) rest
  where
    next : Option Raised → List ℕ × Option Raised → List ℕ × Option Raised
    next none (requests, e) = (id ∷ requests, e)
    next (some e) rest = (id ∷ [], some e)

-- What a pass asked of the two storages, and how it ended.
pub record Pass : Type 0 where
  pub local_requests : List ℕ
  pub remote_requests : List ℕ
  pub result : Outcome RetentionResult

abbrev refused : Raised → Pass
refused e = record { local_requests = []; remote_requests = []; result = raised e }

-- The deletions of both plans: the remote ones only after all local ones.
unfoldable pub run_plans :
    List ℕ
    → (ℕ → Option Raised)
    → (ℕ → Option Raised)
    → Bool
    → List ℕ × List ℕ
    → List ℕ × List ℕ
    → Pass
unfolding delete_all
run_plans protected local remote has_remote (local_delete, local_keep)
      (remote_delete, remote_keep) =
    by_local (delete_all local local_delete)
  where
    finished : RetentionResult
    finished = record {
      protected = sort_by ltb protected;
      local_deleted = local_delete;
      remote_deleted = remote_delete;
      local_retained = local_keep;
      remote_retained = remote_keep;
    }

    by_remote : List ℕ → List ℕ × Option Raised → Pass
    by_remote done (requests, none) = record {
      local_requests = done;
      remote_requests = requests;
      result = returned finished;
    }
    by_remote done (requests, some e) = record {
      local_requests = done;
      remote_requests = requests;
      result = raised e;
    }

    by_local : List ℕ × Option Raised → Pass
    by_local (requests, some e) = record {
      local_requests = requests;
      remote_requests = [];
      result = raised e;
    }
    by_local (requests, none) =
        if has_remote
        then by_remote requests (delete_all remote remote_delete)
        else record { local_requests = requests; remote_requests = []; result = returned finished }

unfoldable pub with_plans :
    List ℕ
    → (ℕ → Option Raised)
    → (ℕ → Option Raised)
    → Bool
    → Outcome (List ℕ × List ℕ)
    → Outcome (List ℕ × List ℕ)
    → Pass
with_plans protected local remote has_remote (raised e) _ = refused e
with_plans protected local remote has_remote (returned _) (raised e) = refused e
with_plans protected local remote has_remote (returned a) (returned b) =
    run_plans protected local remote has_remote a b

unfoldable pub with_protected :
    String
    → ℕ
    → List Stored
    → List Stored
    → Bool
    → (ℕ → Option Raised)
    → (ℕ → Option Raised)
    → Outcome (List ℕ)
    → Pass
with_protected project keep_last local remote has_remote delete_local delete_remote (raised e) =
    refused e
with_protected project keep_last local remote has_remote delete_local delete_remote (returned p) =
    with_plans p delete_local delete_remote has_remote (plan_inventory local project p keep_last)
      (plan_inventory remote project p keep_last)

-- `apply_retention`; without a remote storage its inventory is empty and it is not asked.
unfoldable pub apply_retention :
    String
    → ℕ
    → ReleaseHistory
    → List Stored
    → List Stored
    → Bool
    → (ℕ → Option Raised)
    → (ℕ → Option Raised)
    → Pass
unfolding with_protected
apply_retention project keep_last history local remote has_remote delete_local delete_remote =
    if ltb keep_last 1
    then refused (other_exception "keep_last must be positive")
    else with_protected project keep_last local (if has_remote then remote else []) has_remote
        delete_local delete_remote (protected_backup_ids history project)
