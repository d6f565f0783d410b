-- ===== src/Retention/Safety.antt =====
-- A whole retention pass (dploydb/retention.py) never asks for the deletion of a protected backup,
-- and a second pass deletes nothing.
use dploy_db.Base.{
  ℕ, ◌≤◌, ◌≡◌, refl, ap, String, Bool, true, false, ◌&&◌, List, [], ◌∷◌, ◌++◌, ◌||◌, ◌⊎◌, some, ltb,
  ◌==◌, select, contains, arith, inl, inr, Bool-cases, Option,
}
use dploy_db.Models.Manifest.{ReleaseManifest, ReleasePointers}
use dploy_db.Raised.{Raised, Outcome, returned, raised, guard-returned}
use dploy_db.Sorting.{contains-sort_by}
use dploy_db.Retention.{
  Stored, ReleaseHistory, newer, older, ids_of, is_candidate, is_retained, is_deleted,
  has_duplicate, plan_inventory, protected_backup_ids, delete_all, run_plans, with_plans,
  with_protected, apply_retention, Pass, backups_of, protect, find, selected_ids,
}
use dploy_db.Retention.Plan.{
  Among, newer_candidates, plan_inventory-exact, count_mono, count-select, kept, returned_pair,
}

Among-selected :
    (p : Stored → Bool) (b : Stored) (xs : List Stored)
    → Among b (select p xs)
    → Among b xs × (p b ≡ true)
Among-selected p b [] h = elim h [ ]
Among-selected p b (x ∷ xs) h = elim (Bool-cases (p x)) [
  | inl pass ↦ elim (rw pass at h) [
    | inl same ↦ (inl same, rw same pass)
    | inr later ↦ let (deep, ok) = Among-selected p b xs later in (inr deep, ok)
  ]
  | inr fail ↦ let (deep, ok) = Among-selected p b xs (rw fail at h) in (inr deep, ok)
]

fewer :
    (q : Stored → Bool) (records : List Stored) (project : String) (protected : List ℕ) (b : Stored)
    → newer_candidates (select q records) project protected b
      ≤ newer_candidates records project protected b
unfolding newer_candidates
fewer q records project protected b =
    rw (count-select (λ r. is_candidate project protected r && newer r b) q records)
      (count_mono _ _ records (λ x h. ground arith))

-- A candidate that was retained is among the newest.
retained_rank :
    (records : List Stored) (project : String) (protected : List ℕ) (keep_last : ℕ) (b : Stored)
    → has_duplicate records ≡ false
    → Among b records
    → is_retained records project protected keep_last b ≡ true
    → is_candidate project protected b ≡ true
    → ltb (newer_candidates records project protected b) keep_last ≡ true
unfolding newer_candidates is_retained
retained_rank records project protected keep_last b d here stays free =
    ground (arith, kept records project protected keep_last b d here free)

-- A plan for what an earlier plan retained, with the same protection and the same number to keep,
-- deletes none of it.
pub plan_inventory-idempotent :
    (records : List Stored) (project : String) (protected : List ℕ) (keep_last : ℕ)
    (deleted retained : List ℕ) (b : Stored)
    → has_duplicate records ≡ false
    → plan_inventory
        (select (is_retained records project protected keep_last) records)
        project
        protected
        keep_last
      ≡ returned (deleted, retained)
    → Among b (select (is_retained records project protected keep_last) records)
    → contains b.backup_id deleted ≡ false
plan_inventory-idempotent records project protected keep_last deleted retained b d h here =
    let kept_by = is_retained records project protected keep_last in
    let (before, stays) = Among-selected kept_by b records here in
    let (exact, _) =
      plan_inventory-exact (select kept_by records) project protected keep_last deleted retained b h
        here in
    elim (Bool-cases (is_candidate project protected b)) [
      | inl free ↦ ground (
        arith,
        exact,
        retained_rank records project protected keep_last b d before stays free,
        fewer kept_by records project protected b,
      )
      | inr out ↦ rw (exact, out)
    ]

-- The requests of a storage are some of the planned ones.
requests_planned :
    (storage : ℕ → Option Raised) (ids : List ℕ) (k : ℕ)
    → contains k ids ≡ false
    → contains k (delete_all storage ids).0 ≡ false
unfolding delete_all
requests_planned storage [] k h = refl
requests_planned storage (id ∷ ids) k h = ground (arith, requests_planned storage ids k)

same_id :
    (k : ℕ) (x : Stored) (protected : List ℕ)
    → contains k protected ≡ true
    → contains x.backup_id protected ≡ false
    → (k == x.backup_id) ≡ false
same_id k x protected h g = elim (Bool-cases (k == x.backup_id)) [
  | inl same ↦
      let is : k ≡ x.backup_id = ground arith in ground (arith, ap (λ i. contains i protected) is)
  | inr other ↦ other
]

never_selected :
    (q : Stored → Bool) (protected : List ℕ) (k : ℕ) (xs : List Stored)
    → ((x : Stored) → q x ≡ true → contains x.backup_id protected ≡ false)
    → contains k protected ≡ true
    → contains k (ids_of (select q xs)) ≡ false
never_selected q protected k [] h here = refl
never_selected q protected k (x ∷ xs) h here = elim (Bool-cases (q x)) [
  | inl pass ↦
      rw (pass, same_id k x protected here (h x pass)) (never_selected q protected k xs h here)
  | inr fail ↦ rw fail (never_selected q protected k xs h here)
]

-- No plan deletes a protected identity.
plan_protects :
    (records : List Stored) (project : String) (protected : List ℕ) (keep_last : ℕ)
    (deleted retained : List ℕ) (k : ℕ)
    → plan_inventory records project protected keep_last ≡ returned (deleted, retained)
    → contains k protected ≡ true
    → contains k deleted ≡ false
unfolding plan_inventory is_deleted is_retained
plan_protects records project protected keep_last deleted retained k h here =
    let (_, e) = guard-returned (has_duplicate records) _ _ h in
    let (same, _) = returned_pair _ _ deleted retained e in
    rw (← same, contains-sort_by (λ r. r.backup_id) older k)
      (never_selected (is_deleted records project protected keep_last) protected k records
        (λ x h. ground arith) here)

-- No request of a pass whose plans do not delete `k` is for `k`.
run_safe :
    (protected : List ℕ) (local remote : ℕ → Option Raised) (has_remote : Bool) (a b c d : List ℕ)
    (k : ℕ)
    → contains k a ≡ false
    → contains k c ≡ false
    → (contains k (run_plans protected local remote has_remote (a, b) (c, d)).local_requests
        ≡ false)
      × (contains k (run_plans protected local remote has_remote (a, b) (c, d)).remote_requests
          ≡ false)
unfolding run_plans
run_safe protected local remote has_remote a b c d k h g =
    ground (arith, requests_planned local a k h, requests_planned remote c k g)

-- A pass asks neither storage to delete `k`.
abbrev pub Spares : ℕ → Pass → Type 0
Spares k pass = (contains k pass.local_requests ≡ false) × (contains k pass.remote_requests ≡ false)

plans_safe :
    (records others : List Stored) (project : String) (protected : List ℕ) (keep_last : ℕ)
    (local remote : ℕ → Option Raised) (has_remote : Bool) (k : ℕ)
    → contains k protected ≡ true
    → (a b : Outcome (List ℕ × List ℕ)) → plan_inventory records project protected keep_last ≡ a
    → plan_inventory others project protected keep_last ≡ b
    → Spares k (with_plans protected local remote has_remote a b)
unfolding with_plans
plans_safe records others project protected keep_last local remote has_remote k here (raised e) b h
      g =
    (refl, refl)
plans_safe records others project protected keep_last local remote has_remote k here (returned a)
      (raised e) h g =
    (refl, refl)
plans_safe records others project protected keep_last local remote has_remote k here
      (returned (a, a')) (returned (b, b')) h g =
    run_safe protected local remote has_remote a a' b b' k
      (plan_protects records project protected keep_last a a' k h here)
      (plan_protects others project protected keep_last b b' k g here)

-- The same for what the history protects.
protected_safe :
    (project : String) (keep_last : ℕ) (history : ReleaseHistory) (local remote : List Stored)
    (has_remote : Bool) (delete_local delete_remote : ℕ → Option Raised) (k : ℕ)
    (o : Outcome (List ℕ))
    → protected_backup_ids history project ≡ o
    → ((protected : List ℕ) → o ≡ returned protected → contains k protected ≡ true)
    → Spares k (
        apply_retention project keep_last history local remote has_remote delete_local
          delete_remote)
unfolding apply_retention with_protected
protected_safe project keep_last history local remote has_remote delete_local delete_remote k o h
      here =
    elim (Bool-cases (ltb keep_last 1)) [
      | inl small ↦ rw small (refl, refl)
      | inr enough ↦ rw (enough, h) (by_outcome _ o here)
    ]
  where
    by_outcome :
        (others : List Stored) (o : Outcome (List ℕ))
        → ((protected : List ℕ) → o ≡ returned protected → contains k protected ≡ true)
        → Spares k
            (with_protected project keep_last local others has_remote delete_local delete_remote o)
    by_outcome others (raised e) here = (refl, refl)
    by_outcome others (returned protected) here =
        plans_safe local others project protected keep_last delete_local delete_remote has_remote k
          (here protected refl) _ _ refl refl

contains-append :
    (k : ℕ) (xs ys : List ℕ) → contains k (xs ++ ys) ≡ (contains k xs || contains k ys)
contains-append k [] ys = refl
contains-append k (x ∷ xs) ys = ground (arith, contains-append k xs ys)

-- The backup is the rehearsal backup or the final backup of the release.
abbrev pub BackupOf : ℕ → ReleaseManifest → Type 0
BackupOf k m = (m.rehearsal_backup_id ≡ some k) ⊎ (m.final_backup_id ≡ some k)

BackupOf-backups_of :
    (k : ℕ) (m : ReleaseManifest) → BackupOf k m → contains k (backups_of m) ≡ true
unfolding backups_of
BackupOf-backups_of k m h = ground (arith, contains-append k)

protect_step :
    (releases : List ReleaseManifest) (project : String) (x : ℕ) (xs ps : List ℕ)
    → protect releases project (x ∷ xs) ≡ returned ps
    → (m : ReleaseManifest) × (others : List ℕ) × (find x releases ≡ some m)
      × (protect releases project xs ≡ returned others)
      × (ps ≡ backups_of m ++ others)
unfolding protect
protect_step releases project x xs ps h = ground arith

protect_covers :
    (releases : List ReleaseManifest) (project : String) (ids ps : List ℕ) (id k : ℕ)
    (m : ReleaseManifest)
    → protect releases project ids ≡ returned ps
    → contains id ids ≡ true
    → find id releases ≡ some m
    → BackupOf k m
    → contains k ps ≡ true
protect_covers releases project [] ps id k m h here found own = ground arith
protect_covers releases project (x ∷ xs) ps id k m h here found own =
    let (m', others, found', rest, is) = protect_step releases project x xs ps h in
    rw (is, contains-append k (backups_of m') others)
      (elim (Bool-cases (id == x)) [
        | inl same ↦
            let e : id ≡ x = ground arith in
            ground (arith, BackupOf-backups_of k m own, ap (λ i. find i releases) e)
        | inr other ↦ ground (arith, protect_covers releases project xs others id k m rest)
      ])

-- The release is the active one or the previous one.
abbrev pub Pointed : ℕ → ReleasePointers → Type 0
Pointed id p = (p.active_release_id ≡ id) ⊎ (p.previous_release_id ≡ some id)

Pointed-selected_ids :
    (id : ℕ) (p : ReleasePointers) → Pointed id p → contains id (selected_ids p) ≡ true
unfolding selected_ids
Pointed-selected_ids id p h = ground arith

history_covers :
    (history : ReleaseHistory) (project : String) (p : ReleasePointers) (id k : ℕ)
    (m : ReleaseManifest) (ps : List ℕ)
    → history.pointers ≡ some p
    → Pointed id p
    → find id history.releases ≡ some m
    → BackupOf k m
    → protected_backup_ids history project ≡ returned ps
    → contains k ps ≡ true
unfolding protected_backup_ids
history_covers history project p id k m ps pointers pointed found own h =
    protect_covers history.releases project (selected_ids p) ps id k m (rw pointers at h)
      (Pointed-selected_ids id p pointed) found own

-- Whichever deletion fails, a pass never asks a storage to delete the rehearsal backup or the final
-- backup of the release that the pointers of the history name as the active one, or of the one that
-- they name as the previous one.
pub apply_retention-protects :
    (project : String) (keep_last : ℕ) (history : ReleaseHistory) (local remote : List Stored)
    (has_remote : Bool) (delete_local delete_remote : ℕ → Option Raised) (p : ReleasePointers)
    (id k : ℕ) (m : ReleaseManifest)
    → history.pointers ≡ some p
    → Pointed id p
    → find id history.releases ≡ some m
    → BackupOf k m
    → Spares k (
        apply_retention project keep_last history local remote has_remote delete_local
          delete_remote)
apply_retention-protects project keep_last history local remote has_remote delete_local
      delete_remote p id k m pointers pointed found own =
    protected_safe project keep_last history local remote has_remote delete_local delete_remote k _
      refl (λ ps h. history_covers history project p id k m ps pointers pointed found own h)
