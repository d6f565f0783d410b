-- ===== src/Retention/Plan.antt =====
-- What one retention pass (dploydb/retention.py) deletes: an exact description of it.
use dploy_db.Base.{
  ℕ, zero, suc, ◌≤◌, ◌≡◌, refl, String, Bool, true, false, not, ◌&&◌, List, [], ◌∷◌, ltb, ◌==◌,
  take, select, contains, arith, ◌⊎◌, inl, inr, Bool-cases,
}
use dploy_db.Raised.{Outcome, returned, guard-returned}
use dploy_db.Sorting.{
  insert_by, sort_by, count, count-insert_by, count-sort_by, contains-insert_by, contains-sort_by,
  contains-sort_ids, Sorted,
}
use dploy_db.Retention.{
  Stored, has_duplicate, newer, older, ids_of, is_candidate, keep_unprotected, is_retained,
  is_deleted, plan_inventory,
}

abbrev pub Among : Stored → List Stored → Type 0
Among b [] = ⊥
Among b (r ∷ rs) = (b ≡ r) ⊎ Among b rs

pub count_mono :
    (p q : Stored → Bool) (xs : List Stored)
    → ((x : Stored) → p x ≡ true → q x ≡ true)
    → count p xs ≤ count q xs
count_mono p q [] h = ground arith
count_mono p q (x ∷ xs) h = ground (arith, count_mono p q xs h, h x)

pub count-select :
    (p q : Stored → Bool) (xs : List Stored) → count p (select q xs) ≡ count (λ x. q x && p x) xs
count-select p q [] = refl
count-select p q (x ∷ xs) = ground (arith, count-select p q xs)

newer_trans : (a b c : Stored) → newer a b ≡ true → newer b c ≡ true → newer a c ≡ true
newer_trans a b c h k = ground arith

insert_by-Sorted :
    (x : Stored) (xs : List Stored) → Sorted newer xs → Sorted newer (insert_by newer x xs)
unfolding insert_by
insert_by-Sorted x [] s = (refl, tt)
insert_by-Sorted x (y ∷ ys) (none_newer, s) = elim (Bool-cases (newer x y)) [
  | inl first ↦ rw first (
    ground
        (arith, count_mono (λ z. newer z x) (λ z. newer z y) ys (λ z h. newer_trans z x y h first)),
    (none_newer, s),
  )
  | inr later ↦
      rw later
        (ground (arith, count-insert_by (λ z. newer z y) newer x ys), insert_by-Sorted x ys s)
]

sort_by-Sorted : (xs : List Stored) → Sorted newer (sort_by newer xs)
unfolding sort_by
sort_by-Sorted [] = tt
sort_by-Sorted (x ∷ xs) = insert_by-Sorted x (sort_by newer xs) (sort_by-Sorted xs)

has_duplicate-insert_by :
    (x : Stored) (xs : List Stored) → has_duplicate (insert_by newer x xs) ≡ has_duplicate (x ∷ xs)
unfolding insert_by has_duplicate
has_duplicate-insert_by x [] = refl
has_duplicate-insert_by x (y ∷ ys) = ground (
  arith,
  has_duplicate-insert_by x ys,
  contains-insert_by (λ r. r.backup_id) newer y.backup_id x ys,
)

has_duplicate-sort_by : (xs : List Stored) → has_duplicate (sort_by newer xs) ≡ has_duplicate xs
unfolding sort_by has_duplicate
has_duplicate-sort_by [] = refl
has_duplicate-sort_by (x ∷ xs) = ground (
  arith,
  has_duplicate-insert_by x (sort_by newer xs),
  has_duplicate-sort_by xs,
  contains-sort_by (λ r. r.backup_id) newer x.backup_id xs,
)

Among-contains :
    (b : Stored) (xs : List Stored) → Among b xs → contains b.backup_id (ids_of xs) ≡ true
Among-contains b [] h = elim h [ ]
Among-contains b (x ∷ xs) (inl same) = rw same (ground arith)
Among-contains b (x ∷ xs) (inr later) = ground (arith, Among-contains b xs later)

-- Another record of the list has another identity.
distinct_head :
    (b x : Stored) (xs : List Stored)
    → has_duplicate (x ∷ xs) ≡ false
    → Among b xs
    → (b.backup_id == x.backup_id) ≡ false
unfolding has_duplicate
distinct_head b x xs d later = elim (Bool-cases (b.backup_id == x.backup_id)) [
  | inl same ↦ ground (arith, Among-contains b xs later)
  | inr other ↦ other
]

-- No record of the list comes before its head, so the head comes before each other.
head_first :
    (b x : Stored) (xs : List Stored)
    → count (λ y. newer y x) xs ≡ 0
    → has_duplicate (x ∷ xs) ≡ false
    → Among b xs
    → newer x b ≡ true
head_first b x xs least d later =
    ground (arith, not_newer b x xs least later, distinct_head b x xs d later)
  where
    not_newer :
        (b x : Stored) (xs : List Stored)
        → count (λ y. newer y x) xs ≡ 0
        → Among b xs
        → newer b x ≡ false
    not_newer b x [] least h = elim h [ ]
    not_newer b x (y ∷ ys) least (inl same) = rw same (ground arith)
    not_newer b x (y ∷ ys) least (inr later) = not_newer b x ys (ground arith) later

-- In a sorted list a record stands among the first `k` if less than `k` records come before it.
rank :
    (b : Stored) (k : ℕ) (xs : List Stored)
    → Sorted newer xs
    → has_duplicate xs ≡ false
    → Among b xs
    → contains b.backup_id (ids_of (take k xs)) ≡ ltb (count (λ y. newer y b) xs) k
unfolding has_duplicate
rank b zero xs s d here = ground arith
rank b (suc k) [] s d h = elim h [ ]
rank b (suc k) (x ∷ xs) (least, s) d (inl same) =
    let alone = rw (← same) at least in rw (← same) (ground arith)
rank b (suc k) (x ∷ xs) (least, s) d (inr later) = ground (
  arith,
  rank b k xs s (ground arith) later,
  head_first b x xs least d later,
  distinct_head b x xs d later,
)

Among-insert_by :
    (b x : Stored) (xs : List Stored) → Among b (x ∷ xs) → Among b (insert_by newer x xs)
unfolding insert_by
Among-insert_by b x [] h = h
Among-insert_by b x (y ∷ ys) h = elim (Bool-cases (newer x y)) [
  | inl first ↦ rw first h
  | inr later ↦ rw later (elim h [
    | inl same ↦ inr (Among-insert_by b x ys (inl same))
    | inr (inl same) ↦ inl same
    | inr (inr deep) ↦ inr (Among-insert_by b x ys (inr deep))
  ])
]

Among-sort_by : (b : Stored) (xs : List Stored) → Among b xs → Among b (sort_by newer xs)
unfolding sort_by
Among-sort_by b [] h = elim h [ ]
Among-sort_by b (x ∷ xs) (inl same) = Among-insert_by b x (sort_by newer xs) (inl same)
Among-sort_by b (x ∷ xs) (inr later) =
    Among-insert_by b x (sort_by newer xs) (inr (Among-sort_by b xs later))

Among-select :
    (p : Stored → Bool) (b : Stored) (xs : List Stored)
    → p b ≡ true
    → Among b xs
    → Among b (select p xs)
Among-select p b [] h k = elim k [ ]
Among-select p b (x ∷ xs) h (inl same) = rw (← same, h) (inl refl)
Among-select p b (x ∷ xs) h (inr later) = elim (Bool-cases (p x)) [
  | inl pass ↦ rw pass (inr (Among-select p b xs h later))
  | inr fail ↦ rw fail (Among-select p b xs h later)
]

contains-select :
    (p : Stored → Bool) (k : ℕ) (xs : List Stored)
    → contains k (ids_of xs) ≡ false
    → contains k (ids_of (select p xs)) ≡ false
contains-select p k [] h = h
contains-select p k (x ∷ xs) h = ground (arith, contains-select p k xs)

has_duplicate-select :
    (p : Stored → Bool) (xs : List Stored)
    → has_duplicate xs ≡ false
    → has_duplicate (select p xs) ≡ false
unfolding has_duplicate
has_duplicate-select p [] h = h
has_duplicate-select p (x ∷ xs) h =
    ground (arith, has_duplicate-select p xs, contains-select p x.backup_id xs)

-- A selected list has the identity of a record of the whole exactly if the record passes the test.
selected :
    (p : Stored → Bool) (b : Stored) (xs : List Stored)
    → has_duplicate xs ≡ false
    → Among b xs
    → contains b.backup_id (ids_of (select p xs)) ≡ p b
unfolding has_duplicate
selected p b [] d h = elim h [ ]
selected p b (x ∷ xs) d (inl same) = rw same (ground (arith, contains-select p x.backup_id xs))
selected p b (x ∷ xs) d (inr later) =
    ground (arith, selected p b xs (ground arith) later, distinct_head b x xs d later)

-- An unprotected backup of the project is kept if it is among the newest.
pub kept :
    (records : List Stored) (project : String) (protected : List ℕ) (keep_last : ℕ) (b : Stored)
    → has_duplicate records ≡ false
    → Among b records
    → is_candidate project protected b ≡ true
    → contains b.backup_id (keep_unprotected records project protected keep_last)
      ≡ ltb (count (λ r. is_candidate project protected r && newer r b) records) keep_last
unfolding keep_unprotected
kept records project protected keep_last b d here free =
    let candidates = select (is_candidate project protected) records in
    rw (
      rank b keep_last (sort_by newer candidates) (sort_by-Sorted candidates)
          (rw (has_duplicate-sort_by candidates) (has_duplicate-select _ records d))
          (Among-sort_by b candidates (Among-select _ b records free here)),
      count-sort_by (λ y. newer y b) newer candidates,
      count-select (λ y. newer y b) (is_candidate project protected) records,
    )

-- How many candidates for deletion are newer.
unfoldable pub newer_candidates : List Stored → String → List ℕ → Stored → ℕ
newer_candidates records project protected b =
    count (λ r. is_candidate project protected r && newer r b) records

pub returned_pair :
    (xs ys xs' ys' : List ℕ)
    → ◌≡◌ {A = Outcome (List ℕ × List ℕ)} (returned (xs, ys)) (returned (xs', ys'))
    → (xs ≡ xs') × (ys ≡ ys')
returned_pair xs ys xs' ys' e = (ground arith, ground arith)

-- The two lists of a plan that is returned, by the tests of the comprehensions.
pub planned :
    (records : List Stored) (project : String) (protected : List ℕ) (keep_last : ℕ)
    (deleted retained : List ℕ) (b : Stored)
    → plan_inventory records project protected keep_last ≡ returned (deleted, retained)
    → Among b records
    → (has_duplicate records ≡ false)
      × (contains b.backup_id deleted ≡ is_deleted records project protected keep_last b)
      × (contains b.backup_id retained ≡ is_retained records project protected keep_last b)
unfolding plan_inventory
planned records project protected keep_last deleted retained b h here =
    let (d, e) = guard-returned (has_duplicate records) _ _ h in
    let (same_deleted, same_retained) = returned_pair _ _ deleted retained e in
    (
      d,
      rw (
        ← same_deleted,
        contains-sort_by (λ r. r.backup_id) older b.backup_id,
        selected (is_deleted records project protected keep_last) b records d here,
      ),
      rw (
        ← same_retained,
        contains-sort_ids ltb b.backup_id,
        selected (is_retained records project protected keep_last) b records d here,
      ),
    )

-- Where a plan is returned: a backup of the inventory is asked to be deleted exactly if it belongs to
-- the project, it is not protected, and `keep_last` or more such backups are newer; it is reported
-- as retained exactly otherwise.
pub plan_inventory-exact :
    (records : List Stored) (project : String) (protected : List ℕ) (keep_last : ℕ)
    (deleted retained : List ℕ) (b : Stored)
    → plan_inventory records project protected keep_last ≡ returned (deleted, retained)
    → Among b records
    → (contains b.backup_id deleted ≡ (
        is_candidate project protected b
        && not (ltb (newer_candidates records project protected b) keep_last)))
      × (contains b.backup_id retained ≡ not (contains b.backup_id deleted))
unfolding is_deleted is_retained newer_candidates
plan_inventory-exact records project protected keep_last deleted retained b h here =
    let (d, gone, stays) = planned records project protected keep_last deleted retained b h here in
    ground (arith, gone, stays, kept records project protected keep_last b d here)
