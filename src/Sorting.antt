-- ===== src/Sorting.antt =====
-- Sorting by a Boolean order, as Python's `sorted` does on records whose keys are distinct.
use dploy_db.Base.{
  ℕ, suc, ◌≡◌, refl, Bool, List, [], ◌∷◌, map, if◌then◌else◌, contains, arith, All, true, false,
}

module _ {A : Type 0} where
  unfoldable pub insert_by : (A → A → Bool) → A → List A → List A
  insert_by before x [] = x ∷ []
  insert_by before x (y ∷ ys) =
      let rest = insert_by before x ys in if before x y then x ∷ y ∷ ys else y ∷ rest

  unfoldable pub sort_by : (A → A → Bool) → List A → List A
  unfolding insert_by
  sort_by before [] = []
  sort_by before (x ∷ xs) = insert_by before x (sort_by before xs)

  -- How many pass a test.
  abbrev pub count : (A → Bool) → List A → ℕ
  count p [] = 0
  count p (x ∷ xs) = let rest = count p xs in if p x then suc rest else rest

  pub count-insert_by :
      (p : A → Bool) (before : A → A → Bool) (x : A) (xs : List A)
      → count p (insert_by before x xs) ≡ count p (x ∷ xs)
  unfolding insert_by
  count-insert_by p before x [] = refl
  count-insert_by p before x (y ∷ ys) = ground (arith, count-insert_by p before x ys)

  -- A sort keeps how many pass any test.
  pub count-sort_by :
      (p : A → Bool) (before : A → A → Bool) (xs : List A)
      → count p (sort_by before xs) ≡ count p xs
  unfolding sort_by
  count-sort_by p before [] = refl
  count-sort_by p before (x ∷ xs) =
      ground (arith, count-insert_by p before x (sort_by before xs), count-sort_by p before xs)

  pub contains-insert_by :
      (key : A → ℕ) (before : A → A → Bool) (k : ℕ) (x : A) (xs : List A)
      → contains k (map key (insert_by before x xs)) ≡ contains k (map key (x ∷ xs))
  unfolding insert_by
  contains-insert_by key before k x [] = refl
  contains-insert_by key before k x (y ∷ ys) = ground (arith, contains-insert_by key before k x ys)

  -- A sort keeps the identities.
  pub contains-sort_by :
      (key : A → ℕ) (before : A → A → Bool) (k : ℕ) (xs : List A)
      → contains k (map key (sort_by before xs)) ≡ contains k (map key xs)
  unfolding sort_by
  contains-sort_by key before k [] = refl
  contains-sort_by key before k (x ∷ xs) = ground (
    arith,
    contains-insert_by key before k x (sort_by before xs),
    contains-sort_by key before k xs,
  )

  -- Nothing that stands later comes before.
  abbrev pub Sorted : (A → A → Bool) → List A → Type 0
  Sorted before [] = Unit
  Sorted before (x ∷ xs) = (count (λ y. before y x) xs ≡ 0) × Sorted before xs

contains-insert_ids :
    (before : ℕ → ℕ → Bool) (k x : ℕ) (xs : List ℕ)
    → contains k (insert_by before x xs) ≡ contains k (x ∷ xs)
unfolding insert_by
contains-insert_ids before k x [] = refl
contains-insert_ids before k x (y ∷ ys) = ground (arith, contains-insert_ids before k x ys)

pub contains-sort_ids :
    (before : ℕ → ℕ → Bool) (k : ℕ) (xs : List ℕ) → contains k (sort_by before xs) ≡ contains k xs
unfolding sort_by
contains-sort_ids before k [] = refl
contains-sort_ids before k (x ∷ xs) =
    ground
      (arith, contains-insert_ids before k x (sort_by before xs), contains-sort_ids before k xs)

-- Sorting keeps what holds of every element.
All-insert_by :
    {A : Type 0} (P : A → Type 0) (before : A → A → Bool) (x : A) (xs : List A)
    → P x
    → All P xs
    → All P (insert_by before x xs)
unfolding insert_by
All-insert_by P before x [] p ps = (p, tt)
All-insert_by P before x (y ∷ ys) p (q, qs) =
    by_test (before x y) (All-insert_by P before x ys p qs)
  where
    by_test :
        (b : Bool)
        → All P (insert_by before x ys)
        → All P (if b then x ∷ y ∷ ys else y ∷ insert_by before x ys)
    by_test true rest = (p, (q, qs))
    by_test false rest = (q, rest)

pub All-sort_by :
    {A : Type 0} (P : A → Type 0) (before : A → A → Bool) (xs : List A)
    → All P xs
    → All P (sort_by before xs)
unfolding sort_by
All-sort_by P before [] h = tt
All-sort_by P before (x ∷ xs) (p, ps) =
    All-insert_by P before x (sort_by before xs) p (All-sort_by P before xs ps)
