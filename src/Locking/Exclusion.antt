-- ===== src/Locking/Exclusion.antt =====
-- dploydb/locking.py: any sequence of calls of any number of `DeploymentLock` instances, and of
-- processes that end at any point, on the shared kernel lock and owner file.
use dploy_db.Base.{
  ℕ, String, Bool, true, false, not, Option, none, some, is_some, ◌==◌, if◌then◌else◌, Bool-cases,
  inl, inr, ◌≡◌, refl, ◌∙◌, arith,
}
use dploy_db.Raised.{Raised, Outcome, returned, raised}
use dploy_db.World.{DiskOutcome, written, not_written, not_synced}
use dploy_db.Models.Lock.{LockOwnerMetadata, is_active}
use dploy_db.Locking.{
  OwnerFile, stored, Shared, LockInstance, LockOutside, Done, read_owner, held_instance, locked,
  opened, acquire, write_owner, remember, new_owner, refused, record_new, record_acquired, replace,
  record_owner, same_record, finalize_own, unlock, release, contention_error,
}

-- The instances by their identity, and what they share.
pub record System : Type 0 where
  pub shared : Shared
  pub instances : ℕ → LockInstance

-- A call of one instance, or the end of the process that has it.
pub data Call : Type 0 where
  acquires releases : ℕ → LockOutside → Call
  records : ℕ → LockOutside → ℕ → String → Option ℕ → Call
  ends : ℕ → Call

abbrev pub new_instance : LockInstance
new_instance = record {
  has_descriptor = false;
  acquired_at = none;
  owner = none;
  previous_owner = none;
}

unfoldable pub put : ℕ → LockInstance → (ℕ → LockInstance) → ℕ → LockInstance
put i l f j = if i == j then l else f j

unfoldable pub after : ℕ → System → Done → System
unfolding put
after i y (r, s, l) = record { shared = s; instances = put i l y.instances }

-- The kernel closes the descriptors of a process that ends.
unfoldable pub closed : Shared → LockInstance → Done
closed s l =
    if l.has_descriptor
    then (returned tt, record s { holder = none }, new_instance)
    else (returned tt, s, new_instance)

unfoldable pub performed : Call → System → System
unfolding acquire release record_owner closed after
performed (acquires i o) y = after i y (acquire i o y.shared (y.instances i))
performed (releases i o) y = after i y (release o y.shared (y.instances i))
performed (records i o operation operation_type stale) y =
    after i y (record_owner o operation operation_type stale y.shared (y.instances i))
performed (ends i) y = after i y (closed y.shared (y.instances i))

-- The systems that calls reach from one whose instances are new, on any owner file.
pub data Reachable : System → Type 0 where
  started :
      (file : OwnerFile)
      → Reachable (record {
        shared = record { owner_file = file; holder = none };
        instances = λ i. new_instance;
      })
  called : {y : System} → Reachable y → (c : Call) → Reachable (performed c y)

-- An instance with a descriptor holds the kernel lock, and the owner file has its active record.
pub record Placed (i : ℕ) (s : Shared) (l : LockInstance) : Type 0 where
  pub holds : l.has_descriptor ≡ true → s.holder ≡ some i
  pub records_owner :
      (m : LockOwnerMetadata)
      → l.has_descriptor ≡ true
      → l.owner ≡ some m
      → (s.owner_file ≡ stored m) × (is_active m.state ≡ true)

-- What a call leaves: the instance in its place, and another holder undisturbed.
unfoldable Fair : ℕ → Shared → Done → Type 0
Fair i s (r, t, l) = Placed i t l × ((j : ℕ) → ¬ i ≡ j → s.holder ≡ some j → t ≡ s)

unchanged-Fair :
    (i : ℕ) (s : Shared) (r : Outcome (Unit {0})) (l : LockInstance)
    → Placed i s l
    → Fair i s (r, s, l)
unfolding Fair
unchanged-Fair i s r l p = (p, λ j n h. refl)

locked-Fair :
    (i : ℕ) (o : LockOutside) (s : Shared) (l : LockInstance)
    (r : Outcome (Option LockOwnerMetadata))
    → is_some s.holder ≡ false
    → Placed i s l
    → Fair i s (locked i o s l r)
unfolding locked held_instance Fair
locked-Fair i o s l (raised e) free p = unchanged-Fair i s (raised e) l p
locked-Fair i o s l (returned previous) free p =
    (record { holds = λ d. refl; records_owner = λ m d e. ground arith }, λ j n h. ground arith)

opened-Fair :
    (i : ℕ) (o : LockOutside) (s : Shared) (l : LockInstance) (f : Option String)
    → Placed i s l
    → Fair i s (opened i o s l f)
unfolding opened
opened-Fair i o s l (some detail) p = unchanged-Fair i s _ l p
opened-Fair i o s l none p = elim (Bool-cases (is_some s.holder)) [
  | inl held ↦ rw held (unchanged-Fair i s _ l p)
  | inr free ↦ rw free (locked-Fair i o s l (read_owner s.owner_file) free p)
]

Fair-if :
    (i : ℕ) (s : Shared) (b : Bool) (x y : Done)
    → (b ≡ true → Fair i s x)
    → (b ≡ false → Fair i s y)
    → Fair i s (if b then x else y)
Fair-if i s true x y f g = f refl
Fair-if i s false x y f g = g refl

module _ {A : Type 0} where
  if_true : (b : Bool) (x y : A) → b ≡ true → (if b then x else y) ≡ x
  if_true true x y e = refl
  if_true false x y e = ground arith

  if_false : (b : Bool) (x y : A) → b ≡ false → (if b then x else y) ≡ y
  if_false true x y e = ground arith
  if_false false x y e = refl

acquire-Fair :
    (i : ℕ) (o : LockOutside) (s : Shared) (l : LockInstance)
    → Placed i s l
    → Fair i s (acquire i o s l)
unfolding acquire
acquire-Fair i o s l p =
    Fair-if i s l.has_descriptor _ _ (λ d. unchanged-Fair i s _ l p)
      (λ d. opened-Fair i o s l o.open_failure p)

opened_held :
    (i : ℕ) (o : LockOutside) (s : Shared) (l : LockInstance) (f : Option String)
    → f ≡ none
    → is_some s.holder ≡ true
    → opened i o s l f ≡ (raised contention_error, s, l)
unfolding opened
opened_held i o s l (some detail) e h = ground arith
opened_held i o s l none e h = if_true _ _ _ h

acquire_held :
    (i : ℕ) (o : LockOutside) (s : Shared) (l : LockInstance) (j : ℕ)
    → l.has_descriptor ≡ false
    → o.open_failure ≡ none
    → s.holder ≡ some j
    → acquire i o s l ≡ (raised contention_error, s, l)
unfolding acquire
acquire_held i o s l j d f h =
    if_false _ _ _ d ∙ opened_held i o s l o.open_failure f (ground arith)

-- What the holder alone leaves.
alone-Fair :
    (i : ℕ) (s t : Shared) (r : Outcome (Unit {0})) (l : LockInstance)
    → s.holder ≡ some i
    → Placed i t l
    → Fair i s (r, t, l)
unfolding Fair
alone-Fair i s t r l h p = (p, λ j n k. ground arith)

stored_again :
    (a m : LockOwnerMetadata)
    → is_active a.state ≡ true
    → some a ≡ some m
    → (stored a ≡ stored m) × (is_active m.state ≡ true)
stored_again a m h e = (ground arith, ground arith)

record_new-Fair :
    (i : ℕ) (o : LockOutside) (operation : ℕ) (operation_type : String) (acquired : ℕ) (s : Shared)
    (l : LockInstance) (f : Option Raised)
    → Placed i s l
    → s.holder ≡ some i
    → is_some l.owner ≡ false
    → Fair i s (record_new o operation operation_type acquired s l f)
unfolding record_new remember write_owner new_owner is_active
record_new-Fair i o operation operation_type acquired s l (some e) p h n =
    unchanged-Fair i s (raised e) l p
record_new-Fair i o operation operation_type acquired s l none p h n = by_write o.write
  where
    owner : LockOwnerMetadata
    owner = new_owner o operation operation_type acquired

    by_write : (w : DiskOutcome) → Fair i s (remember l owner (write_owner w owner s))
    by_write written =
        alone-Fair i s _ _ _ h
          (record { holds = λ d. h; records_owner = λ m d e. stored_again owner m refl e })
    by_write (not_written e) = unchanged-Fair i s (raised e) l p
    by_write (not_synced e) =
        alone-Fair i s _ _ _ h (record { holds = λ d. h; records_owner = λ m d e. ground arith })

replace-Fair :
    (i : ℕ) (o : LockOutside) (operation : ℕ) (operation_type : String) (stale : Option ℕ)
    (acquired : ℕ) (s : Shared) (l : LockInstance) (r : Outcome (Option LockOwnerMetadata))
    → Placed i s l
    → s.holder ≡ some i
    → is_some l.owner ≡ false
    → Fair i s (replace o operation operation_type stale acquired s l r)
unfolding replace
replace-Fair i o operation operation_type stale acquired s l (raised e) p h n =
    unchanged-Fair i s (raised e) l p
replace-Fair i o operation operation_type stale acquired s l (returned current) p h n =
    Fair-if i s (not (same_record current l.previous_owner)) _ _ (λ d. unchanged-Fair i s _ l p)
      (λ d. record_new-Fair i o operation operation_type acquired s l (refused current stale) p h n)

record_acquired-Fair :
    (i : ℕ) (o : LockOutside) (operation : ℕ) (operation_type : String) (stale : Option ℕ)
    (s : Shared) (l : LockInstance) (a : Option ℕ)
    → Placed i s l
    → Fair i s (record_acquired o operation operation_type stale s l a)
unfolding record_acquired
record_acquired-Fair i o operation operation_type stale s l none p = unchanged-Fair i s _ l p
record_acquired-Fair i o operation operation_type stale s l (some acquired) p =
    Fair-if i s (not l.has_descriptor) _ _ (λ d. unchanged-Fair i s _ l p)
      (λ d.
        Fair-if i s (is_some l.owner) _ _ (λ n. unchanged-Fair i s _ l p)
          (λ n.
            replace-Fair i o operation operation_type stale acquired s l (read_owner s.owner_file) p
              (p.holds (ground arith)) n))

unlock-Fair :
    (i : ℕ) (o : LockOutside) (s : Shared) (l : LockInstance)
    (r : Outcome (Option LockOwnerMetadata) × Shared)
    → s.holder ≡ some i
    → Fair i s (unlock o l r)
unfolding unlock
unlock-Fair i o s l (raised e, t) h =
    alone-Fair i s _ _ _ h
      (record { holds = λ d. ground arith; records_owner = λ m d e. ground arith })
unlock-Fair i o s l (returned owner, t) h =
    alone-Fair i s _ _ _ h
      (record { holds = λ d. ground arith; records_owner = λ m d e. ground arith })

release-Fair :
    (i : ℕ) (o : LockOutside) (s : Shared) (l : LockInstance)
    → Placed i s l
    → Fair i s (release o s l)
unfolding release
release-Fair i o s l p =
    Fair-if i s (not l.has_descriptor) _ _ (λ d. unchanged-Fair i s _ l p)
      (λ d. unlock-Fair i o s l (finalize_own o l.owner s) (p.holds (ground arith)))

closed-Fair : (i : ℕ) (s : Shared) (l : LockInstance) → Placed i s l → Fair i s (closed s l)
unfolding closed Fair
closed-Fair i s l p =
    Fair-if i s l.has_descriptor _ _
      (λ d.
        alone-Fair i s _ (returned tt) new_instance (p.holds d)
          (record { holds = λ e. ground arith; records_owner = λ m e f. ground arith }))
      (λ d.
        unchanged-Fair i s (returned tt) new_instance
          (record { holds = λ e. ground arith; records_owner = λ m e f. ground arith }))

-- Every instance is in its place.
Orderly : System → Type 0
Orderly y = (i : ℕ) → Placed i y.shared (y.instances i)

Placed-undisturbed :
    (j : ℕ) (s t : Shared) (l : LockInstance)
    → Placed j s l
    → (s.holder ≡ some j → t ≡ s)
    → Placed j t l
Placed-undisturbed j s t l p u = record {
  holds = λ d. ground (arith, u (p.holds d), p.holds d);
  records_owner = λ m d e. ground (arith, u (p.holds d), p.records_owner m d e);
}

after-Orderly :
    (i : ℕ) (y : System) (d : Done) → Orderly y → Fair i y.shared d → Orderly (after i y d)
unfolding Orderly after put Fair
after-Orderly i y (r, t, l) o (p, u) j = by_instance (i == j) refl
  where
    by_instance : (b : Bool) → (i == j) ≡ b → Placed j t (if b then l else y.instances j)
    by_instance true e = let k : i ≡ j = ground arith in rw⁻¹ k p
    by_instance false e =
        Placed-undisturbed j y.shared t (y.instances j) (o j) (λ h. u j (ground arith) h)

performed-Orderly : (c : Call) (y : System) → Orderly y → Orderly (performed c y)
unfolding performed Orderly
performed-Orderly (acquires i o) y w = after-Orderly i y _ w (acquire-Fair i o _ _ (w i))
performed-Orderly (releases i o) y w = after-Orderly i y _ w (release-Fair i o _ _ (w i))
performed-Orderly (records i o operation operation_type stale) y w =
    after-Orderly i y _ w (record_acquired-Fair i o operation operation_type stale _ _ _ (w i))
performed-Orderly (ends i) y w = after-Orderly i y _ w (closed-Fair i _ _ (w i))

Reachable-Orderly : (y : System) → Reachable y → Orderly y
unfolding Orderly
Reachable-Orderly _ (started file) i = record {
  holds = λ d. ground arith;
  records_owner = λ m d e. ground arith;
}
Reachable-Orderly _ (called {y} r c) i = performed-Orderly c y (Reachable-Orderly y r) i

-- At most one instance has the lock, and the one that has it and recorded itself as its owner is
-- the owner that anyone reads, as an active one.
pub record Excluded (y : System) (i : ℕ) : Type 0 where
  pub alone : (j : ℕ) → (y.instances j).has_descriptor ≡ true → i ≡ j
  pub refuses_others :
      (j : ℕ) (o : LockOutside)
      → (y.instances j).has_descriptor ≡ false
      → o.open_failure ≡ none
      → acquire j o y.shared (y.instances j) ≡ (raised contention_error, y.shared, y.instances j)
  pub shown :
      (m : LockOwnerMetadata)
      → (y.instances i).owner ≡ some m
      → (read_owner y.shared.owner_file ≡ returned (some m)) × (is_active m.state ≡ true)

-- In every system that acquisitions, owner records, releases and ends of processes reach, while an
-- instance has the lock's descriptor no other instance has one, the lock refuses any other instance
-- that opens the lock file with the contention error and changes nothing, and the owner that the
-- instance recorded is the active owner in the owner file.
pub Reachable-Excluded :
    (y : System) (i : ℕ) → Reachable y → (y.instances i).has_descriptor ≡ true → Excluded y i
unfolding Orderly read_owner
Reachable-Excluded y i r d = record {
  alone = λ j e. ground (arith, w.holds d, (Reachable-Orderly y r j).holds e);
  refuses_others = λ j o e f. acquire_held j o y.shared (y.instances j) i e f (w.holds d);
  shown = λ m e. ground (arith, w.records_owner m d e);
}
  where
    w : Placed i y.shared (y.instances i)
    w = Reachable-Orderly y r i
