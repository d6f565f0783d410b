-- ===== src/Recovery/Diagnose/Facts.antt =====
-- What a plan of diagnosis (dploydb/recovery.py) is made of: a stored release, the stored operation
-- that created it, and its stored events.
use dploy_db.Base.{
  ℕ, ◌≡◌, refl, Bool, true, false, Option, none, some, List, [], ◌∷◌, ◌==◌, All, lookup, select,
  if◌then◌else◌, Option-cases, Bool-cases, inl, inr, arith,
}
use dploy_db.Sorting.{All-sort_by}
use dploy_db.Models.Manifest.{ReleaseManifest}
use dploy_db.Models.Operation.{OperationManifest, OperationEvent}
use dploy_db.Raised.{returned}
use dploy_db.World.{World, Environment, OperationFile}
use dploy_db.Exec.{Exec}
use dploy_db.Exec.Keeps.{
  Keeps, Triple, Triple-bind, Triple-pure, Triple-gets, Triple-lift, Triple-weaken, Triple-both,
}
use dploy_db.Exec.Quiet.{Silent}
use dploy_db.Exec.Returns.{Anything, any, guard, given, given_only}
use dploy_db.Releases.{started_later}
use dploy_db.Releases.Store.{read_releases, read_history}
use dploy_db.Releases.Store.Reads as Reading
use dploy_db.Releases.Store.Effects.{read_manifest-Found, Found}
use dploy_db.Operations
use dploy_db.Operations.{file_manifest, file_events, read_all, list_operations}
use dploy_db.Operations.Reads as Trail
use dploy_db.Operations.Effects.{events_read, read_consistent-Consistent}
use dploy_db.Recovery.{RecoveryPlan, RecoveryLiveState, build_recovery_plan}
use dploy_db.Recovery.Diagnose.{
  find_operation, is_unresolved, put_pair, paired, newest_pair, newest_source, source_of, plan_for,
  diagnose,
}
use dploy_db.Recovery.Diagnose.Live.{
  StateSeen, BackupSeen, DigestSeen, inspect_application-StateSeen, final_facts-BackupSeen,
  production_digest-DigestSeen,
}
use dploy_db.Recovery.Diagnose.Reads.{Undisturbed, Keeps-require_operations}

-- The release and the operation stand in the files.
abbrev pub StoredRelease : List (ℕ × ReleaseManifest) → ReleaseManifest → Type 0
StoredRelease files m = lookup m.release_id files ≡ some m

abbrev pub StoredOperation : List (ℕ × OperationFile) → OperationManifest → Type 0
StoredOperation files m = file_manifest (lookup m.operation_id files) ≡ some m

-- A plan of diagnosis, with the records and facts that it was built from, and the answers of the
-- outside that the facts come from.
pub record Planned (env : Environment) (releases : List (ℕ × ReleaseManifest))
    (operations : List (ℕ × OperationFile)) (plan : RecoveryPlan) : Type 0 where
  pub release : ReleaseManifest
  pub operation : OperationManifest
  pub events : List OperationEvent
  pub live : RecoveryLiveState
  pub release_stored : StoredRelease releases release
  pub operation_stored : StoredOperation operations operation
  pub events_stored : file_events (lookup operation.operation_id operations) ≡ events
  pub previous_seen : StateSeen env release.previous_application live.previous_application
  pub backup_seen :
      BackupSeen env release.final_backup_id release.final_backup_sha256
        (live.final_backup_verified, live.final_backup_sha256)
  pub production_seen : DigestSeen env live.production_database_sha256
  pub built : plan ≡ build_recovery_plan operation events release live

module _ (A : ReleaseManifest → Type 0) (B : OperationManifest → Type 0) where
  found_operation :
      (id : ℕ) (ms : List OperationManifest) (m : OperationManifest)
      → All B ms
      → find_operation id ms ≡ some m
      → B m
  unfolding find_operation
  found_operation id [] m h e = ground arith
  found_operation id (x ∷ xs) m (h, hs) e = elim (Bool-cases (x.operation_id == id)) [
    | inl same ↦ let is : x ≡ m = ground arith in rw (← is) h
    | inr other ↦ found_operation id xs m hs (ground arith)
  ]

  abbrev Pair : ReleaseManifest × OperationManifest → Type 0
  Pair p = A p.0 × B p.1

  All-put_pair :
      (r : ReleaseManifest) (o : Option OperationManifest)
      (ps : List (ReleaseManifest × OperationManifest))
      → A r
      → ((m : OperationManifest) → o ≡ some m → B m)
      → All Pair ps
      → All Pair (put_pair r o ps)
  unfolding put_pair
  All-put_pair r none ps h k hs = hs
  All-put_pair r (some m) ps h k hs = ((h, k m refl), hs)

  All-paired :
      (rs : List ReleaseManifest) (ms : List OperationManifest)
      → All A rs
      → All B ms
      → All Pair (paired rs ms)
  unfolding paired
  All-paired [] ms h k = tt
  All-paired (r ∷ rs) ms (h, hs) k =
      All-put_pair r (find_operation r.operation_id ms) (paired rs ms) h
        (λ m e. found_operation r.operation_id ms m k e) (All-paired rs ms hs k)

  newest_pair-Pair :
      (ps : List (ReleaseManifest × OperationManifest)) (p : ReleaseManifest × OperationManifest)
      → All Pair ps
      → newest_pair ps ≡ some p
      → Pair p
  unfolding newest_pair
  newest_pair-Pair [] p h e = ground arith
  newest_pair-Pair (x ∷ xs) p (h, hs) e = elim (Option-cases (newest_pair xs)) [
    | inl missing ↦ let is : x ≡ p = ground arith in rw (← is) h
    | inr (q, there) ↦ elim (Bool-cases (Operations.started_later q.1 x.1)) [
      | inl later ↦ let is : q ≡ p = ground arith in rw (← is) (newest_pair-Pair xs q hs there)
      | inr other ↦ let is : x ≡ p = ground arith in rw (← is) h
    ]
  ]

  newest_source-Pair :
      (ps : List (ReleaseManifest × OperationManifest)) (p : ReleaseManifest × OperationManifest)
      → All Pair ps
      → newest_source (newest_pair ps) ≡ returned p
      → Pair p
  unfolding newest_source
  newest_source-Pair ps p h e = elim (Option-cases (newest_pair ps)) [
    | inl missing ↦ ground arith
    | inr (q, there) ↦ let is : q ≡ p = ground arith in rw (← is) (newest_pair-Pair ps q h there)
  ]

  All-select :
      (t : ReleaseManifest → Bool) (rs : List ReleaseManifest) → All A rs → All A (select t rs)
  All-select t [] h = tt
  All-select t (r ∷ rs) (h, hs) = by_test (t r) (All-select t rs hs)
    where
      by_test :
          (b : Bool) → All A (select t rs) → All A (if b then r ∷ select t rs else select t rs)
      by_test true rest = (h, rest)
      by_test false rest = rest

  -- What is picked is one of the releases, with one of the operations.
  source_of-Pair :
      (rs : List ReleaseManifest) (ms : List OperationManifest)
      (p : ReleaseManifest × OperationManifest)
      → All A rs
      → All B ms
      → source_of rs ms ≡ returned p
      → Pair p
  unfolding source_of
  source_of-Pair rs ms p h k e = ground (
    arith,
    newest_source-Pair (paired (select (is_unresolved ms) rs) ms) p
        (All-paired (select (is_unresolved ms) rs) ms (All-select (is_unresolved ms) rs h) k),
    newest_source-Pair (paired rs ms) p (All-paired rs ms h k),
  )

module _ (env : Environment) (releases : List (ℕ × ReleaseManifest))
    (operations : List (ℕ × OperationFile)) where
  abbrev ReleasesSame : World → Type 0
  ReleasesSame w = w.releases ≡ releases

  abbrev OperationsSame : World → Type 0
  OperationsSame w = w.operations ≡ operations

  abbrev Same : World → Type 0
  Same w = OperationsSame w × ReleasesSame w

  undisturbed : Undisturbed Same
  undisturbed = record { at_silent = λ w h. h; at_ran = λ w a b e h. h }

  quiet_releases : Silent ReleasesSame
  quiet_releases = record { at_silent = λ w h. h }

  quiet_operations : Silent OperationsSame
  quiet_operations = record { at_silent = λ w h. h }

  stored_at :
      (id : ℕ) (m : OperationManifest)
      → m.operation_id ≡ id
      → file_manifest (lookup id operations) ≡ some m
      → StoredOperation operations m
  stored_at id m named there = cc

  -- The operations that are listed are stored.
  operations_read :
      (ids : List ℕ)
      → Triple OperationsSame
          (read_all env ids)
          (λ ms w. OperationsSame w × All (StoredOperation operations) ms)
          Anything
  unfolding read_all
  operations_read [] = Triple-pure [] (λ w h. (h, tt))
  operations_read (id ∷ ids) =
      Triple-bind _ _ _ (read_consistent-Consistent env id operations) λ (m, es). given λ c.
        Triple-bind _ _ _ (operations_read ids) λ rest.
          given λ found. Triple-pure _ (λ w h. (h, (stored_at id m c.named c.manifest, found)))

  operations_listed :
      Triple OperationsSame
        (list_operations env)
        (λ ms w. OperationsSame w × All (StoredOperation operations) ms)
        Anything
  unfolding list_operations
  operations_listed =
      Triple-bind (λ _. OperationsSame) _ _ (Triple-gets _ (λ w h. h))
        λ files. Triple-bind _ _ _ (operations_read _) λ ms. given λ found.
          Triple-pure _
            (λ w h. (h, All-sort_by (StoredOperation operations) Operations.started_later ms found))

  -- The releases that are listed are stored.
  releases_read :
      (ids : List ℕ)
      → Triple ReleasesSame
          (read_releases env ids)
          (λ ms w. ReleasesSame w × All (StoredRelease releases) ms)
          Anything
  unfolding read_releases
  releases_read [] = Triple-pure [] (λ w h. (h, tt))
  releases_read (id ∷ ids) =
      Triple-bind (λ m w. ReleasesSame w × StoredRelease releases m) _ _
        (Triple-weaken ReleasesSame (Found env id releases) ReleasesSame (λ w h. h)
          (λ m w h. (h.0, cc)) (λ w h. tt) (read_manifest-Found env id releases))
        λ m. given λ there.
          Triple-bind _ _ _ (releases_read ids)
            λ rest. given λ found. Triple-pure _ (λ w h. (h, (there, found)))

  history_read :
      Triple ReleasesSame
        (read_history env)
        (λ h w. ReleasesSame w × All (StoredRelease releases) h.releases)
        Anything
  unfolding read_history
  history_read =
      Triple-bind (λ _. ReleasesSame) _ _ (Triple-gets _ (λ w h. h))
        λ files. Triple-bind _ _ _ (releases_read _) λ ms. given λ found.
          Triple-bind (λ _. ReleasesSame) _ _
            (Triple-weaken ReleasesSame (λ _. ReleasesSame) ReleasesSame (λ w h. h) (λ _ w h. h)
              (λ w h. tt) (Reading.Keeps-read_pointers env ReleasesSame quiet_releases))
            λ p. Triple-bind _ _ _ (guard _ _) λ _. given λ _.
              Triple-pure _
                (λ w h. (h, All-sort_by (StoredRelease releases) started_later ms found))

  -- What a read establishes beside one store, and that it leaves the other alone.
  operations_known :
      Triple Same
        (list_operations env)
        (λ ms w. Same w × All (StoredOperation operations) ms)
        Anything
  operations_known =
      Triple-weaken Same
        (λ ms w. (OperationsSame w × All (StoredOperation operations) ms) × ReleasesSame w)
        (λ w. Anything w × ReleasesSame w) (λ w h. h) (λ ms w h. ((h.0.0, h.1), h.0.1)) (λ w h. tt)
        (Triple-both operations_listed
          (Trail.Keeps-list_operations env ReleasesSame quiet_releases))

  history_known :
      Triple Same
        (read_history env)
        (λ h w. Same w × All (StoredRelease releases) h.releases)
        Anything
  history_known =
      Triple-weaken Same
        (λ x w. OperationsSame w × (ReleasesSame w × All (StoredRelease releases) x.releases))
        (λ w. OperationsSame w × Anything w) (λ w h. h) (λ x w h. ((h.0, h.1.0), h.1.1)) (λ w h. tt)
        (Triple-both (Reading.Keeps-read_history env OperationsSame quiet_operations) history_read)

  plan_for-Planned :
      (release : ReleaseManifest) (operation : OperationManifest)
      → StoredRelease releases release
      → StoredOperation operations operation
      → Triple Same
          (plan_for env release operation)
          (λ plan _. Planned env releases operations plan)
          Anything
  unfolding plan_for
  plan_for-Planned release operation r o =
      Triple-bind (λ es _. file_events (lookup operation.operation_id operations) ≡ es) _ _
        (Triple-weaken OperationsSame _ Anything (λ w h. h.0) (λ es w h. h.1.0) (λ w h. h)
          (events_read env operation.operation_id operations))
        λ es. given_only λ log. Triple-bind _ _ _ (inspect_application-StateSeen env _) λ previous.
          given_only λ seen. Triple-bind _ _ _ (any _) λ new.
            Triple-bind _ _ _
              (final_facts-BackupSeen env release.final_backup_id release.final_backup_sha256)
              λ facts. given_only λ opened.
                Triple-bind _ _ _ (production_digest-DigestSeen env) λ digest.
                  given_only λ digested. Triple-pure _ (λ w h. record {
                    release = release;
                    operation = operation;
                    events = es;
                    live = _;
                    release_stored = r;
                    operation_stored = o;
                    events_stored = log;
                    previous_seen = seen;
                    backup_seen = opened;
                    production_seen = digested;
                    built = refl;
                  })

  pub diagnosed :
      Triple Same (diagnose env false) (λ plan _. Planned env releases operations plan) Anything
  unfolding diagnose
  diagnosed =
      Triple-bind (λ _. Same) _ _ (Triple-pure tt (λ w h. h))
        λ _. Triple-bind _ _ _ operations_known λ ms. given λ listed.
          Triple-bind (λ _. Same) _ _ (kept (Keeps-require_operations env Same undisturbed ms))
            λ _. Triple-bind _ _ _ history_known λ history. given λ read.
              Triple-bind (λ _. Same) _ _ (Triple-lift _ (λ w _ h _. h) (λ w _ h _. tt))
                λ _.
                  Triple-bind (λ p w. Same w × Stored p) _ _
                    (Triple-lift _
                      (λ w p h e. (
                        h,
                        source_of-Pair (StoredRelease releases) (StoredOperation operations)
                            history.releases ms p read listed e,
                      ))
                      (λ w _ h _. tt))
                    λ (release, operation). given λ (r, o). plan_for-Planned release operation r o
    where
      Stored : ReleaseManifest × OperationManifest → Type 0
      Stored p = StoredRelease releases p.0 × StoredOperation operations p.1

      kept : {A : Type 0} {m : Exec A} → Keeps Same m → Triple Same m (λ _. Same) Anything
      kept k = Triple-weaken Same (λ _. Same) Same (λ w h. h) (λ a w h. h) (λ w h. tt) k
