-- ===== src/Cutover/Restoring.antt =====
-- What the automatic restore of dploydb/cutover.py (`restore_final_backup`) has proved.
use dploy_db.Base.{
  ℕ, ◌≡◌, ◌⊎◌, inl, inr, Bool-cases, refl, Bool, true, false, ◌||◌, some, arith, option_eq, List,
}
use dploy_db.Raised.{Raised, dploydb, Outcome, returned, raised}
use dploy_db.World.{World, Environment, BackupArtifact, ProductionStop, RestoredDatabase, Call}
use dploy_db.Exec.{Exec, raise_if, ◌>>=◌}
use dploy_db.Exec.Keeps.{
  Post, Triple, Triple-try, Triple-bind, Triple-ask, Triple-pure, Triple-raise, Triple-weaken,
}
use dploy_db.Exec.Returns.{test, given, refused}
use dploy_db.Calls.{check_backup}
use dploy_db.Deploy.Journal.{restored_in, is_database_restore}
use dploy_db.Cutover.{
  is_final, not_proven_stopped, require_stopped, verify_final_backup, same_artifact,
  verification_failed, restore_final,
}

-- The verification that was asked for after the calls `j` answered with the backup itself, as a final
-- one of the operation.
abbrev pub BackupVerified : Environment → List Call → ℕ → BackupArtifact → Type 0
BackupVerified env j operation b =
    (v : BackupArtifact) × (env.verify_backup j b.backup_id ≡ returned v)
    × (same_artifact v b ≡ true)
    × (is_final v.purpose ≡ true)
    × (option_eq v.operation_id (some operation) ≡ true)

abbrev Unrestored : World → Type 0
Unrestored w = restored_in w.journal ≡ false

-- No restore was asked for, or the backup was verified after the calls `j`.
abbrev pub RestoreOk : Environment → List Call → ℕ → BackupArtifact → World → Type 0
RestoreOk env j operation b w = (restored_in w.journal ≡ false) ⊎ BackupVerified env j operation b

module _ (env : Environment) (j : List Call) (fresh : restored_in j ≡ false) where
  abbrev At : World → Type 0
  At w = w.journal ≡ j

  looked_up :
      (id : ℕ)
      → Triple At
          (check_backup env id)
          (λ v w. Unrestored w × (env.verify_backup j id ≡ returned v))
          Unrestored
  unfolding check_backup restored_in is_database_restore
  looked_up id = Triple-ask _ _ (λ w v h e. (rw h fresh, rw h at e)) (λ w _ h. rw h fresh)

  failed_check :
      {Q : BackupArtifact → World → Type 0} (changed : Bool) (b : BackupArtifact) (e : Raised)
      → Triple Unrestored (verification_failed env changed b e) Q Unrestored
  unfolding verification_failed
  failed_check changed b (dploydb e) = Triple-raise _ (λ w h. h)
  failed_check changed b _ = Triple-raise _ (λ w h. h)

  checked :
      (operation : ℕ) (b : BackupArtifact)
      → Triple At
          (verify_final_backup env b operation true)
          (λ _ w. Unrestored w × BackupVerified env j operation b)
          Unrestored
  unfolding verify_final_backup
  checked operation b =
      Triple-bind _ _ _ (Triple-try Unrestored _ _ (looked_up b.backup_id) (failed_check true b))
        λ v. given λ answer. Triple-bind _ _ _ (test _ _) λ _.
          given
            λ ok. Triple-pure v (λ w h. (h, (v, answer, ground arith, ground arith, ground arith)))

  -- Nothing more is to show where the backup was verified.
  granted_post :
      {A : Type 0} (operation : ℕ) (b : BackupArtifact)
      → BackupVerified env j operation b
      → (x : Outcome A × World)
      → Post (λ _. RestoreOk env j operation b) (RestoreOk env j operation b) x
  granted_post operation b good (returned a, w) = inr good
  granted_post operation b good (raised e, w) = inr good

  granted :
      {A : Type 0} (operation : ℕ) (b : BackupArtifact) (m : Exec A)
      → BackupVerified env j operation b
      → Triple Unrestored m (λ _. RestoreOk env j operation b) (RestoreOk env j operation b)
  granted operation b m good = record { at = λ w _. granted_post operation b good (m w) }

  restored :
      (operation : ℕ) (s : ProductionStop) (b : BackupArtifact) (activated : Bool)
      → Triple At
          (restore_final env operation s b activated)
          (λ _. RestoreOk env j operation b)
          (RestoreOk env j operation b)
  unfolding restore_final require_stopped
  restored operation s b activated =
      Triple-bind (λ _. At) _ _ (early (not_proven_stopped env s) _)
        λ _.
          Triple-bind (λ _. At) _ _ (early activated _)
            λ _.
              Triple-bind (λ v w. Unrestored w × BackupVerified env j operation b) _ _
                (Triple-weaken At (λ v w. Unrestored w × BackupVerified env j operation b)
                  Unrestored (λ w h. h) (λ v w h. h) (λ w h. inl h) (checked operation b))
                λ v. given (granted operation b _)
    where
      early :
          (x : Bool) (e : Raised) → Triple At (raise_if x e) (λ _. At) (RestoreOk env j operation b)
      early true e = Triple-raise e (λ w h. inl (rw h fresh))
      early false e = Triple-pure tt (λ w h. h)

  ended_ok :
      (operation : ℕ) (b : BackupArtifact) (x : Outcome RestoredDatabase × World)
      → Post (λ _. RestoreOk env j operation b) (RestoreOk env j operation b) x
      → RestoreOk env j operation b x.1
  ended_ok operation b (returned r, w) h = h
  ended_ok operation b (raised e, w) h = h

restore_refused :
    (env : Environment) (operation : ℕ) (s : ProductionStop) (b : BackupArtifact) (activated : Bool)
    (w : World)
    → (not_proven_stopped env s || activated) ≡ true
    → (e : Raised) × (restore_final env operation s b activated w ≡ (raised e, w))
unfolding restore_final require_stopped ◌>>=◌
restore_refused env operation s b activated w h = elim (Bool-cases (not_proven_stopped env s)) [
  | inl open_still ↦ (_, refused (not_proven_stopped env s) _ _ w open_still)
  | inr stopped ↦ rw (stopped, rw stopped at h) (_, refl)
]

-- The automatic restore raises with nothing done where the application is not proved to be stopped
-- or new traffic has been activated. Else, however it ends, it has restored the database only if its
-- first call, the verification of the given backup, answered with that backup, as a final one of the
-- operation.
pub restore_final-guarded :
    (env : Environment) (operation : ℕ) (s : ProductionStop) (b : BackupArtifact) (activated : Bool)
    (w : World)
    → restored_in w.journal ≡ false
    → (((not_proven_stopped env s || activated) ≡ true)
        × ((e : Raised) × (restore_final env operation s b activated w ≡ (raised e, w))))
      ⊎ ((not_proven_stopped env s ≡ false)
          × (activated ≡ false)
          × RestoreOk env w.journal operation b (restore_final env operation s b activated w).1)
restore_final-guarded env operation s b activated w fresh =
    elim (Bool-cases (not_proven_stopped env s || activated)) [
      | inl blocked ↦ inl (blocked, restore_refused env operation s b activated w blocked)
      | inr allowed ↦ inr (
        ground arith,
        ground arith,
        ended_ok env w.journal fresh operation b _
            ((restored env w.journal fresh operation s b activated).at w refl),
      )
    ]
