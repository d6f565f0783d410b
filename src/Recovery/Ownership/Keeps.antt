-- ===== src/Recovery/Ownership/Keeps.antt =====
-- Taking over the operations (dploydb/recovery.py) changes no release, and no fact about the calls
-- that were made.
use dploy_db.Base.{ℕ, Option, none, some, List, [], ◌∷◌}
use dploy_db.Models.Lock.{LockOwnerMetadata}
use dploy_db.Models.Operation.{OperationManifest}
use dploy_db.Raised.{Raised, dploydb}
use dploy_db.World.{World, Environment}
use dploy_db.Exec.Keeps.{Keeps, Keeps-pure, Keeps-raise, Keeps-bind, Keeps-try, keeps_rules}
use dploy_db.Exec.Quiet.{Silent, Unaware, Keeps-silent_call}
use dploy_db.Operations.Reads
use dploy_db.Operations.Quiet
use dploy_db.Recovery.{RecoveryPlan}
use dploy_db.Recovery.Ownership.{
  previous_owner, owner_records, uncorrelated, related_owner, acknowledge, acknowledged_stale_owner,
  supersede, take_over, take_over_all,
}

module _ (env : Environment) (P : World → Type 0) (q : Silent P) (plan : RecoveryPlan) where
  Keeps-owner_records : (id : ℕ) → Keeps P (owner_records env id)
  unfolding owner_records
  Keeps-owner_records id =
      Keeps-bind _ _ (Reads.Keeps-read_manifest env P q id)
        λ m. Keeps-bind _ _ (Reads.Keeps-read_events env P q id) λ es. Keeps-pure _

  Keeps-uncorrelated : (e : Raised) → Keeps P (uncorrelated env plan e)
  unfolding uncorrelated
  Keeps-uncorrelated (dploydb e) = Keeps-raise _
  Keeps-uncorrelated _ = Keeps-raise _

  Keeps-related_owner : (o : LockOwnerMetadata) → Keeps P (related_owner env plan o)
  unfolding related_owner
  Keeps-related_owner o =
      Keeps-bind _ _ (Keeps-try _ _ (Keeps-owner_records _) Keeps-uncorrelated)
        λ x. search keeps_rules

  Keeps-acknowledge : (o : Option LockOwnerMetadata) → Keeps P (acknowledge env plan o)
  unfolding acknowledge
  Keeps-acknowledge none = Keeps-pure none
  Keeps-acknowledge (some o) = search (keeps_rules, Keeps-related_owner)

  pub Keeps-acknowledged_stale_owner : Keeps P (acknowledged_stale_owner env plan)
  unfolding acknowledged_stale_owner previous_owner
  Keeps-acknowledged_stale_owner = Keeps-bind _ _ (Keeps-silent_call P q _) Keeps-acknowledge

module _ (env : Environment) (P : World → Type 0) (q : Unaware P) (plan : RecoveryPlan) where
  Keeps-supersede : (m : OperationManifest) → Keeps P (supersede env plan m)
  unfolding supersede
  Keeps-supersede m =
      Keeps-bind _ _ (search keeps_rules)
        λ _. Keeps-bind _ _ (Quiet.Keeps-transition env P q _ _ _ _ _ _ _) λ _. Keeps-pure tt

  Keeps-take_over : (m : OperationManifest) → Keeps P (take_over env plan m)
  unfolding take_over
  Keeps-take_over m = search (keeps_rules, Keeps-supersede)

  pub Keeps-take_over_all : (ms : List OperationManifest) → Keeps P (take_over_all env plan ms)
  unfolding take_over_all
  Keeps-take_over_all [] = Keeps-pure tt
  Keeps-take_over_all (m ∷ ms) = Keeps-bind _ _ (Keeps-take_over m) λ _. Keeps-take_over_all ms
