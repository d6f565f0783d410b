-- ===== src/Operations/Reads.antt =====
-- Reading the store of operations (dploydb/state.py) keeps every predicate that an entry in the
-- journal cannot end.
use dploy_db.Base.{ℕ, List, [], ◌∷◌}
use dploy_db.World.{World, Environment}
use dploy_db.Exec.Keeps.{Keeps, Keeps-bind, Keeps-pure, keeps_rules}
use dploy_db.Exec.Quiet.{Silent, Keeps-silent_call}
use dploy_db.Operations.{
  read_file, clock, fresh_id, now_not_before, read_manifest, read_events, read_consistent, read_all,
  list_operations, latest_operation,
}

module _ (env : Environment) (P : World → Type 0) (q : Silent P) where
  pub Keeps-read_file : Keeps P (read_file env)
  unfolding read_file
  Keeps-read_file = Keeps-silent_call P q _

  pub Keeps-clock : Keeps P (clock env)
  unfolding clock
  Keeps-clock = Keeps-silent_call P q _

  pub Keeps-fresh_id : Keeps P (fresh_id env)
  unfolding fresh_id
  Keeps-fresh_id = Keeps-silent_call P q _

  pub Keeps-now_not_before : (t : ℕ) → Keeps P (now_not_before env t)
  unfolding now_not_before
  Keeps-now_not_before t = search (keeps_rules, Keeps-clock)

  pub Keeps-read_manifest : (id : ℕ) → Keeps P (read_manifest env id)
  unfolding read_manifest
  Keeps-read_manifest id = search (keeps_rules, Keeps-read_file)

  pub Keeps-read_events : (id : ℕ) → Keeps P (read_events env id)
  unfolding read_events
  Keeps-read_events id = search (keeps_rules, Keeps-read_file) depth 9

  pub Keeps-read_consistent : (id : ℕ) → Keeps P (read_consistent env id)
  unfolding read_consistent
  Keeps-read_consistent id = search (keeps_rules, Keeps-read_manifest, Keeps-read_events) depth 9

  Keeps-read_all : (ids : List ℕ) → Keeps P (read_all env ids)
  unfolding read_all
  Keeps-read_all [] = Keeps-pure []
  Keeps-read_all (id ∷ ids) =
      Keeps-bind _ _ (Keeps-read_consistent id)
        λ r. Keeps-bind _ _ (Keeps-read_all ids) λ rest. Keeps-pure _

  pub Keeps-list_operations : Keeps P (list_operations env)
  unfolding list_operations
  Keeps-list_operations = search (keeps_rules, Keeps-read_all) depth 9

  pub Keeps-latest_operation : Keeps P (latest_operation env)
  unfolding latest_operation
  Keeps-latest_operation = search (keeps_rules, Keeps-list_operations) depth 9
