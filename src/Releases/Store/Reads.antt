-- ===== src/Releases/Store/Reads.antt =====
-- Reading the store of releases (dploydb/releases.py) keeps every predicate that an entry in the
-- journal cannot end.
use dploy_db.Base.{ℕ, Option, none, some, List, [], ◌∷◌}
use dploy_db.Models.Manifest.{ReleasePointers}
use dploy_db.World.{World, Environment}
use dploy_db.Exec.Keeps.{Keeps, Keeps-bind, Keeps-pure, keeps_rules}
use dploy_db.Exec.Quiet.{Silent, Keeps-silent_call}
use dploy_db.Releases.Store.{
  read_file, now, fresh_id, read_manifest, read_pointers, check_pointers, read_previous,
  read_active, active_release, read_releases, read_history,
}

module _ (env : Environment) (P : World → Type 0) (q : Silent P) where
  pub Keeps-read_file : Keeps P (read_file env)
  unfolding read_file
  Keeps-read_file = Keeps-silent_call P q _

  pub Keeps-fresh_id : Keeps P (fresh_id env)
  unfolding fresh_id
  Keeps-fresh_id = Keeps-silent_call P q _

  pub Keeps-now : Keeps P (now env)
  unfolding now
  Keeps-now = Keeps-silent_call P q _

  pub Keeps-read_manifest : (id : ℕ) → Keeps P (read_manifest env id)
  unfolding read_manifest
  Keeps-read_manifest id = search (keeps_rules, Keeps-read_file)

  pub Keeps-read_previous : (o : Option ℕ) → Keeps P (read_previous env o)
  unfolding read_previous
  Keeps-read_previous none = Keeps-pure tt
  Keeps-read_previous (some id) = search (keeps_rules, Keeps-read_manifest)

  pub Keeps-check_pointers : (o : Option ReleasePointers) → Keeps P (check_pointers env o)
  unfolding check_pointers
  Keeps-check_pointers none = Keeps-pure none
  Keeps-check_pointers (some p) =
      search (keeps_rules, Keeps-read_file, Keeps-read_manifest, Keeps-read_previous) depth 9

  pub Keeps-read_pointers : Keeps P (read_pointers env)
  unfolding read_pointers
  Keeps-read_pointers = search (keeps_rules, Keeps-check_pointers)

  pub Keeps-read_active : (o : Option ReleasePointers) → Keeps P (read_active env o)
  unfolding read_active
  Keeps-read_active none = Keeps-pure none
  Keeps-read_active (some p) = search (keeps_rules, Keeps-read_manifest)

  pub Keeps-active_release : Keeps P (active_release env)
  unfolding active_release
  Keeps-active_release = search (keeps_rules, Keeps-read_pointers, Keeps-read_active)

  Keeps-read_releases : (ids : List ℕ) → Keeps P (read_releases env ids)
  unfolding read_releases
  Keeps-read_releases [] = Keeps-pure []
  Keeps-read_releases (id ∷ ids) =
      Keeps-bind _ _ (Keeps-read_manifest id)
        λ m. Keeps-bind _ _ (Keeps-read_releases ids) λ rest. Keeps-pure _

  pub Keeps-read_history : Keeps P (read_history env)
  unfolding read_history
  Keeps-read_history = search (keeps_rules, Keeps-read_releases, Keeps-read_pointers) depth 9
