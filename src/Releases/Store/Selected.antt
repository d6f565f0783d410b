-- ===== src/Releases/Store/Selected.antt =====
-- dploydb/releases.py: the pointers that `activate_release` returns.
use dploy_db.Base.{ℕ, ◌≡◌, Option, none, some, ◌==◌, arith}
use dploy_db.Models.Manifest.{ReleasePointers}
use dploy_db.Raised.{returned}
use dploy_db.World.{Environment}
use dploy_db.Exec.{pure}
use dploy_db.Exec.Keeps.{
  Triple, Triple-bind, Triple-pure, Triple-raise, Triple-gets, Triple-lift, Triple-save, Triple-if,
}
use dploy_db.Exec.Returns.{Anything, any, given_only}
use dploy_db.Releases.{next_pointers}
use dploy_db.Releases.Store.{
  check_pointers, read_pointers, valid_pointers, reread_pointers, select, keep_or_select,
  activate_release,
}

-- The pointers, where there are any, name this release as the active one.
abbrev Named : ℕ → Option ReleasePointers → Type 0
Named id none = Unit
Named id (some p) = p.active_release_id ≡ id

valid_pointers-named :
    (env : Environment) (o : Option ReleasePointers) (t id : ℕ) (p : ReleasePointers)
    → valid_pointers env (next_pointers o t id) ≡ returned p
    → p.active_release_id ≡ id
unfolding valid_pointers next_pointers
valid_pointers-named env none t id p h = ground arith
valid_pointers-named env (some q) t id p h = ground arith

module _ (env : Environment) where
  checked :
      (id : ℕ) (o : Option ReleasePointers)
      → Named id o
      → Triple Anything (check_pointers env o) (λ x _. Named id x) Anything
  unfolding check_pointers
  checked id none h = Triple-pure none (λ w _. tt)
  checked id (some p) h =
      Triple-bind (λ _. Anything) _ _ (any _)
        λ _.
          Triple-bind (λ _. Anything) _ _ (any _)
            λ _.
              Triple-bind (λ _. Anything) _ _ (any _)
                λ _. Triple-bind (λ _. Anything) _ _ (any _) λ _. Triple-pure (some p) (λ w _. h)

  reread :
      (id : ℕ) (o : Option ReleasePointers)
      → Named id o
      → Triple Anything (reread_pointers env o) (λ p _. p.active_release_id ≡ id) Anything
  unfolding reread_pointers
  reread id none h = Triple-raise _ (λ w _. tt)
  reread id (some p) h = Triple-pure p (λ w _. h)

  selected :
      (id : ℕ) (o : Option ReleasePointers)
      → Triple Anything (select env id o) (λ p _. p.active_release_id ≡ id) Anything
  unfolding select read_pointers
  selected id o =
      Triple-bind (λ _. Anything) _ _ (any _)
        λ t.
          Triple-bind (λ p _. p.active_release_id ≡ id) _ _
            (Triple-lift _ (λ w p _ e. valid_pointers-named env o t id p e) (λ w _ _ _. tt))
            λ p. given_only λ named.
              Triple-bind (λ _ w. Named id w.pointers) _ _
                (Triple-save _ _ (λ w _. named) (λ w _. tt) (λ w _. tt))
                λ _.
                  Triple-bind (λ x _. Named id x) _ _
                    (Triple-bind (λ x _. Named id x) _ _ (Triple-gets _ (λ w h. h))
                      λ x. given_only (checked id x))
                    λ x. given_only (reread id x)

  kept :
      (id : ℕ) (o : Option ReleasePointers)
      → Triple Anything (keep_or_select env id o) (λ p _. p.active_release_id ≡ id) Anything
  unfolding keep_or_select
  kept id none = selected id none
  kept id (some p) =
      Triple-if (p.active_release_id == id) (pure p) (select env id (some p))
        (λ same. Triple-pure p (λ w _. ground arith)) (λ _. selected id (some p))

  -- The returned pointers name the release.
  pub activate_release-Named :
      (id : ℕ)
      → Triple Anything (activate_release env id) (λ p _. p.active_release_id ≡ id) Anything
  unfolding activate_release
  activate_release-Named id =
      Triple-bind (λ _. Anything) _ _ (any _)
        λ m.
          Triple-bind (λ _. Anything) _ _ (any _)
            λ _. Triple-bind (λ _. Anything) _ _ (any _) λ o. kept id o
