-- ===== src/Exec.antt =====
-- Python code that changes the world and may raise. What was done before a raise stays done, so the
-- world comes back beside the exception too.
pub mod Keeps
pub mod Quiet
pub mod Returns
use dploy_db.Base.{◌≡◌, refl, Bool, true, false, Option, none, some, List, ◌∷◌, if◌then◌else◌}
use dploy_db.Raised.{Raised, Outcome, returned, raised}
use dploy_db.World.{
  World, Context, RestoreContext, Call, silent, DiskOutcome, written, not_written, not_synced,
}

abbrev pub Exec : Type 0 → Type 0
Exec A = World → Outcome A × World

module _ {A : Type 0} where
  pub pure : A → Exec A
  pure a w = (returned a, w)

  pub raise : Raised → Exec A
  raise e w = (raised e, w)

  pub lift : Outcome A → Exec A
  lift r w = (r, w)

  pub gets : (World → A) → Exec A
  gets f w = (returned (f w), w)

  -- One call of the outside: its answer is a function of the journal, and it is journalled.
  pub ask : (List Call → Outcome A) → (Outcome A → Call) → Exec A
  ask answer entry w = let r = answer w.journal in (r, record w { journal = entry r ∷ w.journal })

pub modify : (Context → Context) → Exec Unit
modify f w = (returned tt, record w { context = f w.context })

pub modify_restore : (RestoreContext → RestoreContext) → Exec Unit
modify_restore f w = (returned tt, record w { restoring = f w.restoring })

-- One durable write: `change` is what the replaced file makes of the world.
commit : DiskOutcome → (World → World) → Exec Unit
commit written change w = (returned tt, change w)
commit (not_written e) change w = (raised e, w)
commit (not_synced e) change w = (raised e, change w)

pub save : (List Call → DiskOutcome) → (World → World) → Exec Unit
unfolding commit
save disk change w = commit (disk w.journal) change (record w { journal = silent ∷ w.journal })

module _ {A B : Type 0} where
  abbrev continue : Outcome A → (A → Exec B) → Exec B
  continue (returned a) f w = f a w
  continue (raised e) f w = (raised e, w)

  infixl 10 ◌>>=◌ ◌>>◌
  -- opening this opens the primitives too
  unfoldable pub ◌>>=◌ : Exec A → (A → Exec B) → Exec B
  unfolding pure raise lift gets ask modify modify_restore save
  ◌>>=◌ m f w = let (r, w') = m w in continue r f w'

  abbrev pub ◌>>◌ : Exec A → Exec B → Exec B
  m >> n = m >>= λ _. n

module _ {A : Type 0} where
  abbrev handle : Outcome A → (Raised → Exec A) → Exec A
  handle (returned a) f w = (returned a, w)
  handle (raised e) f w = f e w

  -- `try: m` `except BaseException as error: handler(error)`
  unfoldable pub try_except : Exec A → (Raised → Exec A) → Exec A
  try_except m handler w = let (r, w') = m w in handle r handler w'

  -- `try: m` `finally: last`: an exception of `last` covers the result of `m`.
  unfoldable pub try_finally : Exec A → Exec Unit → Exec A
  unfolding ◌>>=◌
  try_finally m last w = let (r, w') = m w in (last >>= λ _. lift r) w'

-- `if b: m`
abbrev pub when : Bool → Exec Unit → Exec Unit
when b m = if b then m else pure tt

-- `if b: raise e`
abbrev pub raise_if : Bool → Raised → Exec Unit
raise_if b e = if b then raise e else pure tt

-- `if o is not None: m(o)`
abbrev pub for_some : {A : Type 0} → Option A → (A → Exec Unit) → Exec Unit
for_some none m = pure tt
for_some (some a) m = m a
