-- ===== src/ManualRestore/Safety/Watch.antt =====
-- What is watched during a manual restore (dploydb/manual_restore.py): whether traffic may have been
-- sent to the selected release, what the context records of it, and that no restore came after.
use dploy_db.Base.{
  ◌≡◌, refl, Bool, true, false, not, ◌&&◌, ◌||◌, Option, none, some, List, [], ◌∷◌, arith,
}
use dploy_db.Command.{TrafficAction, activate_old, TrafficHookResult, hook_may_have_run}
use dploy_db.World.{World, Call, silent, ran, hook, restore, Action}
use dploy_db.Exec.{Exec}
use dploy_db.Exec.Keeps.{Keeps, Triple, Triple-weaken}
use dploy_db.Deploy.Journal.{is_database_restore}
use dploy_db.Deploy.Calm.{is_restore}
use dploy_db.ManualRestore.Keeps.{Steady, is_old_target}

-- The call may have sent traffic to the selected release.
unfoldable pub may_expose : Call → Bool
may_expose (hook activate_old none) = true
may_expose (hook activate_old (some r)) = hook_may_have_run r
may_expose _ = false

-- The journal is read newest call first.
unfoldable pub exposed_in : List Call → Bool
exposed_in [] = false
exposed_in (c ∷ j) = may_expose c || exposed_in j

unfoldable pub restores_before_exposure : List Call → Bool
restores_before_exposure [] = true
restores_before_exposure (c ∷ j) =
    (not (is_database_restore c) || not (exposed_in j)) && restores_before_exposure j

-- No restore came after an exposure, and `G` holds of the context's record of an attempted
-- activation and of whether the journal shows an exposure.
abbrev pub Guarded : (Bool → Bool → Type 0) → World → Type 0
Guarded G w =
    (restores_before_exposure w.journal ≡ true)
    × G w.restoring.traffic_activation_attempted (exposed_in w.journal)

abbrev pub Unexposed : Bool → Bool → Type 0
Unexposed _ exposed = exposed ≡ false

abbrev pub Recorded : Bool → Bool → Type 0
Recorded attempted exposed = attempted ≡ false → exposed ≡ false

abbrev pub Armed : Bool → Bool → Type 0
Armed attempted exposed = (exposed ≡ false) × (attempted ≡ true)

abbrev pub Fired : TrafficHookResult → Bool → Bool → Type 0
Fired r attempted exposed = (attempted ≡ true) × (hook_may_have_run r ≡ false → exposed ≡ false)

pub not_restore :
    (a : Action) (b : Bool) → is_restore a ≡ false → is_database_restore (ran a b) ≡ false
unfolding is_database_restore
not_restore a b h = ground arith

pub not_exposing :
    (a : TrafficAction) (r : Option TrafficHookResult)
    → is_old_target a ≡ false
    → may_expose (hook a r) ≡ false
unfolding may_expose
not_exposing a r h = ground arith

pub carried : (G : Bool → Bool → Type 0) {a b s t : Bool} → a ≡ b → t ≡ s → G a s → G b t
carried G p q g = rw (← p, q) g

pub guard_cons :
    (G : Bool → Bool → Type 0) (w : World) (c : Call)
    → is_database_restore c ≡ false
    → may_expose c ≡ false
    → Guarded G w
    → Guarded G (record w { journal = c ∷ w.journal })
unfolding restores_before_exposure exposed_in
guard_cons G w c quiet steady (safe, g) = (ground arith, carried G refl (ground arith) g)

pub Guarded-Steady : (G : Bool → Bool → Type 0) → Steady (Guarded G)
unfolding is_database_restore may_expose
Guarded-Steady G = record {
  at_silent = λ w h. guard_cons G w silent refl refl h;
  at_ran = λ w a b e h. guard_cons G w (ran a b) (not_restore a b e) refl h;
  at_hook = λ w a r e h. guard_cons G w (hook a r) refl (not_exposing a r e) h;
  at_operations = λ w o h. h;
  at_pointers = λ w p h. h;
  at_restoring = λ w d e h. (h.0, carried G e.0 refl h.1);
}

pub kept :
    {A : Type 0} (G R : Bool → Bool → Type 0) {m : Exec A}
    → ((a s : Bool) → G a s → R a s)
    → Keeps (Guarded G) m
    → Triple (Guarded G) m (λ _. Guarded G) (Guarded R)
kept G R weaker k =
    Triple-weaken (Guarded G) (λ _. Guarded G) (Guarded G) (λ w h. h) (λ a w h. h)
      (λ w h. (h.0, weaker _ _ h.1)) k

pub hidden : Steady (Guarded Unexposed)
hidden = Guarded-Steady Unexposed

pub covered : Steady (Guarded Recorded)
covered = Guarded-Steady Recorded

pub restored_unexposed :
    (w : World) (b : Bool)
    → Guarded Unexposed w
    → Guarded Unexposed (record w { journal = ran restore b ∷ w.journal })
unfolding restores_before_exposure exposed_in is_database_restore may_expose
restored_unexposed w b (safe, none_yet) = ground arith
