-- ===== src/Deploy/RestoreSafety/Watch.antt =====
-- What is watched during a deployment (dploydb/deploy.py): whether new traffic may have been activated,
-- what the coordinator's context records of it, and that no restore came after it.
use dploy_db.Base.{◌≡◌, refl, Bool, true, false, Option, none, some, List, ◌∷◌, arith}
use dploy_db.Command.{TrafficAction, activate_new, TrafficHookResult, hook_may_have_run}
use dploy_db.World.{Context, Call, silent, ran, hook, restore, Action}
use dploy_db.Exec.{Exec}
use dploy_db.Exec.Keeps.{Keeps, Triple, Triple-weaken}
use dploy_db.Exec.Quiet.{On}
use dploy_db.Deploy.Journal.{may_switch, is_database_restore, switched_in, restores_before_switch}
use dploy_db.Deploy.Calm.{Calm, is_restore, is_activation}

-- No restore came after an activation, and `G` holds of the coordinator's record of an attempted
-- activation and of whether the journal shows one.
abbrev pub Watched : (Bool → Bool → Type 0) → Context → List Call → Type 0
Watched G c j = (restores_before_switch j ≡ true) × G c.traffic_activation_attempted (switched_in j)

-- New traffic has not been activated.
abbrev pub Unswitched : Bool → Bool → Type 0
Unswitched _ switched = switched ≡ false

-- The record covers the journal.
abbrev pub Recorded : Bool → Bool → Type 0
Recorded attempted switched = attempted ≡ false → switched ≡ false

-- Just before the activation hook.
abbrev pub Armed : Bool → Bool → Type 0
Armed attempted switched = (switched ≡ false) × (attempted ≡ true)

-- Just after the activation hook with result `r`.
abbrev pub Fired : TrafficHookResult → Bool → Bool → Type 0
Fired r attempted switched = (attempted ≡ true) × (hook_may_have_run r ≡ false → switched ≡ false)

quiet_ran : (a : Action) (b : Bool) → is_restore a ≡ false → is_database_restore (ran a b) ≡ false
unfolding is_database_restore
quiet_ran a b h = ground arith

quiet_hook :
    (a : TrafficAction) (r : Option TrafficHookResult)
    → is_activation a ≡ false
    → may_switch (hook a r) ≡ false
unfolding may_switch
quiet_hook a r h = ground arith

safe_cons :
    (c : Call) (j : List Call)
    → is_database_restore c ≡ false
    → restores_before_switch j ≡ true
    → restores_before_switch (c ∷ j) ≡ true
unfolding restores_before_switch
safe_cons c j h s = ground arith

switched_cons :
    (c : Call) (j : List Call) → may_switch c ≡ false → switched_in (c ∷ j) ≡ switched_in j
unfolding switched_in
switched_cons c j h = ground arith

transport_watch : (G : Bool → Bool → Type 0) {a b s t : Bool} → a ≡ b → t ≡ s → G a s → G b t
transport_watch G p q g = rw (← p, q) g

watch_cons :
    (G : Bool → Bool → Type 0) (c : Context) (x : Call) (j : List Call)
    → is_database_restore x ≡ false
    → may_switch x ≡ false
    → Watched G c j
    → Watched G c (x ∷ j)
watch_cons G c x j quiet steady (safe, g) =
    (safe_cons x j quiet safe, transport_watch G refl (switched_cons x j steady) g)

pub Watched-Calm : (G : Bool → Bool → Type 0) → Calm (Watched G)
unfolding is_database_restore may_switch
Watched-Calm G = record {
  at_silent = λ c j h. watch_cons G c silent j refl refl h;
  at_ran = λ c j a b e h. watch_cons G c (ran a b) j (quiet_ran a b e) refl h;
  at_hook = λ c j a r e h. watch_cons G c (hook a r) j refl (quiet_hook a r e) h;
  at_context = λ c d j e h. (h.0, transport_watch G e refl h.1);
}

-- A restore keeps the watch while no activation is in the journal.
pub restore_unswitched :
    (c : Context) (j : List Call) (b : Bool)
    → Watched Unswitched c j
    → Watched Unswitched c (ran restore b ∷ j)
unfolding restores_before_switch switched_in is_database_restore may_switch
restore_unswitched c j b (safe, none_yet) = ground arith

pub Armed-Recorded : (a s : Bool) → Armed a s → Recorded a s
Armed-Recorded a s (none_yet, tried) = λ _. none_yet

pub Fired-Recorded : (r : TrafficHookResult) (a s : Bool) → Fired r a s → Recorded a s
Fired-Recorded r a s (tried, _) = ground arith

-- A program that keeps one watch, where another is asked of its exceptions.
pub kept :
    {A : Type 0} (G R : Bool → Bool → Type 0) {m : Exec A}
    → ((a s : Bool) → G a s → R a s)
    → Keeps (On (Watched G)) m
    → Triple (On (Watched G)) m (λ _. On (Watched G)) (On (Watched R))
kept G R weaker k =
    Triple-weaken (On (Watched G)) (λ _. On (Watched G)) (On (Watched G)) (λ w h. h) (λ a w h. h)
      (λ w h. (h.0, weaker _ _ h.1)) k

pub hook-Fired :
    (r : TrafficHookResult) (c : Context) (j : List Call)
    → Watched Armed c j
    → Watched (Fired r) c (hook activate_new (some r) ∷ j)
unfolding restores_before_switch switched_in is_database_restore may_switch
hook-Fired r c j h = ground arith

pub hook_raised :
    (c : Context) (j : List Call)
    → Watched Armed c j
    → Watched Recorded c (hook activate_new none ∷ j)
unfolding restores_before_switch switched_in is_database_restore may_switch
hook_raised c j h = ground arith
