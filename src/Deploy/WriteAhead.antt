-- ===== src/Deploy/WriteAhead.antt =====
-- The activation of new traffic (dploydb/deploy.py) stores its intent before it calls the hook.
use dploy_db.Base.{
  ℕ, ◌≡◌, refl, sym, ◌∙◌, Bool, true, false, ◌||◌, some, List, [], ◌∷◌, Dict, lookup, insert, ◌==◌,
  lookup-insert, lookup-insert_self, arith, Bool-cases, ◌⊎◌, inl, inr,
}
use mathlib.Core.Bool.{false≢true}
use dploy_db.Command.{activate_new, TrafficHookResult}
use dploy_db.Models.State.{DeploymentState}
use dploy_db.Models.Manifest.{ReleaseManifest}
use dploy_db.Raised.{Outcome, returned, raised}
use dploy_db.World.{World, Environment, Call, hook}
use dploy_db.Exec.{Exec}
use dploy_db.Exec.Keeps.{
  Keeps, Post, Triple, Triple-bind, Triple-ask, Triple-gets, Triple-modify, Triple-if,
  Triple-weaken, Keeps-bind, Keeps-gets, Keeps-pure, Keeps-raise, both_post,
}
use dploy_db.Exec.Returns.{given}
use dploy_db.Exec.Quiet.{On, Quiet, Unaware}
use dploy_db.Calls.{run_hook}
use dploy_db.Releases.{Changes, changed, transition_manifest, intent_manifest}
use dploy_db.Releases.Graph.{transition-Advanced, intent-Intended}
use dploy_db.Releases.Store
use dploy_db.Releases.Store.{redact_manifest}
use dploy_db.Releases.Store.Effects.{Replaced, transition-Replaced, record_recovery_intent-Replaced}
use dploy_db.Releases.Store.Quiet
use dploy_db.Operations.Quiet as Trail
use dploy_db.Deploy.Steps.{
  activate, activation_failed, activation_passed, record_hook, persist_stage,
}

-- The activation hook has been called.
unfoldable pub is_activation_call : Call → Bool
is_activation_call (hook activate_new _) = true
is_activation_call _ = false

unfoldable pub activation_called : List Call → Bool
activation_called [] = false
activation_called (c ∷ j) = is_activation_call c || activation_called j

-- The stored manifest of the release says that an activation may have been attempted.
abbrev pub Flagged : ℕ → Dict ReleaseManifest → Type 0
Flagged id files =
    (m : ReleaseManifest) × (lookup id files ≡ some m) × (m.traffic_activation_attempted ≡ true)

abbrev OnFiles : ℕ → World → Type 0
OnFiles id w = Flagged id w.releases

OnFiles-Unaware : (id : ℕ) → Unaware (OnFiles id)
OnFiles-Unaware id = record { at_silent = λ w h. h; at_operations = λ w o h. h }

-- One replaced manifest that keeps the flag keeps it for every release.
replaced_keeps :
    (id j : ℕ) (files after : Dict ReleaseManifest) (before new : ReleaseManifest)
    → lookup j files ≡ some before
    → new.traffic_activation_attempted ≡ before.traffic_activation_attempted
    → after ≡ insert j new files
    → Flagged id files
    → Flagged id after
replaced_keeps id j files after before new was same is (m, there, flag) =
    elim (Bool-cases (j == id)) [
      | inl here ↦
          let is_id : j ≡ id = ground arith in
          let was_id : some before ≡ some m = sym (rw is_id at was) ∙ there in
          let before_is : before ≡ m = ground (arith, was_id) in
          (new, rw (is, is_id, lookup-insert_self id new files), rw (same, before_is) flag)
      | inr other ↦ (m, rw (is, lookup-insert j id new files, other) there, flag)
    ]

module _ (env : Environment) (id : ℕ) where
  step_keeps :
      (j : ℕ) (s : DeploymentState) (c : Changes) (files : Dict ReleaseManifest)
      (new : ReleaseManifest) (w : World)
      → Flagged id files
      → Replaced env files j (λ m t. transition_manifest m t s c) new w
      → OnFiles id w
  unfolding redact_manifest changed
  step_keeps j s c files new w flagged r =
      let a = transition-Advanced r.before r.time s c r.step in
      replaced_keeps id j files w.releases r.before new r.was (rw (r.redacted, a.result))
        r.now_files flagged

  transition-Keeps :
      (j : ℕ) (s : DeploymentState) (c : Changes) → Keeps (OnFiles id) (Store.transition env j s c)
  transition-Keeps j s c = record { at = λ w h. (from w.releases h).at w refl }
    where
      from :
          (files : Dict ReleaseManifest)
          → Flagged id files
          → Triple
              (λ w. w.releases ≡ files)
              (Store.transition env j s c)
              (λ _. OnFiles id)
              (OnFiles id)
      from files h =
          Triple-weaken (λ w. w.releases ≡ files)
            (λ new w. Replaced env files j (λ m t. transition_manifest m t s c) new w)
            (λ w.
              (w.releases ≡ files)
              ⊎ (new : ReleaseManifest) × Replaced env files j (λ m t. transition_manifest m t s c)
                  new w)
            (λ w e. e) (λ new w r. step_keeps j s c files new w h r)
            (λ w e. elim e [
              | inl same ↦ rw same h
              | inr (new, r) ↦ step_keeps j s c files new w h r
            ])
            (transition-Replaced env j s c files)

  -- The hook has not been called, or the flag is stored.
  abbrev Ahead : World → Type 0
  Ahead w = activation_called w.journal ≡ true → OnFiles id w

  -- Nothing has been called yet, and the context is that of the release.
  abbrev Before : World → Type 0
  Before w = (activation_called w.journal ≡ false) × (w.context.release_id ≡ id)

  from_flag : (w : World) → OnFiles id w → Ahead w
  from_flag w h _ = h

  from_none : (w : World) → activation_called w.journal ≡ false → Ahead w
  from_none w none_yet called = elim (false≢true (sym none_yet ∙ called)) [ ]

  -- What keeps the flag may raise anywhere.
  flagged :
      {A : Type 0} {m : Exec A}
      → Keeps (OnFiles id) m
      → Triple (OnFiles id) m (λ _. OnFiles id) Ahead
  flagged k =
      Triple-weaken (OnFiles id) (λ _. OnFiles id) (OnFiles id) (λ w h. h) (λ a w h. h) from_flag k

  none_called : Quiet (λ _ j. activation_called j ≡ false)
  unfolding activation_called is_activation_call
  none_called = record { at_silent = λ c j h. h }

  intent_stored :
      (j : ℕ)
      → j ≡ id
      → Triple
          (λ w. activation_called w.journal ≡ false)
          (Store.record_recovery_intent env j false true)
          (λ _. OnFiles id)
          Ahead
  unfolding redact_manifest
  intent_stored j named = record {
    at = λ w h.
        both_post (λ _. On (λ _ l. activation_called l ≡ false))
          (λ new v. Replaced env w.releases j (λ m t. intent_manifest m t false true) new v)
          (λ _. OnFiles id) (On (λ _ l. activation_called l ≡ false))
          (λ v.
            (v.releases ≡ w.releases)
            ⊎ (new : ReleaseManifest) × Replaced env w.releases j
                (λ m t. intent_manifest m t false true) new v)
          Ahead (λ new v _ r. raised_flag w.releases new v r) (λ v none_yet _. from_none v none_yet)
          (Store.record_recovery_intent env j false true w)
          ((Quiet.Keeps-record_recovery_intent env _ none_called j false true).at w h)
          ((record_recovery_intent-Replaced env j false true w.releases).at w refl);
  }
    where
      raised_flag :
          (files : Dict ReleaseManifest) (new : ReleaseManifest) (v : World)
          → Replaced env files j (λ m t. intent_manifest m t false true) new v
          → OnFiles id v
      raised_flag files new v r =
          let a = intent-Intended r.before r.time false true r.step in
          (
            new,
            rw (r.now_files, named, lookup-insert_self id new files),
            rw r.redacted a.activation_flag,
          )

  hook_kept : Triple (OnFiles id) (run_hook env activate_new) (λ _. OnFiles id) Ahead
  unfolding run_hook
  hook_kept = Triple-ask _ _ (λ w r h _. h) (λ w _ h _. h)

  record_kept : (r : TrafficHookResult) → Keeps (OnFiles id) (record_hook env r)
  unfolding record_hook
  record_kept r = Keeps-bind _ _ (Triple-modify {Q = λ _. OnFiles id} _ (λ w h. h)) λ _.
      Keeps-bind _ _ (Keeps-gets _)
        λ c. Trail.Keeps-append_event env (OnFiles id) (OnFiles-Unaware id) _ _ _

  failed_kept : (r : TrafficHookResult) → Keeps (OnFiles id) (activation_failed env r)
  unfolding activation_failed
  failed_kept r =
      Keeps-bind _ _ (Triple-modify {Q = λ _. OnFiles id} _ (λ w h. h))
        λ _. Keeps-bind _ _ (Keeps-gets _) λ c. Keeps-raise _

  passed_kept : (r : TrafficHookResult) → Keeps (OnFiles id) (activation_passed env r)
  unfolding activation_passed persist_stage
  passed_kept r = Keeps-bind _ _ (Triple-modify {Q = λ _. OnFiles id} _ (λ w h. h)) λ _.
      Keeps-bind _ _ (Keeps-gets _) λ c.
        Keeps-bind _ _ (Trail.Keeps-transition env (OnFiles id) (OnFiles-Unaware id) _ _ _ _ _ _ _)
          λ _. Keeps-bind _ _ (transition-Keeps _ _ _) λ _. Keeps-pure tt

  ahead : Triple Before (activate env) (λ _. Ahead) Ahead
  unfolding activate
  ahead =
      Triple-bind (λ _. Before) _ _ (Triple-modify _ (λ w h. h))
        λ _.
          Triple-bind (λ c w. (activation_called w.journal ≡ false) × (c.release_id ≡ id)) _ _
            (Triple-gets _ (λ w h. h))
            λ c. given λ named.
              Triple-bind (λ _. OnFiles id) _ _ (intent_stored _ named)
                λ _.
                  Triple-bind (λ _. OnFiles id) _ _
                    (flagged
                      (Trail.Keeps-transition env (OnFiles id) (OnFiles-Unaware id) _ _ _ _ _ _ _))
                    λ _.
                      Triple-bind (λ _. OnFiles id) _ _ hook_kept
                        λ r.
                          Triple-bind (λ _. OnFiles id) _ _ (flagged (record_kept r))
                            λ _.
                              Triple-weaken (OnFiles id) (λ _. OnFiles id) (OnFiles id) (λ w h. h)
                                (λ a w h. from_flag w h) from_flag
                                (Triple-if _ _ _ (λ _. failed_kept r) (λ _. passed_kept r))

ended :
    (id : ℕ) (x : Outcome (Unit {0}) × World)
    → Post
        (λ _ w. activation_called w.journal ≡ true → Flagged id w.releases)
        (λ w. activation_called w.journal ≡ true → Flagged id w.releases)
        x
    → activation_called x.1.journal ≡ true
    → Flagged id x.1.releases
ended id (returned a, w) h = h
ended id (raised e, w) h = h

-- If an activation has called its hook, the durable manifest of the release has the activation
-- attempt recorded when it ends, whatever the hook answered and wherever the activation failed.
pub activate-Flagged :
    (env : Environment) (w : World)
    → activation_called w.journal ≡ false
    → activation_called (activate env w).1.journal ≡ true
    → Flagged w.context.release_id (activate env w).1.releases
activate-Flagged env w none_yet called =
    ended w.context.release_id (activate env w)
      ((ahead env w.context.release_id).at w (none_yet, refl)) called
