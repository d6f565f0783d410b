-- ===== src/Deploy/RestoreSafety.antt =====
-- dploydb/deploy.py never restores the database after new traffic may have been activated: proved for
-- every behaviour of the outside, failures at any point of the run included.
pub mod Watch
use dploy_db.Base.{
  ◌≡◌, refl, Bool, true, false, not, ◌&&◌, ◌||◌, Option, none, some, List, [], ◌∷◌, if◌then◌else◌,
  Bool-cases, inl, inr, sym, arith,
}
use dploy_db.Command.{TrafficAction, activate_new, TrafficHookResult, passed, hook_may_have_run}
use dploy_db.Errors.{DployDbError}
use dploy_db.Raised.{Raised, Outcome, returned, raised}
use dploy_db.World.{World, Environment, Context, Call, silent, ran, hook, restore, Action}
use dploy_db.Exec.{Exec}
use dploy_db.Exec.Keeps.{
  Keeps, Post, Triple, Triple-bind, Triple-ask, Triple-gets, Triple-modify, Triple-if, Triple-try,
  Triple-weaken, Triple-raise, Triple-lift, Keeps-bind, Keeps-gets, Keeps-raise,
}
use dploy_db.Exec.Quiet.{On}
use dploy_db.Calls.{run_hook}
use dploy_db.Deploy.Journal.{may_switch, is_database_restore, switched_in, restores_before_switch}
use dploy_db.Deploy.Report.{normalize}
use dploy_db.Deploy.Steps.{activate, activation_failed, activation_passed}
use dploy_db.Deploy.Calm.{Calm, is_restore, is_activation}
use dploy_db.Deploy.Calm.Forward.{
  Keeps-intent, Keeps-operation, Keeps-record_hook, Keeps-persist_stage,
  Keeps-disable_after_activation,
}
use dploy_db.Deploy.Calm.Stages.{
  Keeps-prepare, Keeps-stop_previous, Keeps-back_up, Keeps-migrate_production,
  Keeps-start_and_check,
}
use dploy_db.Deploy.Calm.Endings.{Keeps-complete_active, Keeps-finish_failed, Keeps-finish_recovery}
use dploy_db.Deploy.Calm.Return.{Keeps-rollback}
use dploy_db.Deploy.Finish.{finish_recovery, finish_failed}
use dploy_db.Deploy.Rollback.{rollback}
use dploy_db.Deploy.Coordinator.{
  deploy_forward, give_up, settle, settle_or_raise, deploy_failed, run_deployment,
}
use dploy_db.Deploy.RestoreSafety.Watch.{
  Watched, Unswitched, Recorded, Armed, Fired, Watched-Calm, restore_unswitched, Armed-Recorded,
  Fired-Recorded, kept, hook-Fired, hook_raised,
}

module _ (env : Environment) where
  fire_hook :
      Triple
        (On (Watched Armed))
        (run_hook env activate_new)
        (λ r. On (Watched (Fired r)))
        (On (Watched Recorded))
  unfolding run_hook
  fire_hook =
      Triple-ask _ _ (λ w r h _. hook-Fired r w.context w.journal h)
        (λ w _ h. hook_raised w.context w.journal h)

  failed_activation :
      (r : TrafficHookResult)
      → Triple
          (On (Watched (Fired r)))
          (activation_failed env r)
          (λ _. On (Watched Recorded))
          (On (Watched Recorded))
  unfolding activation_failed
  failed_activation r =
      Triple-bind (λ _. On (Watched Recorded)) _ _ (Triple-modify _ (λ w h. (h.0, h.1.1)))
        λ _. Keeps-bind _ _ (Keeps-gets _) λ c. Keeps-raise _

  passed_activation :
      (r : TrafficHookResult)
      → Triple
          (On (Watched (Fired r)))
          (activation_passed env r)
          (λ _. On (Watched Recorded))
          (On (Watched Recorded))
  unfolding activation_passed
  passed_activation r =
      Triple-bind (λ _. On (Watched Recorded)) _ _
        (Triple-modify _ (λ w h. (h.0, Fired-Recorded r _ _ h.1)))
        λ _. Keeps-persist_stage env _ (Watched-Calm Recorded) _ _ _ _ _

  activation :
      Triple
        (On (Watched Unswitched))
        (activate env)
        (λ _. On (Watched Recorded))
        (On (Watched Recorded))
  unfolding activate
  activation =
      Triple-bind (λ _. On (Watched Armed)) _ _ (Triple-modify _ (λ w h. (h.0, (h.1, refl))))
        λ _.
          Triple-bind (λ _. On (Watched Armed)) _ _ (Triple-gets _ (λ w h. h))
            λ c.
              Triple-bind (λ _. On (Watched Armed)) _ _
                (kept Armed Recorded Armed-Recorded (Keeps-intent env _ (Watched-Calm Armed) _ _ _))
                λ _.
                  Triple-bind (λ _. On (Watched Armed)) _ _
                    (kept Armed Recorded Armed-Recorded
                      (Keeps-operation env _ (Watched-Calm Armed) _ _ _ _ _ _ _))
                    λ _.
                      Triple-bind (λ r. On (Watched (Fired r))) _ _ fire_hook
                        λ r.
                          Triple-bind (λ _. On (Watched (Fired r))) _ _
                            (kept (Fired r) Recorded (Fired-Recorded r)
                              (Keeps-record_hook env _ (Watched-Calm (Fired r)) r))
                            λ _.
                              Triple-if _ _ _ (λ _. failed_activation r) (λ _. passed_activation r)

  forward :
      Triple
        (On (Watched Unswitched))
        (deploy_forward env)
        (λ _. On (Watched Recorded))
        (On (Watched Recorded))
  unfolding deploy_forward
  forward =
      Triple-bind (λ _. On (Watched Unswitched)) _ _ (before (Keeps-prepare env _ calm))
        λ _.
          Triple-bind (λ _. On (Watched Unswitched)) _ _ (before (Keeps-stop_previous env _ calm))
            λ s.
              Triple-bind (λ _. On (Watched Unswitched)) _ _ (before (Keeps-back_up env _ calm s))
                λ b.
                  Triple-bind (λ _. On (Watched Unswitched)) _ _
                    (before (Keeps-migrate_production env _ calm s b))
                    λ _.
                      Triple-bind (λ _. On (Watched Unswitched)) _ _
                        (before (Keeps-start_and_check env _ calm))
                        λ _.
                          Triple-bind (λ _. On (Watched Recorded)) _ _ activation
                            λ _.
                              Keeps-bind _ _
                                (Keeps-disable_after_activation env _ (Watched-Calm Recorded))
                                λ _. Keeps-complete_active env _ (Watched-Calm Recorded)
    where
      calm : Calm (Watched Unswitched)
      calm = Watched-Calm Unswitched

      before :
          {A : Type 0} {m : Exec A}
          → Keeps (On (Watched Unswitched)) m
          → Triple
              (On (Watched Unswitched))
              m
              (λ _. On (Watched Unswitched))
              (On (Watched Recorded))
      before k = kept Unswitched Recorded (λ a s h _. h) k

  -- The handler has read the context `c`, and nothing has changed it since.
  abbrev Seen : Context → World → Type 0
  Seen c w = On (Watched Recorded) w × (w.context ≡ c)

  given_up :
      (c : Context) (e : DployDbError) (finish : DployDbError → Exec (Unit {0}))
      → Keeps (On (Watched Recorded)) (finish e)
      → Triple (Seen c) (give_up env e finish) (λ _. On (Watched Recorded)) (On (Watched Recorded))
  unfolding give_up
  given_up c e finish k =
      Triple-weaken (On (Watched Recorded)) (λ _. On (Watched Recorded)) (On (Watched Recorded))
        (λ w h. h.0) (λ a w h. h) (λ w h. h) (Keeps-bind _ _ k (λ _. Keeps-raise _))

  recovered :
      (c : Context) (e : DployDbError)
      → Triple
          (Seen c)
          (give_up env e (finish_recovery env))
          (λ _. On (Watched Recorded))
          (On (Watched Recorded))
  recovered c e =
      given_up c e (finish_recovery env) (Keeps-finish_recovery env _ (Watched-Calm Recorded) e)

  stopped_early :
      (c : Context) (e : DployDbError)
      → Triple
          (Seen c)
          (give_up env e (finish_failed env))
          (λ _. On (Watched Recorded))
          (On (Watched Recorded))
  stopped_early c e =
      given_up c e (finish_failed env) (Keeps-finish_failed env _ (Watched-Calm Recorded) e)

  -- Only a context without an attempt leads to a rollback.
  brought_back :
      (c : Context) (e : DployDbError)
      → c.traffic_activation_attempted ≡ false
      → Triple (Seen c) (rollback env e) (λ _. On (Watched Recorded)) (On (Watched Recorded))
  brought_back c e untried =
      Triple-weaken (On (Watched Unswitched)) (λ _. On (Watched Unswitched))
        (On (Watched Unswitched)) (λ w h. (h.0.0, h.0.1 (rw h.1 untried)))
        (λ a w h. (h.0, λ _. h.1)) (λ w h. (h.0, λ _. h.1))
        (Keeps-rollback env _ (Watched-Calm Unswitched) restore_unswitched e)

  settled :
      (c : Context) (e : DployDbError)
      → Triple (Seen c) (settle env c e) (λ _. On (Watched Recorded)) (On (Watched Recorded))
  unfolding settle
  settled c e = search (Triple-if, recovered, stopped_early, brought_back) depth 6

  handled :
      (raw : Raised)
      → Triple
          (On (Watched Recorded))
          (deploy_failed env raw)
          (λ _. On (Watched Recorded))
          (On (Watched Recorded))
  unfolding deploy_failed settle_or_raise
  handled raw =
      Triple-bind Seen _ _ (Triple-gets _ (λ w h. (h, refl))) λ c. by_error c (normalize c raw)
    where
      by_error :
          (c : Context) (o : Option DployDbError)
          → Triple
              (Seen c)
              (settle_or_raise env c o raw)
              (λ _. On (Watched Recorded))
              (On (Watched Recorded))
      by_error c none = Triple-raise _ (λ w h. h.0)
      by_error c (some e) = settled c e

  pub deployment :
      Triple
        (On (Watched Unswitched))
        (run_deployment env)
        (λ _. On (Watched Recorded))
        (On (Watched Recorded))
  unfolding run_deployment
  deployment = Triple-try (On (Watched Recorded)) _ _ forward handled

-- The first half of the watch, however the program ended.
pub after :
    {A : Type 0} (x : Outcome A × World)
    → Post (λ _. On (Watched Recorded)) (On (Watched Recorded)) x
    → restores_before_switch x.1.journal ≡ true
after (returned a, w) h = h.0
after (raised e, w) h = h.0

-- Whatever the outside answers and wherever the run fails: a deployment that starts with a journal
-- without an activation never restores the database after the activation hook may have run.
pub run_deployment-restores_before_switch :
    (env : Environment) (w : World)
    → restores_before_switch w.journal ≡ true
    → switched_in w.journal ≡ false
    → restores_before_switch (run_deployment env w).1.journal ≡ true
run_deployment-restores_before_switch env w safe fresh =
    after (run_deployment env w) ((deployment env).at w (safe, fresh))
