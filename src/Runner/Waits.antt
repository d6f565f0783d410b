-- ===== src/Runner/Waits.antt =====
-- dploydb/subprocesses.py: the waits of a run end, and what they and the cleanup of a process group say.
use dploy_db.Base.{
  ℕ, zero, suc, ◌+◌, ◌-◌, ◌≤◌, ◌<◌, String, Bool, false, true, not, ◌&&◌, Option, none, some, leb,
  if◌then◌else◌, is_some, ◌≡◌, refl, arith,
}
use dploy_db.Command.{TerminationReason}
use dploy_db.Runner.{
  Child, Run, CleanupResult, joined, tick, poll, wait_for_completion, is_gone, wait_for_process,
  group_cleanup, wait_for_group_cleanup, cleaned, after_kill, after_term, terminate_group,
}

-- A value is there, and has a property.
abbrev pub Gives : {A : Type 0} → (A → Type 0) → Option A → Type 0
Gives P none = ⊥
Gives P (some a) = P a

-- At a look between the two, the process group did not exist, and at the next no reader was alive.
unfoldable pub Gone : Child → ℕ → ℕ → Type 0
Gone env first last =
    (n : ℕ) × (first ≤ n)
    × (n < last)
    × (env.group_exists n ≡ false)
    × (env.readers_alive (suc n) ≡ false)

pub chosen :
    {A : Type 0} (P : A → Type 0) (b : Bool) (x y : Option A)
    → (b ≡ true → Gives P x)
    → (b ≡ false → Gives P y)
    → Gives P (if b then x else y)
chosen P true x y f g = f refl
chosen P false x y f g = g refl

-- At a look between the two the readers had ended, and at a later one none had failed.
unfoldable pub Captured : Child → ℕ → ℕ → Type 0
Captured env first last =
    (n : ℕ) × (m : ℕ) × (first ≤ n)
    × (n < m)
    × (m < last)
    × (env.readers_alive n ≡ false)
    × (env.reader_error m ≡ none)

-- The end of the wait: without a reason, the return code is known and the readers have ended.
unfoldable pub Waited : Child → ℕ → Option TerminationReason × Run → Type 0
Waited env first (none, r) =
    (is_some r.returncode ≡ true)
    × (n : ℕ) × (first ≤ n)
    × (n < r.looks)
    × (env.readers_alive n ≡ false)
Waited env first (some reason, r) = first ≤ r.looks

-- The end of the cleanup: it says that all is gone only if it is.
unfoldable pub Cleaned : Child → ℕ → Bool × Run → Type 0
unfolding Gone
Cleaned env first (b, r) =
    (first ≤ r.looks) × (b ≡ true → Gone env first r.looks × (is_some r.returncode ≡ true))

leb-false : {a b : ℕ} → leb a b ≡ false → b < a
leb-false h = ground arith

enough_left :
    (fuel deadline before now after : ℕ)
    → deadline - before < suc fuel
    → before ≤ now
    → now < after
    → leb deadline now ≡ false
    → deadline - after < fuel
enough_left fuel deadline before now after enough b a early = omega (arith, leb-false early)

module _ (env : Child) (ticks : (n : ℕ) → 1 ≤ env.elapsed n) where
  tick_later : (r : Run) → r.time < (tick env r).time
  unfolding tick
  tick_later r = omega (arith, ticks r.looks)

  poll_later : (r : Run) → r.time < (poll env r).time
  unfolding poll tick
  poll_later r = omega (arith, ticks r.looks)

  wait_for_process_later : (r : Run) → r.time ≤ (wait_for_process env r).time
  unfolding wait_for_process
  wait_for_process_later r = by_code (is_some r.returncode)
    where
      by_code : (b : Bool) → r.time ≤ (if b then r else poll env r).time
      by_code true = omega arith
      by_code false = omega (arith, poll_later r)

  pub wait-Waited :
      (first fuel deadline : ℕ) (r : Run)
      → first ≤ r.looks
      → deadline - r.time < fuel
      → Gives (Waited env first) (wait_for_completion env fuel deadline r)
  unfolding wait_for_completion Waited poll tick
  wait-Waited first zero deadline r f enough = ground arith
  wait-Waited first (suc fuel) deadline r f enough =
      let polled = poll env r in
      let seen = tick env polled in
      let asked = tick env seen in
      let timed = tick env asked in
      chosen (Waited env first) (is_some polled.returncode && not (env.readers_alive polled.looks))
        _ _ (λ e. (ground arith, polled.looks, omega arith, omega arith, ground arith))
        (λ e.
          chosen (Waited env first) (env.is_cancelled seen.looks) _ _ (λ c. omega arith)
            (λ c.
              chosen (Waited env first) (leb deadline timed.time) _ _ (λ d. omega arith)
                (λ d. wait-Waited first fuel deadline (tick env timed) (omega arith) (
                  enough_left fuel deadline r.time timed.time _ enough
                    (omega
                      (arith, poll_later r, tick_later polled, tick_later seen, tick_later asked))
                    (tick_later timed) d))))

  process_looks : (first : ℕ) (r : Run) → first ≤ r.looks → first ≤ (wait_for_process env r).looks
  unfolding wait_for_process poll tick
  process_looks first r f = by_code (is_some r.returncode)
    where
      by_code : (b : Bool) → first ≤ (if b then r else poll env r).looks
      by_code true = f
      by_code false = omega arith

  is_gone-Gone :
      (first last : ℕ) (r : Run)
      → first ≤ r.looks
      → r.looks < last
      → is_gone env r ≡ true
      → Gone env first last × (is_some r.returncode ≡ true)
  unfolding is_gone Gone
  is_gone-Gone first last r f l e = ((r.looks, f, l, ground arith, ground arith), ground arith)

  cleanup-Cleaned :
      (first fuel deadline : ℕ) (r : Run)
      → first ≤ r.looks
      → deadline - r.time < fuel
      → Gives (Cleaned env first) (group_cleanup env fuel deadline r)
  unfolding group_cleanup Cleaned tick poll
  cleanup-Cleaned first zero deadline r f enough = ground arith
  cleanup-Cleaned first (suc fuel) deadline r f enough =
      let polled = poll env r in
      let seen = tick env (tick env polled) in
      let timed = tick env seen in
      let joins = tick env (tick env timed) in
      chosen (Cleaned env first) (is_gone env polled) _ _
        (λ e. (omega arith, λ t. is_gone-Gone first _ polled (omega arith) (omega arith) e))
        (λ e.
          chosen (Cleaned env first) (leb deadline timed.time) _ _
            (λ d. (
              omega arith,
              λ t. is_gone-Gone first _ (poll env timed) (omega arith) (omega arith) t,
            ))
            (λ d.
              cleanup-Cleaned first fuel deadline (wait_for_process env joins)
                (process_looks first joins (omega arith))
                (enough_left fuel deadline r.time timed.time _ enough
                  (omega (
                    arith,
                    poll_later r,
                    tick_later polled,
                    tick_later (tick env polled),
                    tick_later seen,
                  ))
                  (omega (
                    arith,
                    tick_later timed,
                    tick_later (tick env timed),
                    wait_for_process_later joins,
                  ))
                  d)))

Gone-later :
    (env : Child) (first last later : ℕ) → last ≤ later → Gone env first last → Gone env first later
unfolding Gone
Gone-later env first last later h (n, f, l, g, a) = (n, f, omega arith, g, a)

-- A cleanup without an error: all is gone.
unfoldable pub Terminated : Child → ℕ → CleanupResult × Run → Type 0
Terminated env first (c, r) =
    c.error ≡ none → Gone env first r.looks × (is_some r.returncode ≡ true)

module _ (env : Child) (ticks : (n : ℕ) → 1 ≤ env.elapsed n) (first : ℕ) where
  wait_for_group_cleanup-Cleaned :
      (r : Run) → first ≤ r.looks → Gives (Cleaned env first) (wait_for_group_cleanup env r)
  unfolding wait_for_group_cleanup tick
  wait_for_group_cleanup-Cleaned r f =
      cleanup-Cleaned env ticks first (suc env.termination_grace_seconds)
        ((tick env r).time + env.termination_grace_seconds) (tick env r) (omega arith) (omega arith)

  cleaned-Terminated :
      (forced : Bool) (errors : Option String) (r : Run)
      → Cleaned env first (true, r)
      → Terminated env first (cleaned env forced errors r)
  unfolding Cleaned Terminated cleaned tick
  cleaned-Terminated forced errors r (f, h) =
      λ e. let (g, c) = h refl in (Gone-later env first r.looks _ (omega arith) g, c)

  after_kill-Terminated :
      (errors : Option String) (o : Option (Bool × Run))
      → Gives (Cleaned env first) o
      → Gives (Terminated env first) (after_kill env errors o)
  unfolding after_kill Terminated cleaned joined
  after_kill-Terminated errors none h = h
  after_kill-Terminated errors (some (true, r)) h = cleaned-Terminated true errors r h
  after_kill-Terminated none (some (false, r)) h = λ e. ground arith
  after_kill-Terminated (some d) (some (false, r)) h = λ e. ground arith

  after_term-Terminated :
      (errors : Option String) (o : Option (Bool × Run))
      → Gives (Cleaned env first) o
      → Gives (Terminated env first) (after_term env errors o)
  unfolding after_term Cleaned tick
  after_term-Terminated errors none h = h
  after_term-Terminated errors (some (true, r)) h = cleaned-Terminated false errors r h
  after_term-Terminated errors (some (false, r)) h =
      after_kill-Terminated (joined errors (env.signal_error r.looks)) _
        (wait_for_group_cleanup-Cleaned (tick env r) (let f = h.0 in omega arith))

  pub terminate_group-Terminated :
      (r : Run) → first ≤ r.looks → Gives (Terminated env first) (terminate_group env r)
  unfolding terminate_group tick
  terminate_group-Terminated r f =
      after_term-Terminated (env.signal_error r.looks) _
        (wait_for_group_cleanup-Cleaned (tick env r) (omega arith))
