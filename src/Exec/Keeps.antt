-- ===== src/Exec/Keeps.antt =====
-- Postconditions of programs: what holds when a program returns, and what when it raises. One rule
-- for each way to build a program.
use dploy_db.Base.{◌≡◌, refl, Bool, true, false, Option, none, some, List, ◌∷◌, if◌then◌else◌}
use dploy_db.Raised.{Raised, Outcome, returned, raised}
use dploy_db.World.{
  World, Context, RestoreContext, Call, silent, DiskOutcome, written, not_written, not_synced,
}
use dploy_db.Exec.{
  Exec, pure, raise, lift, gets, ask, modify, modify_restore, commit, save, ◌>>=◌, try_except,
  try_finally, continue, handle, for_some, when,
}

abbrev pub Post :
    {A : Type 0} → (A → World → Type 0) → (World → Type 0) → Outcome A × World → Type 0
Post Q R (returned a, w) = Q a w
Post Q R (raised e, w) = R w

-- From a world in `P` the program ends in `Q` where it returns, and in `R` where it raises.
pub record Triple {A : Type 0} (P : World → Type 0) (m : Exec A) (Q : A → World → Type 0)
    (R : World → Type 0) : Type 0 where
  pub at : (w : World) → P w → Post Q R (m w)

-- The program keeps `P`, whether it returns or raises.
abbrev pub Keeps : {A : Type 0} → (World → Type 0) → Exec A → Type 0
Keeps P m = Triple P m (λ _. P) P

lift_post :
    {A : Type 0} (Q : A → World → Type 0) (R : World → Type 0) (r : Outcome A) (w : World)
    → ((a : A) → r ≡ returned a → Q a w)
    → ((e : Raised) → r ≡ raised e → R w)
    → Post Q R (r, w)
lift_post Q R (returned a) w q r = q a refl
lift_post Q R (raised e) w q r = r e refl

weaken_post :
    {A : Type 0} (Q Q' : A → World → Type 0) (R R' : World → Type 0)
    → ((a : A) (w : World) → Q' a w → Q a w)
    → ((w : World) → R' w → R w)
    → (x : Outcome A × World) → Post Q' R' x
    → Post Q R x
weaken_post Q Q' R R' q r (returned a, w) h = q a w h
weaken_post Q Q' R R' q r (raised e, w) h = r w h

commit_post :
    (Q : Unit {0} → World → Type 0) (R : World → Type 0) (o : DiskOutcome) (change : World → World)
    (w : World)
    → Q tt (change w)
    → R (change w)
    → R w
    → Post Q R (commit o change w)
unfolding commit
commit_post Q R written change w a b c = a
commit_post Q R (not_written e) change w a b c = c
commit_post Q R (not_synced e) change w a b c = b

bind_post :
    {A B : Type 0} (S : A → World → Type 0) (Q : B → World → Type 0) (R : World → Type 0)
    (f : A → Exec B)
    → ((a : A) → Triple (S a) (f a) Q R)
    → (x : Outcome A × World) → Post S R x
    → Post Q R (continue x.0 f x.1)
bind_post S Q R f k (returned a, w) h = (k a).at w h
bind_post S Q R f k (raised e, w) h = h

handle_post :
    {A : Type 0} (S R : World → Type 0) (Q : A → World → Type 0) (f : Raised → Exec A)
    → ((e : Raised) → Triple S (f e) Q R)
    → (x : Outcome A × World) → Post Q S x
    → Post Q R (handle x.0 f x.1)
handle_post S R Q f k (returned a, w) h = h
handle_post S R Q f k (raised e, w) h = (k e).at w h

module _ {A : Type 0} {P R : World → Type 0} {Q : A → World → Type 0} where
  pub Triple-pure : (a : A) → ((w : World) → P w → Q a w) → Triple P (pure a) Q R
  unfolding pure
  Triple-pure a h = record { at = h }

  pub Triple-raise : (e : Raised) → ((w : World) → P w → R w) → Triple P (raise e) Q R
  unfolding raise
  Triple-raise e h = record { at = h }

  pub Triple-gets : (f : World → A) → ((w : World) → P w → Q (f w) w) → Triple P (gets f) Q R
  unfolding gets
  Triple-gets f h = record { at = h }

  pub Triple-lift :
      (o : Outcome A)
      → ((w : World) (a : A) → P w → o ≡ returned a → Q a w)
      → ((w : World) (e : Raised) → P w → o ≡ raised e → R w)
      → Triple P (lift o) Q R
  unfolding lift
  Triple-lift o q r = record { at = λ w p. lift_post Q R o w (λ a. q w a p) (λ e. r w e p) }

  pub Triple-ask :
      (answer : List Call → Outcome A) (entry : Outcome A → Call)
      → ((w : World) (a : A)
          → P w
          → answer w.journal ≡ returned a
          → Q a (record w { journal = entry (returned a) ∷ w.journal }))
      → ((w : World) (e : Raised) → P w → R (record w { journal = entry (raised e) ∷ w.journal }))
      → Triple P (ask answer entry) Q R
  unfolding ask
  Triple-ask answer entry q r = record { at = λ w p. by_answer w p (answer w.journal) refl }
    where
      by_answer :
          (w : World)
          → P w
          → (o : Outcome A) → answer w.journal ≡ o
          → Post Q R (o, record w { journal = entry o ∷ w.journal })
      by_answer w p (returned a) e = q w a p e
      by_answer w p (raised x) e = r w x p

  pub Triple-if :
      (b : Bool) (m n : Exec A)
      → (b ≡ true → Triple P m Q R)
      → (b ≡ false → Triple P n Q R)
      → Triple P (if b then m else n) Q R
  Triple-if true m n km kn = km refl
  Triple-if false m n km kn = kn refl

  -- Consequence.
  pub Triple-weaken :
      (P' : World → Type 0) (Q' : A → World → Type 0) (R' : World → Type 0) {m : Exec A}
      → ((w : World) → P w → P' w)
      → ((a : A) (w : World) → Q' a w → Q a w)
      → ((w : World) → R' w → R w)
      → Triple P' m Q' R'
      → Triple P m Q R
  Triple-weaken P' Q' R' {m} p q r t = record {
    at = λ w h. weaken_post Q Q' R R' q r (m w) (t.at w (p w h));
  }

module _ {P R : World → Type 0} {Q : Unit {0} → World → Type 0} where
  pub Triple-modify :
      (f : Context → Context)
      → ((w : World) → P w → Q tt (record w { context = f w.context }))
      → Triple P (modify f) Q R
  unfolding modify
  Triple-modify f h = record { at = h }

  pub Triple-modify_restore :
      (f : RestoreContext → RestoreContext)
      → ((w : World) → P w → Q tt (record w { restoring = f w.restoring }))
      → Triple P (modify_restore f) Q R
  unfolding modify_restore
  Triple-modify_restore f h = record { at = h }

  -- A write that is made, one that is made and then fails to sync, and one that is not made.
  pub Triple-save :
      (disk : List Call → DiskOutcome) (change : World → World)
      → ((w : World) → P w → Q tt (change (record w { journal = silent ∷ w.journal })))
      → ((w : World) → P w → R (change (record w { journal = silent ∷ w.journal })))
      → ((w : World) → P w → R (record w { journal = silent ∷ w.journal }))
      → Triple P (save disk change) Q R
  unfolding save
  Triple-save disk change a b c = record {
    at = λ w p. commit_post Q R (disk w.journal) change _ (a w p) (b w p) (c w p);
  }

module _ {A B : Type 0} {P R : World → Type 0} {Q : B → World → Type 0} where
  pub Triple-bind :
      (S : A → World → Type 0) (m : Exec A) (f : A → Exec B)
      → Triple P m S R
      → ((a : A) → Triple (S a) (f a) Q R)
      → Triple P (m >>= f) Q R
  unfolding ◌>>=◌
  Triple-bind S m f t k = record { at = λ w p. bind_post S Q R f k (m w) (t.at w p) }

module _ {A : Type 0} {P R : World → Type 0} {Q : A → World → Type 0} where
  -- What holds where the body raises is what the handler starts from.
  pub Triple-try :
      (S : World → Type 0) (m : Exec A) (handler : Raised → Exec A)
      → Triple P m Q S
      → ((e : Raised) → Triple S (handler e) Q R)
      → Triple P (try_except m handler) Q R
  unfolding try_except
  Triple-try S m handler t k = record { at = λ w p. handle_post S R Q handler k (m w) (t.at w p) }

post_value :
    {A : Type 0} (Q : A → World → Type 0) (R : World → Type 0) (x : Outcome A) (w : World) (a : A)
    → x ≡ returned a
    → Post Q R (x, w)
    → Q a w
post_value Q R x w a e h = rw e at h

module _ {A : Type 0} {P : World → Type 0} {Q : A → World → Type 0} {R : World → Type 0}
    {m : Exec A} where
  -- What a program is known to end in, where it is known how it ended.
  pub at_return :
      Triple P m Q R → (w : World) → P w → (a : A) (w' : World) → m w ≡ (returned a, w') → Q a w'
  at_return t w p a w' e = rw e at (t.at w p)

  pub at_value : Triple P m Q R → (w : World) → P w → (a : A) → (m w).0 ≡ returned a → Q a (m w).1
  at_value t w p a e = post_value Q R (m w).0 (m w).1 a e (t.at w p)

  pub at_raise :
      Triple P m Q R → (w : World) → P w → (r : Raised) (w' : World) → m w ≡ (raised r, w') → R w'
  at_raise t w p r w' e = rw e at (t.at w p)

-- Two things known of one end.
pub both_post :
    {A : Type 0} (Q Q' Q'' : A → World → Type 0) (R R' R'' : World → Type 0)
    → ((a : A) (w : World) → Q a w → Q' a w → Q'' a w)
    → ((w : World) → R w → R' w → R'' w)
    → (x : Outcome A × World) → Post Q R x
    → Post Q' R' x
    → Post Q'' R'' x
both_post Q Q' Q'' R R' R'' q r (returned a, w) h k = q a w h k
both_post Q Q' Q'' R R' R'' q r (raised e, w) h k = r w h k

-- Two triples of one program.
pub Triple-both :
    {A : Type 0} {P P' R R' : World → Type 0} {Q Q' : A → World → Type 0} {m : Exec A}
    → Triple P m Q R
    → Triple P' m Q' R'
    → Triple (λ w. P w × P' w) m (λ a w. Q a w × Q' a w) (λ w. R w × R' w)
Triple-both {P} {P'} {R} {R'} {Q} {Q'} {m} t u = record {
  at = λ w h.
      both_post Q Q' (λ a w. Q a w × Q' a w) R R' (λ w. R w × R' w) (λ a w q r. (q, r))
        (λ w q r. (q, r)) (m w) (t.at w h.0) (u.at w h.1);
}

-- Rules for an invariant `P`: the intermediate conditions are `P` itself.
module _ {A B : Type 0} {P : World → Type 0} where
  pub Keeps-bind :
      (m : Exec A) (f : A → Exec B) → Keeps P m → ((a : A) → Keeps P (f a)) → Keeps P (m >>= f)
  Keeps-bind m f t k = Triple-bind (λ _. P) m f t k

module _ {A : Type 0} {P : World → Type 0} where
  pub Keeps-pure : (a : A) → Keeps P (pure a)
  Keeps-pure a = Triple-pure a (λ w p. p)

  pub Keeps-raise : (e : Raised) → Keeps P (raise {A = A} e)
  Keeps-raise e = Triple-raise e (λ w p. p)

  pub Keeps-gets : (f : World → A) → Keeps P (gets f)
  Keeps-gets f = Triple-gets f (λ w p. p)

  pub Keeps-lift : (o : Outcome A) → Keeps P (lift o)
  Keeps-lift o = Triple-lift o (λ w a p _. p) (λ w e p _. p)

  pub Keeps-if :
      (b : Bool) (m n : Exec A)
      → (b ≡ true → Keeps P m)
      → (b ≡ false → Keeps P n)
      → Keeps P (if b then m else n)
  Keeps-if b m n km kn = Triple-if b m n km kn

  pub Keeps-try :
      (m : Exec A) (handler : Raised → Exec A)
      → Keeps P m
      → ((e : Raised) → Keeps P (handler e))
      → Keeps P (try_except m handler)
  Keeps-try m handler t k = Triple-try P m handler t k

  finally_post :
      (last : Exec (Unit {0}))
      → Keeps P last
      → (x : Outcome A × World) → Post (λ _. P) P x
      → Post (λ _. P) P ((last >>= λ _. lift x.0) x.1)
  finally_post last k (returned a, w) h =
      (Keeps-bind {A = Unit {0}} last (λ _. lift (returned a)) k (λ _. Keeps-lift (returned a))).at
        w h
  finally_post last k (raised e, w) h =
      (Keeps-bind {A = Unit {0}} last (λ _. lift (raised e)) k (λ _. Keeps-lift (raised e))).at w h

  pub Keeps-finally :
      (m : Exec A) (last : Exec (Unit {0}))
      → Keeps P m
      → Keeps P last
      → Keeps P (try_finally m last)
  unfolding try_finally
  Keeps-finally m last t k = record { at = λ w p. finally_post last k (m w) (t.at w p) }

pub Keeps-for_some :
    {A : Type 0} {P : World → Type 0} (o : Option A) (m : A → Exec (Unit {0}))
    → ((a : A) → Keeps P (m a))
    → Keeps P (for_some o m)
Keeps-for_some none m k = Keeps-pure tt
Keeps-for_some (some a) m k = k a

pub Keeps-when :
    {P : World → Type 0} (b : Bool) (m : Exec (Unit {0})) → Keeps P m → Keeps P (when b m)
Keeps-when true m k = k
Keeps-when false m k = Keeps-pure tt

pub ruleset keeps_rules = (
  Keeps-pure, Keeps-raise, Keeps-gets, Keeps-lift, Keeps-if, Keeps-bind, Keeps-try, Keeps-finally,
  Keeps-for_some,
)
