-- ===== src/Exec/Returns.antt =====
-- What is known of a program where it returns, when nothing is asked of the world before it and
-- nothing is said where it raises.
use dploy_db.Base.{◌≡◌, refl, Bool, true, false}
use dploy_db.Raised.{Raised, Outcome, returned, raised}
use dploy_db.World.{World}
use dploy_db.Exec.{Exec, raise_if, ◌>>=◌}
use dploy_db.Exec.Keeps.{Post, Triple, Triple-pure, Triple-raise}

-- Nothing is known.
abbrev pub Anything : World → Type 0
Anything _ = Unit

any_post : {A : Type 0} (x : Outcome A × World) → Post (λ _. Anything) Anything x
any_post (returned a, w) = tt
any_post (raised e, w) = tt

pub any : {A : Type 0} (m : Exec A) → Triple Anything m (λ _. Anything) Anything
any m = record { at = λ w _. any_post (m w) }

-- What is known of every return is known of the program.
pub known :
    {A : Type 0} (Q : A → Type 0) (x : Outcome A × World)
    → ((a : A) (w : World) → x ≡ (returned a, w) → Q a)
    → Post (λ a _. Q a) Anything x
known Q (returned a, w) k = k a w refl
known Q (raised e, w) k = tt

-- A guard that did not raise.
pub guard :
    {P : World → Type 0} (b : Bool) (x : Raised)
    → Triple P (raise_if b x) (λ _ w. P w × (b ≡ false)) Anything
guard true x = Triple-raise x (λ w h. tt)
guard false x = Triple-pure tt (λ w h. (h, refl))

-- The same, where what held before still holds where it raised.
pub test :
    {P : World → Type 0} (b : Bool) (x : Raised)
    → Triple P (raise_if b x) (λ _ w. P w × (b ≡ false)) P
test true x = Triple-raise x (λ w h. h)
test false x = Triple-pure tt (λ w h. (h, refl))

-- A fact that does not depend on the world comes in front.
pub given :
    {A : Type 0} {P R : World → Type 0} {Q : A → World → Type 0} {m : Exec A} {H : Type 0}
    → (H → Triple P m Q R)
    → Triple (λ w. P w × H) m Q R
given k = record { at = λ w h. (k h.1).at w h.0 }

-- The same with nothing known of the world.
pub given_only :
    {A : Type 0} {Q : A → World → Type 0} {m : Exec A} {H : Type 0}
    → (H → Triple Anything m Q Anything)
    → Triple (λ _. H) m Q Anything
given_only k = record { at = λ w h. (k h).at w tt }

-- A program that begins with a refusal refuses, and does nothing else.
pub refused :
    {A : Type 0} (b : Bool) (x : Raised) (f : Unit {0} → Exec A) (w : World)
    → b ≡ true
    → (raise_if b x >>= f) w ≡ (raised x, w)
unfolding ◌>>=◌
refused b x f w h = rw h
