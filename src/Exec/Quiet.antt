-- ===== src/Exec/Quiet.antt =====
-- Predicates of the context and of the journal that no durable read or write can end: the stores
-- keep them all.
use dploy_db.Base.{List, ◌∷◌, Dict}
use dploy_db.Raised.{Outcome}
use dploy_db.World.{World, Context, Call, silent, DiskOutcome, OperationFile}
use dploy_db.Exec.{ask, save}
use dploy_db.Exec.Keeps.{Keeps, Triple-ask, Triple-save}

-- A predicate of a world that looks at its context and its journal.
abbrev pub On : (Context → List Call → Type 0) → World → Type 0
On F w = F w.context w.journal

pub record Quiet (F : Context → List Call → Type 0) : Type 0 where
  pub at_silent : (c : Context) (j : List Call) → F c j → F c (silent ∷ j)

module _ (F : Context → List Call → Type 0) (q : Quiet F) where
  pub Keeps-silent :
      {A : Type 0} (answer : List Call → Outcome A) → Keeps (On F) (ask answer (λ _. silent))
  Keeps-silent answer =
      Triple-ask answer (λ _. silent) (λ w a h e. q.at_silent w.context w.journal h)
        (λ w e h. q.at_silent w.context w.journal h)

  -- A write of files leaves the context and the journal alone.
  pub Keeps-save :
      (disk : List Call → DiskOutcome) (change : World → World)
      → ((w : World) → On F w → On F (change w))
      → Keeps (On F) (save disk change)
  Keeps-save disk change same =
      Triple-save disk change (λ w h. same _ (q.at_silent w.context w.journal h))
        (λ w h. same _ (q.at_silent w.context w.journal h))
        (λ w h. q.at_silent w.context w.journal h)

-- Predicates of a world that no reading can end.
pub record Silent (P : World → Type 0) : Type 0 where
  pub at_silent : (w : World) → P w → P (record w { journal = silent ∷ w.journal })

pub Quiet-Silent : (F : Context → List Call → Type 0) → Quiet F → Silent (On F)
Quiet-Silent F q = record { at_silent = λ w h. q.at_silent w.context w.journal h }

-- Predicates of a world that neither the durable calls nor the files of operations can end.
pub record Unaware (P : World → Type 0) : Type 0 where
  pub at_silent : (w : World) → P w → P (record w { journal = silent ∷ w.journal })
  pub at_operations : (w : World) (o : Dict OperationFile) → P w → P (record w { operations = o })

pub Quiet-Unaware : (F : Context → List Call → Type 0) → Quiet F → Unaware (On F)
Quiet-Unaware F q = record {
  at_silent = λ w h. q.at_silent w.context w.journal h;
  at_operations = λ w o h. h;
}

pub Unaware-Silent : (P : World → Type 0) → Unaware P → Silent P
Unaware-Silent P q = record { at_silent = q.at_silent }

module _ (P : World → Type 0) (q : Silent P) where
  pub Keeps-silent_call :
      {A : Type 0} (answer : List Call → Outcome A) → Keeps P (ask answer (λ _. silent))
  Keeps-silent_call answer =
      Triple-ask answer (λ _. silent) (λ w a h e. q.at_silent w h) (λ w e h. q.at_silent w h)

module _ (P : World → Type 0) (q : Unaware P) where
  -- A write of an operation's files.
  pub Keeps-save_operations :
      (disk : List Call → DiskOutcome) (files : World → Dict OperationFile)
      → Keeps P (save disk (λ w. record w { operations = files w }))
  Keeps-save_operations disk files =
      Triple-save disk (λ w. record w { operations = files w })
        (λ w h. q.at_operations _ _ (q.at_silent w h))
        (λ w h. q.at_operations _ _ (q.at_silent w h)) (λ w h. q.at_silent w h)
