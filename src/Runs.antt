-- ===== src/Runs.antt =====
-- How a workflow runs: Go code over the Temporal SDK that schedules commands and reads their answers.
-- The variables that a deferred function reads outlive an error, so they stand in the state.
pub mod Laws
use mathlib.Core.Path.{◌≡◌, refl}
use mathlib.Core.List.{List, [], ◌∷◌}
use mathlib.Core.Bool.{Bool, true, false}
use mathlib.Core.Option.{Option, none, some}
use temporal_agents.Prelude.{Text, Result, ok, err}

-- An error: the type of the application error in it, if there is one, and whether it is a cancellation.
pub record Failure : Type 0 where
  pub type : Option Text
  pub message : Text
  pub is_canceled : Bool

-- The error that a workflow returns; the second is the signal of `NewContinueAsNewError`.
pub data Stop (I : Type 0) : Type 0 where
  failed : Failure → Stop I
  continue_as_new : I → Stop I

-- The commands that have been given, the latest first, and the variables of the workflow.
pub record Scope (C V : Type 0) : Type 0 where
  pub log : List C
  pub vars : V

abbrev pub Run : Type 0 → Type 0 → Type 0 → Type 0 → Type 0
Run C V I A = Scope C V → Scope C V × Result (Stop I) A

-- What the store holds of a run that has ended: no row; a row that still says that it is running, since
-- the terminal write failed; or the row of the terminal write.
pub data Stored (R : Type 0) : Type 0 where
  no_row left_running : Stored R
  holds : R → Stored R

abbrev pub stored_by {ℓ} : {R : Type 0} {E : Type ℓ} → Result E (Unit {0}) → R → Stored R
stored_by (ok _) row = holds row
stored_by (err e) row = left_running

abbrev pub answer_of : {A I : Type 0} → Result Failure A → Result (Stop I) A
answer_of (ok a) = ok a
answer_of (err e) = err (failed e)

module _ {C V I : Type 0} where
  infixl 5 ◌>>=◌ ◌>>◌
  abbrev pub ◌>>=◌ : {A B : Type 0} → Run C V I A → (A → Run C V I B) → Run C V I B
  ◌>>=◌ m next s = let (s', r) = m s in elim r [ ok a ↦ next a s' | err e ↦ (s', err e) ]

  abbrev pub ◌>>◌ : {A B : Type 0} → Run C V I A → Run C V I B → Run C V I B
  m >> rest = m >>= λ _. rest

  abbrev pub give : {A : Type 0} → A → Run C V I A
  give a s = (s, ok a)

  abbrev pub throw : {A : Type 0} → Stop I → Run C V I A
  throw e s = (s, err e)

  -- A read, and an assignment, of the variables.
  abbrev pub read : Run C V I V
  read s = (s, ok s.vars)

  abbrev pub assign : (V → V) → Run C V I (Unit {0})
  assign f s = (record s { vars = f s.vars }, ok tt)

  -- `ExecuteActivity(…).Get(…)`, where an error is returned at once.
  abbrev pub ask : {A : Type 0} → C → Result Failure A → Run C V I A
  ask command answer s = (record s { log = command ∷ s.log }, answer_of answer)

  -- The same where the error is only logged.
  abbrev pub attempt : {A : Type 0} → C → Result Failure A → Run C V I (Result Failure A)
  attempt command answer s = (record s { log = command ∷ s.log }, ok answer)

  -- A command whose answer is not used.
  abbrev pub tell : C → Run C V I (Unit {0})
  tell command s = (record s { log = command ∷ s.log }, ok tt)
