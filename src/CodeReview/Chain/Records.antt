-- ===== src/CodeReview/Chain/Records.antt =====
-- What the row of a pass over a pull request says once the pass has ended.
use Prim.Native.Nat.{ℕ, ◌+◌}
use mathlib.Core.Path.{◌≡◌, refl, ap, ◌∙◌, subst}
use mathlib.Core.Logic.{◌⊎◌, inl, inr}
use mathlib.Core.Bool.{true, false}
use mathlib.Core.List.{[], ◌∷◌}
use mathlib.Core.Option.{none, some}
use temporal_agents.Prelude.{Text, Result, ok, err}
use temporal_agents.Runs.{
  Stored, no_row, left_running, holds, stored_by, Failure, Stop, failed, continue_as_new, Scope,
}
use native.Mathlib.Omega.{arith}
use temporal_agents.Runs.Laws.{Outcome}
use temporal_agents.CodeReview.Inputs.{Place, PilotInput, with_token_total}
use temporal_agents.CodeReview.Commands.{
  Command, PilotRow, Status, notify_failure, terminal_write_failed, probe, probed,
}
use temporal_agents.CodeReview.Pilot.{PilotAnswers, PilotVars, started_row}
use temporal_agents.CodeReview.Chain.{
  PilotEnd, settled_row, settle, first_scope, run_started, pilot_workflow,
}
use temporal_agents.CodeReview.Pilot.Endings.{
  pilot_tokens, Stopped, Published, Recorded, Concludes, Continues, pilot_body-Triple,
}

-- Why a pass has an outcome: the operator stopped it, there were no comments, or it addressed them
-- outside a chain.
abbrev pub Concluded : PilotAnswers → PilotInput → Type 0
Concluded a input =
    Stopped a input ⊎ (a.loaded ≡ ok []) ⊎ ((input.chain ≡ false) × Published a input)

-- What a pass has come to, whatever is stored of it, when its sessions have cost so many tokens.
abbrev pub ComesTo :
    PilotAnswers → PilotInput → (tokens : ℕ) → Result (Stop PilotInput) Text → Type 0
ComesTo a input tokens (ok summary) =
    Concluded a input
    × ((text : Text) × (summary ≡ with_token_total text (input.tokens_so_far + tokens)))
ComesTo a input tokens (err (failed e)) = Unit {0}
ComesTo a input tokens (err (continue_as_new next)) =
    (input.chain ≡ true) × Published a input × (next.tokens_so_far ≡ input.tokens_so_far + tokens)

-- What the row of the terminal write says of the result. That of a pass that failed names no tokens.
abbrev pub Says :
    PilotAnswers → PilotInput → (tokens : ℕ) → PilotRow → Result (Stop PilotInput) Text → Type 0
Says a input tokens row (ok summary) =
    (row.status ≡ Status.succeeded) × Recorded a input row × (row.tokens ≡ tokens)
Says a input tokens row (err (failed e)) = (row.status ≡ Status.failed) × (row.error ≡ some e)
Says a input tokens row (err (continue_as_new next)) =
    (row.status ≡ Status.succeeded) × (row.addressed ≡ some true) × (row.tokens ≡ tokens)

-- What the store holds once a pass has ended.
abbrev pub Holds :
    PilotAnswers
    → PilotInput
    → (tokens : ℕ) → Stored PilotRow
    → Result (Stop PilotInput) Text
    → Type 0
Holds a input tokens no_row r =
    ((e : Failure) × (a.recorded ≡ err e)) × ((e : Failure) × (r ≡ err (failed e)))
Holds a input tokens left_running r = (e : Failure) × (a.settled ≡ err e)
Holds a input tokens (holds row) r = (row.waiting_session ≡ none) × Says a input tokens row r

-- Both of a pass, with the tokens of the sessions in its log.
abbrev pub EndsWith : PilotAnswers → PilotInput → PilotEnd → Type 0
EndsWith a input pass =
    ComesTo a input (pilot_tokens a pass.log) pass.result
    × Holds a input (pilot_tokens a pass.log) pass.row pass.result

-- What follows the body of a pass starts no session.
settled-pilot_tokens :
    (a : PilotAnswers) (s : Scope Command PilotVars) (r : Result (Stop PilotInput) Text)
    → pilot_tokens a s.log ≡ pilot_tokens a (settle a s r).log
unfolding settle notify_failure terminal_write_failed
settled-pilot_tokens a s r = ground arith

Recorded-Concluded :
    (a : PilotAnswers) (input : PilotInput) (row : PilotRow)
    → Recorded a input row
    → Concluded a input
Recorded-Concluded a input row (inl h) = inl h.2
Recorded-Concluded a input row (inr (inl h)) = inr (inl h.2)
Recorded-Concluded a input row (inr (inr h)) = inr (inr (h.2, h.3))

ends-ComesTo :
    (a : PilotAnswers) (input : PilotInput) (s : Scope Command PilotVars)
    (r : Result (Stop PilotInput) Text)
    → Outcome (Concludes a input) (Continues a input) s r
    → ComesTo a input (pilot_tokens a s.log) r
ends-ComesTo a input s (ok summary) h = (
  Recorded-Concluded a input s.vars.row h.0,
  (h.1.0, h.1.1 ∙ ap (with_token_total _) (ap (λ n. input.tokens_so_far + n) h.2)),
)
ends-ComesTo a input s (err (failed e)) h = tt
ends-ComesTo a input s (err (continue_as_new next)) h =
    (h.0.1, h.0.2, h.0.3 ∙ ap (λ n. input.tokens_so_far + n) h.1)

ends-Says :
    (a : PilotAnswers) (input : PilotInput) (s : Scope Command PilotVars)
    (r : Result (Stop PilotInput) Text)
    → Outcome (Concludes a input) (Continues a input) s r
    → Says a input (pilot_tokens a s.log) (settled_row s.vars.row r) r
unfolding settled_row
ends-Says a input s (ok summary) h = (refl, h.0, h.2)
ends-Says a input s (err (failed e)) h = (refl, refl)
ends-Says a input s (err (continue_as_new next)) h = (refl, h.0.0, h.1)

stored-Holds :
    (a : PilotAnswers) (input : PilotInput) (tokens : ℕ) (w : Result Failure (Unit {0}))
    (row : PilotRow) (r : Result (Stop PilotInput) Text)
    → a.settled ≡ w
    → row.waiting_session ≡ none
    → Says a input tokens row r
    → Holds a input tokens (stored_by w row) r
stored-Holds a input tokens (ok _) row r e waits says = (waits, says)
stored-Holds a input tokens (err f) row r e waits says = (f, e)

settle-EndsWith :
    (a : PilotAnswers) (input : PilotInput) (s : Scope Command PilotVars)
    (r : Result (Stop PilotInput) Text)
    → Outcome (Concludes a input) (Continues a input) s r
    → EndsWith a input (settle a s r)
unfolding settle settled_row
settle-EndsWith a input s r h = (
  subst (λ n. ComesTo a input n r) (settled-pilot_tokens a s r) (ends-ComesTo a input s r h),
  stored-Holds a input (pilot_tokens a (settle a s r).log) a.settled (settled_row s.vars.row r) r
      refl refl
      (subst (λ n. Says a input n (settled_row s.vars.row r) r) (settled-pilot_tokens a s r)
        (ends-Says a input s r h)),
)

probed-pilot_tokens : (a : PilotAnswers) (dir : Text) → pilot_tokens a (probe dir []) ≡ 0
probed-pilot_tokens a [] = refl
probed-pilot_tokens a (c ∷ dir) = refl

run_started-EndsWith :
    (a : PilotAnswers) (input : PilotInput) (place : Place) (r : Result Failure (Unit {0}))
    → a.recorded ≡ r
    → EndsWith a input (run_started a input place r)
unfolding run_started started_row
run_started-EndsWith a input place (err e) same_answer = (tt, ((e, same_answer), (_, refl)))
run_started-EndsWith a input place (ok _) same_answer = settle-EndsWith a input _ _ (
    (pilot_body-Triple a input).ends (first_scope input place) (record {
      same_tokens = refl;
      same_chain = refl;
      no_ending = refl;
      spent = omega (arith, probed-pilot_tokens a input.work_dir);
    }))

-- Whatever the activities and the operator answer, a pass of `PilotWorkflow` with an outcome was stopped by the operator, found no comments, or addressed them outside a chain, and its summary adds the tokens of the agent sessions that it started to those before; a pass that continues is one of a chain that addressed the comments, with the same total carried on. Comments count as addressed only with the agent's commits made and pushed, the threads answered and a review of them requested. The store has no row of the pass only if the first write failed, and then the pass fails. It is left with a row that says running only if the terminal write failed. Otherwise the row waits for nobody and says failed with the error, or succeeded with what was done and with exactly the tokens of those sessions.
pub pilot_workflow-EndsWith :
    (a : PilotAnswers) (input : PilotInput) → EndsWith a input (pilot_workflow a input)
unfolding pilot_workflow
pilot_workflow-EndsWith a input =
    run_started-EndsWith a input (probed input.work_dir a.place) a.recorded refl
