-- ===== src/CodeReview/Loop/Records.antt =====
-- What the record of a pass of the local review loop says once the pass has ended.
use Prim.Native.Nat.{ℕ, ◌+◌}
use mathlib.Core.Path.{◌≡◌, refl, ap, ◌∙◌, subst}
use mathlib.Core.Logic.{inl}
use mathlib.Core.List.{[], ◌∷◌}
use mathlib.Core.Option.{none, some}
use native.Mathlib.Omega.{arith}
use temporal_agents.Prelude.{Text, Result, ok, err}
use temporal_agents.Runs.{
  Stored, no_row, left_running, holds, stored_by, Failure, Stop, failed, continue_as_new, Scope,
}
use temporal_agents.Runs.Laws.{Outcome}
use temporal_agents.CodeReview.Inputs.{
  Place, ReviewInput, ReviewOutcome, is_converged, with_token_total,
}
use temporal_agents.CodeReview.Commands.{
  Command, ReviewRow, Status, probe, notify_failure, terminal_write_failed, probed,
}
use temporal_agents.CodeReview.Local.{ReviewAnswers, ReviewVars, started_row}
use temporal_agents.CodeReview.Loop.{
  ReviewPass, first_scope, settle, settled_row, run_started, review_workflow,
}
use temporal_agents.CodeReview.Local.Endings.{session_tokens, Reason, IsNext, Ends, Fails}
use temporal_agents.CodeReview.Budget.Endings.{review_body-Triple}

-- What the row of the terminal write says of the result.
abbrev pub Says : ReviewRow → Result (Stop ReviewInput) ReviewOutcome → Type 0
Says row (ok o) =
    (row.status ≡ Status.succeeded)
    × (row.ending ≡ some o.ending)
    × (row.converged ≡ some o.converged)
Says row (err (failed e)) = (row.status ≡ Status.failed) × (row.error ≡ some e)
Says row (err (continue_as_new next)) = row.status ≡ Status.succeeded

-- What the store holds once a pass with these sessions' tokens has ended. There is no row, or one that
-- still says that it is running, only if the write of it failed.
abbrev pub Holds :
    ReviewAnswers
    → (tokens : ℕ) → Stored ReviewRow
    → Result (Stop ReviewInput) ReviewOutcome
    → Type 0
Holds a tokens no_row r =
    ((e : Failure) × (a.recorded ≡ err e)) × ((e : Failure) × (r ≡ err (failed e)))
Holds a tokens left_running r = (e : Failure) × (a.settled ≡ err e)
Holds a tokens (holds row) r = (row.waiting_session ≡ none) × (row.tokens ≡ tokens) × Says row r

-- What a pass has come to, whatever is stored of it.
abbrev pub ComesTo :
    ReviewAnswers → ReviewInput → (tokens : ℕ) → Result (Stop ReviewInput) ReviewOutcome → Type 0
ComesTo a input tokens (ok o) =
    (o.converged ≡ is_converged o.ending)
    × Reason a input o.ending
    × ((text : Text) × (o.summary ≡ with_token_total text (input.tokens_so_far + tokens)))
ComesTo a input tokens (err (failed e)) = Unit {0}
ComesTo a input tokens (err (continue_as_new next)) =
    IsNext a input next (input.tokens_so_far + tokens)

-- The same of a pass, with the tokens of the sessions in its log.
abbrev pub EndsWith : ReviewAnswers → ReviewInput → ReviewPass → Type 0
EndsWith a input pass =
    ComesTo a input (session_tokens a pass.log) pass.result
    × Holds a (session_tokens a pass.log) pass.row pass.result

-- What follows the body of a pass starts no session.
settled-session_tokens :
    (a : ReviewAnswers) (s : Scope Command ReviewVars) (r : Result (Stop ReviewInput) ReviewOutcome)
    → session_tokens a s.log ≡ session_tokens a (settle a s r).log
unfolding settle notify_failure terminal_write_failed
settled-session_tokens a s r = ground arith

Ends-ComesTo :
    (a : ReviewAnswers) (input : ReviewInput) (s : Scope Command ReviewVars)
    (r : Result (Stop ReviewInput) ReviewOutcome)
    → Outcome (Ends a input) (Fails a input) s r
    → ComesTo a input (session_tokens a s.log) r
Ends-ComesTo a input s (ok o) h = (
  h.is_its_ending,
  h.reason,
  (
    h.summary_total.0,
    h.summary_total.1
        ∙ ap (with_token_total _)
            (h.kept.balance ∙ ap (λ n. input.tokens_so_far + n) h.kept.counted),
  ),
)
Ends-ComesTo a input s (err (failed e)) h = tt
Ends-ComesTo a input s (err (continue_as_new next)) h =
    (h.1.0 ∙ h.0.balance ∙ ap (λ n. input.tokens_so_far + n) h.0.counted, h.1.1)

Ends-counted :
    (a : ReviewAnswers) (input : ReviewInput) (s : Scope Command ReviewVars)
    (r : Result (Stop ReviewInput) ReviewOutcome)
    → Outcome (Ends a input) (Fails a input) s r
    → s.vars.row.tokens ≡ session_tokens a s.log
Ends-counted a input s (ok o) h = h.kept.counted
Ends-counted a input s (err (failed e)) h = h.counted
Ends-counted a input s (err (continue_as_new next)) h = h.0.counted

Ends-Says :
    (a : ReviewAnswers) (input : ReviewInput) (s : Scope Command ReviewVars)
    (r : Result (Stop ReviewInput) ReviewOutcome)
    → Outcome (Ends a input) (Fails a input) s r
    → Says (settled_row s.vars.row r) r
unfolding settled_row
Ends-Says a input s (ok o) h = (refl, h.row_ending, h.row_converged)
Ends-Says a input s (err (failed e)) h = (refl, refl)
Ends-Says a input s (err (continue_as_new next)) h = refl

stored-Holds :
    (a : ReviewAnswers) (tokens : ℕ) (w : Result Failure (Unit {0})) (row : ReviewRow)
    (r : Result (Stop ReviewInput) ReviewOutcome)
    → a.settled ≡ w
    → row.waiting_session ≡ none
    → row.tokens ≡ tokens
    → Says row r
    → Holds a tokens (stored_by w row) r
stored-Holds a tokens (ok _) row r e waits counted says = (waits, counted, says)
stored-Holds a tokens (err f) row r e waits counted says = (f, e)

settle-EndsWith :
    (a : ReviewAnswers) (input : ReviewInput) (s : Scope Command ReviewVars)
    (r : Result (Stop ReviewInput) ReviewOutcome)
    → Outcome (Ends a input) (Fails a input) s r
    → EndsWith a input (settle a s r)
unfolding settle settled_row
settle-EndsWith a input s r h = (
  subst (λ n. ComesTo a input n r) (settled-session_tokens a s r) (Ends-ComesTo a input s r h),
  stored-Holds a (session_tokens a (settle a s r).log) a.settled (settled_row s.vars.row r) r refl
      refl (Ends-counted a input s r h ∙ settled-session_tokens a s r) (Ends-Says a input s r h),
)

probed-session_tokens : (a : ReviewAnswers) (dir : Text) → 0 ≡ session_tokens a (probe dir [])
probed-session_tokens a [] = refl
probed-session_tokens a (c ∷ dir) = refl

run_started-EndsWith :
    (a : ReviewAnswers) (input : ReviewInput) (place : Place) (r : Result Failure (Unit {0}))
    → a.recorded ≡ r
    → EndsWith a input (run_started a input place r)
unfolding run_started started_row
run_started-EndsWith a input place (err e) same_answer = (tt, ((e, same_answer), (_, refl)))
run_started-EndsWith a input place (ok _) same_answer = settle-EndsWith a input _ _ (
    (review_body-Triple a input).ends (first_scope input place) (record {
      balance = omega arith;
      same_pass = refl;
      same_resets = refl;
      ran_under = inl refl;
      counted = probed-session_tokens a input.work_dir ∙ omega arith;
    }))

run_started-met :
    (a : ReviewAnswers) (input : ReviewInput) (place : Place) (r : Result Failure (Unit {0}))
    → a ≡ (run_started a input place r).met
unfolding run_started settle
run_started-met a input place (ok _) = refl
run_started-met a input place (err e) = refl

-- A pass keeps what it was answered.
pub review_workflow-met :
    (a : ReviewAnswers) (input : ReviewInput) → a ≡ (review_workflow a input).met
unfolding review_workflow
review_workflow-met a input = run_started-met a input (probed input.work_dir a.place) a.recorded

-- Whatever the activities and the operator answer, a pass of `ReviewWorkflow` that ends the loop ends it for the reason that its ending stands for, with a summary that adds the tokens of every agent session that the pass started to those before; and one that continues hands on the same total, with one more pass of the budget or with the new budget that the operator granted. The store has no row of the pass only if the first write failed, and then the pass fails. It is left with a row that says running only if the terminal write failed. Otherwise the row waits for nobody, names exactly the tokens of the sessions that the pass started, and says failed with the error, or succeeded with the outcome's ending, or succeeded where the loop continues.
pub review_workflow-EndsWith :
    (a : ReviewAnswers) (input : ReviewInput) → EndsWith a input (review_workflow a input)
unfolding review_workflow
review_workflow-EndsWith a input =
    run_started-EndsWith a input (probed input.work_dir a.place) a.recorded refl
