-- ===== src/CodeReview/Loop.antt =====
-- internal/codereview/workflow.go, `ReviewWorkflow` from its record to its result, and the loop of its passes.
pub mod Records
pub mod Passes
pub mod Untouched
use Prim.Native.Nat.{ℕ, suc, zero, ◌+◌}
use mathlib.Core.Path.{◌≡◌, refl}
use mathlib.Core.Bool.{Bool, true, false, not, ◌&&◌, ◌||◌}
use mathlib.Core.List.{List, [], ◌∷◌, ◌++◌}
use mathlib.Core.Option.{Option, none, some}
use temporal_agents.Prelude.{Text, lit, Result, ok, err, same, if◌then◌else◌, leb, trim_space, itoa}
use temporal_agents.Runs.{
  Stored, no_row, holds, stored_by, Failure, Stop, failed, continue_as_new, Scope, Run, ◌>>=◌, ◌>>◌,
  give, throw, read, assign, ask, attempt, tell,
}
use temporal_agents.Settings.Catalogue.{Resolution}
use temporal_agents.Steering.Decision.{Decision, continue, accept, proceeds}
use temporal_agents.Steering.Rounds.{Round, local_review, pass_limit, session_id_for}
use temporal_agents.CodeReview.Inputs.{
  Place, Instructions, ReviewInput, ReviewOutcome, Ending, converged, operator_accepted,
  operator_stopped, pass_cap, ended_by, Checkpoint, no_checkpoint, AgentResult, max_review_passes,
  with_token_total,
}
use temporal_agents.CodeReview.Commands.{
  ReviewRow, Status, Command, probe_place, persist_review, resolve_instructions, resolve_settings,
  mark_head_and_stash, run_implement_agent, run_review_agent, ensure_head_advanced, restore_stash,
  notify, is_blank, is_type, wrapped, wrap, steered, status_of, failure_of, ensure, notify_complete,
  ask_operator, notify_failure, probed, probe, terminal_write_failed,
}
use temporal_agents.CodeReview.Local.{ReviewAnswers, ReviewVars, started_row}
use temporal_agents.CodeReview.Budget.{review_body}

-- How one pass ends: what it was answered, the commands that it gave, the row that it leaves in the
-- store, and its result.
pub record ReviewPass : Type 0 where
  pub met : ReviewAnswers
  pub log : List Command
  pub row : Stored ReviewRow
  pub result : Result (Stop ReviewInput) ReviewOutcome

abbrev pub summary_of : Result (Stop ReviewInput) ReviewOutcome → Text
summary_of (ok o) = o.summary
summary_of (err e) = []

-- `finishReviewState`.
unfoldable pub settled_row : ReviewRow → Result (Stop ReviewInput) ReviewOutcome → ReviewRow
settled_row row result = record row {
  status = status_of result;
  error = failure_of result;
  waiting_session = none;
}

-- The deferred functions, the last one first.
unfoldable pub settle :
    ReviewAnswers → Scope Command ReviewVars → Result (Stop ReviewInput) ReviewOutcome → ReviewPass
unfolding settled_row terminal_write_failed notify_failure
settle a s result = record {
  met = a;
  log =
      notify_failure (lit "Local review chain failed") s.vars.input.work_dir s.vars.input.summary
        s.vars.agent_ran a.summarized_failure result
        (terminal_write_failed (lit "review pass") (summary_of result)
          (wrap (lit "record the review pass's terminal state") a.settled)
          (persist_review (settled_row s.vars.row result) ∷ s.log));
  row = stored_by a.settled (settled_row s.vars.row result);
  result = result;
}

abbrev pub first_scope : ReviewInput → Place → Scope Command ReviewVars
first_scope input place = record {
  log = persist_review (started_row input place) ∷ probe input.work_dir [];
  vars = record {
    input = input;
    row = started_row input place;
    agent_ran = false;
    total = input.tokens_so_far;
  };
}

unfoldable pub run_started :
    ReviewAnswers → ReviewInput → Place → Result Failure (Unit {0}) → ReviewPass
unfolding settle review_body started_row notify_failure
run_started a input place (err e) = record {
  met = a;
  log =
      notify_failure {I = ReviewInput} {A = ReviewOutcome} (lit "Local review chain failed")
        input.work_dir input.summary false a.summarized_failure
        (err (failed (wrapped (lit "record the review pass as started") e)))
        (first_scope input place).log;
  row = no_row;
  result = err (failed (wrapped (lit "record the review pass as started") e));
}
run_started a input place (ok _) =
    let (s, result) = review_body a (first_scope input place) in settle a s result

-- `ReviewWorkflow`.
unfoldable pub review_workflow : ReviewAnswers → ReviewInput → ReviewPass
unfolding run_started
review_workflow a input = run_started a input (probed input.work_dir a.place) a.recorded

-- The passes of a loop that has ended, and its result.
abbrev pub Passes : Type 0
Passes = List ReviewPass × Result Failure ReviewOutcome

abbrev pub then_passes : ReviewPass → Option Passes → Option Passes
then_passes pass none = none
then_passes pass (some (passes, result)) = some (pass ∷ passes, result)

-- What follows a pass with this result.
abbrev pub after_pass :
    ReviewPass
    → Result (Stop ReviewInput) ReviewOutcome
    → (ReviewInput → Option Passes)
    → Option Passes
after_pass pass (ok o) rest = some (pass ∷ [], ok o)
after_pass pass (err (failed f)) rest = some (pass ∷ [], err f)
after_pass pass (err (continue_as_new next)) rest = then_passes pass (rest next)

-- The passes of a loop, each identified by the resets and the passes before it. `none` is a run of the
-- model that has spent its fuel.
unfoldable pub review_loop : (ℕ → ℕ → ReviewAnswers) → ℕ → ReviewInput → Option Passes
unfolding review_workflow
review_loop answers zero input = none
review_loop answers (suc fuel) input =
    let pass = review_workflow (answers input.resets input.pass) input in
    after_pass pass pass.result (λ next. review_loop answers fuel next)
