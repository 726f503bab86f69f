-- ===== src/CodeReview/Branch.antt =====
-- internal/codereview/workflow.go, `DevelopWorkflow` from its record to its result.
pub mod Reviewed
use Prim.Native.Nat.{ℕ, suc, zero, ◌+◌}
use mathlib.Core.Path.{◌≡◌, refl}
use mathlib.Core.Bool.{Bool, true, false, not, ◌&&◌, ◌||◌}
use mathlib.Core.List.{List, [], ◌∷◌, ◌++◌}
use mathlib.Core.Option.{Option, none, some}
use temporal_agents.Prelude.{Text, lit, Result, ok, err, if◌then◌else◌, length, itoa}
use temporal_agents.Runs.{
  Stored, no_row, stored_by, Failure, Stop, failed, continue_as_new, Scope, Run, ◌>>=◌, ◌>>◌, give,
  throw, read, assign, ask, attempt, tell,
}
use temporal_agents.Settings.Catalogue.{Resolution}
use temporal_agents.CodeReview.Inputs.{
  Place, ReviewInput, ReviewOutcome, PilotInput, DevelopInput, AgentResult, PullRequest,
  with_token_total, with_develop_step_tokens,
}
use temporal_agents.CodeReview.Commands.{
  DevelopRow, Status, Notification, Command, persist_develop, create_branch, merge_dependency,
  resolve_merge_conflict, abort_merge, run_develop_agent, ensure_developed, start_review,
  await_review, await_open_pr, await_pilot, open_pr, request_copilot_review, notify, is_blank,
  is_nil, is_type, wrapped, wrap, status_of, failure_of, summarize_for_webhook, notify_failure,
  probed, probe, terminal_write_failed,
}
use temporal_agents.CodeReview.Develop.{DevelopAnswers, DevelopVars}
use temporal_agents.CodeReview.Development.{develop_body}

-- The row that `startDevelopState` writes.
unfoldable pub started_row : DevelopInput → DevelopRow
started_row input = record {
  prompt = input.prompt;
  branch = input.branch;
  pr_url = [];
  status = Status.running;
  tokens = 0;
  place = record { directory = []; repository = [] };
  error = none;
}

-- How a develop run ends.
pub record DevelopEnd : Type 0 where
  pub log : List Command
  pub row : Stored DevelopRow
  pub result : Result (Stop ⊥) Text

abbrev pub result_of : Result (Stop ⊥) Text → Text
result_of (ok result) = result
result_of (err e) = []

-- `finishDevelopState`.
unfoldable pub settled_row : DevelopRow → Result (Stop ⊥) Text → DevelopRow
settled_row row result = record row { status = status_of result; error = failure_of result }

-- The failure's notice, unless another one stands for it.
unfoldable pub notify_unless :
    (is_notified : Bool)
    → DevelopVars
    → (summarized : Result Failure Text) → Result (Stop ⊥) Text
    → List Command
    → List Command
unfolding notify_failure
notify_unless true v summarized result log = log
notify_unless false v summarized result log =
    notify_failure (lit "Development failed") v.input.work_dir v.input.summary v.agent_ran
      summarized result log

-- The deferred functions.
unfoldable pub settle :
    DevelopAnswers → Scope Command DevelopVars → Result (Stop ⊥) Text → DevelopEnd
unfolding settled_row terminal_write_failed notify_unless
settle a s result = record {
  log = notify_unless s.vars.failure_notified s.vars a.summarized_failure result (
      terminal_write_failed (lit "develop run") (result_of result)
        (wrap (lit "record the develop run's terminal state") a.settled)
        (persist_develop (settled_row s.vars.row result) ∷ s.log));
  row = stored_by a.settled (settled_row s.vars.row result);
  result = result;
}

abbrev pub first_vars : DevelopInput → DevelopVars
first_vars input = record {
  input = input;
  row = started_row input;
  agent_ran = false;
  failure_notified = false;
}

unfoldable pub run_started : DevelopAnswers → DevelopInput → Result Failure (Unit {0}) → DevelopEnd
unfolding settle develop_body started_row notify_unless
run_started a input (err e) =
    let result = err (failed (wrapped (lit "record the develop run as started") e)) in
    record {
      log =
          notify_unless false (first_vars input) a.summarized_failure result
            (persist_develop (started_row input) ∷ []);
      row = no_row;
      result = result;
    }
run_started a input (ok _) =
    let (s, result) =
      develop_body a
        (record { log = persist_develop (started_row input) ∷ []; vars = first_vars input }) in
    settle a s result

-- `DevelopWorkflow`.
unfoldable pub develop_workflow : DevelopAnswers → DevelopInput → DevelopEnd
unfolding run_started
develop_workflow a input = run_started a input a.recorded
