-- ===== src/CodeReview/Chain.antt =====
-- internal/codereview/workflow.go, `PilotWorkflow` from its record to its result.
pub mod Records
use Prim.Native.Nat.{ℕ, suc, zero, ◌+◌}
use mathlib.Core.Path.{◌≡◌, refl}
use mathlib.Core.Bool.{Bool, true, false, not, ◌&&◌, ◌||◌}
use mathlib.Core.List.{List, [], ◌∷◌, ◌++◌}
use mathlib.Core.Option.{Option, none, some}
use temporal_agents.Prelude.{
  Text, lit, Result, ok, err, if◌then◌else◌, ltb, length, trim_space, itoa,
}
use temporal_agents.Runs.{
  Stored, no_row, holds, stored_by, Failure, Stop, failed, continue_as_new, Scope, Run, ◌>>=◌, ◌>>◌,
  give, throw, read, assign, ask, attempt, tell,
}
use temporal_agents.Settings.Catalogue.{Resolution}
use temporal_agents.Steering.Decision.{Decision, proceeds}
use temporal_agents.Steering.Rounds.{remote_comments, session_id_for}
use temporal_agents.CodeReview.Inputs.{
  Place, Instructions, PilotInput, Ending, operator_stopped, Checkpoint, AgentResult, PullRequest,
  ReviewThread, with_token_total,
}
use temporal_agents.CodeReview.Commands.{
  PilotRow, Status, Command, persist_pilot, resolve_instructions, resolve_settings,
  mark_head_and_stash, ensure_head_advanced, restore_stash, notify, determine_pr,
  check_ongoing_review, load_unresolved_comments, sleep_interval, run_agent, push_branch,
  reply_and_resolve, request_copilot_review, is_blank, is_nil, wrapped, wrap, steered, status_of,
  failure_of, ensure, summarize_for_webhook, notify_complete, ask_operator, notify_failure, probed,
  probe, terminal_write_failed,
}
use temporal_agents.CodeReview.Pilot.{PilotAnswers, PilotVars, started_row, pilot_body}

-- How one pass ends.
pub record PilotEnd : Type 0 where
  pub log : List Command
  pub row : Stored PilotRow
  pub result : Result (Stop PilotInput) Text

abbrev pub summary_of : Result (Stop PilotInput) Text → Text
summary_of (ok summary) = summary
summary_of (err e) = []

-- `finishPilotState`.
unfoldable pub settled_row : PilotRow → Result (Stop PilotInput) Text → PilotRow
settled_row row result = record row {
  status = status_of result;
  error = failure_of result;
  waiting_session = none;
}

-- The deferred functions.
unfoldable pub settle :
    PilotAnswers → Scope Command PilotVars → Result (Stop PilotInput) Text → PilotEnd
unfolding settled_row terminal_write_failed notify_failure
settle a s result = record {
  log =
      notify_failure (lit "Copilot review chain failed") s.vars.input.work_dir s.vars.input.summary
        s.vars.agent_ran a.summarized_failure result
        (terminal_write_failed (lit "pilot pass") (summary_of result)
          (wrap (lit "record the pilot pass's terminal state") a.settled)
          (persist_pilot (settled_row s.vars.row result) ∷ s.log));
  row = stored_by a.settled (settled_row s.vars.row result);
  result = result;
}

abbrev pub first_scope : PilotInput → Place → Scope Command PilotVars
first_scope input place = record {
  log = persist_pilot (started_row input place) ∷ probe input.work_dir [];
  vars = record { input = input; row = started_row input place; agent_ran = false };
}

unfoldable pub run_started :
    PilotAnswers → PilotInput → Place → Result Failure (Unit {0}) → PilotEnd
unfolding settle pilot_body started_row notify_failure
run_started a input place (err e) = record {
  log =
      notify_failure {I = PilotInput} {A = Text} (lit "Copilot review chain failed") input.work_dir
        input.summary false a.summarized_failure
        (err (failed (wrapped (lit "record the pilot pass as started") e)))
        (first_scope input place).log;
  row = no_row;
  result = err (failed (wrapped (lit "record the pilot pass as started") e));
}
run_started a input place (ok _) =
    let (s, result) = pilot_body a (first_scope input place) in settle a s result

-- `PilotWorkflow`.
unfoldable pub pilot_workflow : PilotAnswers → PilotInput → PilotEnd
unfolding run_started
pilot_workflow a input = run_started a input (probed input.work_dir a.place) a.recorded
