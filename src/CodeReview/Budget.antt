-- ===== src/CodeReview/Budget.antt =====
-- internal/codereview/workflow.go, `ReviewWorkflow`: the review of the branch, and what follows it within the budget of passes.
pub mod Endings
use Prim.Native.Nat.{ℕ, suc, zero, ◌+◌}
use mathlib.Core.Path.{◌≡◌, refl}
use mathlib.Core.Bool.{Bool, true, false, not, ◌&&◌, ◌||◌}
use mathlib.Core.List.{List, [], ◌∷◌, ◌++◌}
use mathlib.Core.Option.{Option, none, some}
use temporal_agents.Prelude.{Text, lit, Result, ok, err, same, if◌then◌else◌, leb, trim_space, itoa}
use temporal_agents.Runs.{
  Failure, Stop, failed, continue_as_new, Scope, Run, ◌>>=◌, ◌>>◌, give, throw, read, assign, ask,
  attempt, tell,
}
use temporal_agents.Settings.Catalogue.{Resolution}
use temporal_agents.Steering.Decision.{Decision, continue, accept, proceeds}
use temporal_agents.Steering.Rounds.{Round, local_review, pass_limit, session_id_for}
use temporal_agents.CodeReview.Inputs.{
  Place, Instructions, ReviewInput, ReviewOutcome, Ending, converged, operator_accepted,
  operator_stopped, pass_cap, ended_by, Checkpoint, no_checkpoint, AgentResult, max_review_passes,
  with_token_total,
}
use temporal_agents.CodeReview.Commands.{
  ReviewRow, Status, Command, probe_place, persist_review, resolve_instructions, resolve_settings,
  mark_head_and_stash, run_implement_agent, run_review_agent, ensure_head_advanced, restore_stash,
  notify, is_blank, is_type, wrapped, wrap, steered, status_of, failure_of, ensure, notify_complete,
  ask_operator, notify_failure, probed, probe, terminal_write_failed,
}
use temporal_agents.CodeReview.Local.{
  ReviewAnswers, ReviewVars, ReviewRun, Implemented, ended, went_on, agent_cost, set_ending, pause,
  end_with, resolve_inputs, implement_payload,
}

module _ (a : ReviewAnswers) where
  unfoldable pub restore : Checkpoint → ReviewRun (Unit {0})
  restore cp =
      if cp.stashed
      then (do v ← read; attempt (restore_stash v.input.work_dir) a.restored; give tt)
      else give tt

  unfoldable pub review_branch : Checkpoint → ReviewRun Text
  unfolding restore
  review_branch cp = do
    v ← read
    reviewed ← ask (run_review_agent v.input.work_dir) a.reviewed
    assign (agent_cost reviewed.tokens)
    restore cp
    give reviewed.output

  unfoldable pub limit_material : ReviewVars → Text → Text
  limit_material v output =
      lit "The autonomous review budget is exhausted after "
      ++ (itoa max_review_passes
          ++ (lit " passes and "
              ++ (itoa v.input.resets
                  ++ (lit " reset(s). Accumulated token cost: "
                      ++ (itoa v.total ++ (lit ".\n\n" ++ output))))))

  -- The input of the pass after a reset.
  abbrev pub renewed : ReviewVars → Text → ReviewInput
  renewed v output = record v.input {
    payload = output;
    pass = 0;
    resets = suc v.input.resets;
    tokens_so_far = v.total;
  }

  -- What the operator chose at the limit: to continue, to accept, or anything else.
  unfoldable pub at_limit : (continues accepts : Bool) → Text → ReviewRun ReviewOutcome
  unfolding end_with
  at_limit true accepts output = do v ← read; throw (continue_as_new (renewed v output))
  at_limit false true output = do
    assign (set_ending operator_accepted false)
    v ← read
    end_with a operator_accepted (lit "Local review accepted") (
        lit "Review accepted by the operator after "
        ++ (itoa v.input.resets ++ lit " budget reset(s)."))
  at_limit false false output = do
    assign (set_ending operator_stopped false)
    v ← read
    give (
        ended_by operator_stopped
          (with_token_total (lit "Review stopped by the operator at the pass limit.") v.total))

  -- The last pass of a budget, steered or not.
  unfoldable pub spend_budget : Bool → Text → ReviewRun ReviewOutcome
  unfolding at_limit pause limit_material end_with
  spend_budget true output = do
    v ← read
    d ← pause a pass_limit (limit_material v output)
    at_limit (same d.choice continue) (same d.choice accept) output
  spend_budget false output = do
    assign (set_ending pass_cap false)
    end_with a pass_cap (lit "Local review chain complete")
        (lit "Review stopped after " ++ (itoa max_review_passes ++ lit " pass(es)."))

  -- The input of the next pass.
  abbrev pub next_pass : ReviewVars → Text → ReviewInput
  next_pass v output = record v.input {
    payload = output;
    pass = suc v.input.pass;
    tokens_so_far = v.total;
  }

  unfoldable pub hand_over : (is_last is_steered : Bool) → Text → ReviewRun ReviewOutcome
  unfolding spend_budget
  hand_over true is_steered output = spend_budget is_steered output
  hand_over false is_steered output = do v ← read; throw (continue_as_new (next_pass v output))

  unfoldable pub after_implement : Implemented → ReviewRun ReviewOutcome
  unfolding review_branch hand_over
  after_implement (ended o) = give o
  after_implement (went_on cp) = do
    output ← review_branch cp
    v ← read
    hand_over (leb max_review_passes (suc v.input.pass)) (steered v.input.settings) output

  -- The body of `ReviewWorkflow`, past `startReviewState`.
  unfoldable pub review_body : ReviewRun ReviewOutcome
  unfolding resolve_inputs implement_payload after_implement
  review_body = do
    resolve_inputs a
    v ← read
    implemented ←
        implement_payload a (not (is_blank (trim_space v.input.payload))) (steered v.input.settings)
    after_implement implemented
