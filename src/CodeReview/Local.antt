-- ===== src/CodeReview/Local.antt =====
-- internal/codereview/workflow.go, `ReviewWorkflow`: one pass of the local review loop.
pub mod Endings
use Prim.Native.Nat.{ℕ, suc, zero, ◌+◌}
use mathlib.Core.Path.{◌≡◌, refl}
use mathlib.Core.Bool.{Bool, true, false, not, ◌&&◌, ◌||◌}
use mathlib.Core.List.{List, [], ◌∷◌, ◌++◌}
use mathlib.Core.Option.{Option, none, some}
use temporal_agents.Prelude.{Text, lit, Result, ok, err, same, if◌then◌else◌, leb, trim_space, itoa}
use temporal_agents.Runs.{
  Failure, Stop, failed, continue_as_new, Scope, Run, ◌>>=◌, ◌>>◌, give, throw, read, assign, ask,
  attempt, tell,
}
use temporal_agents.Settings.Catalogue.{Resolution}
use temporal_agents.Steering.Decision.{Decision, continue, accept, proceeds}
use temporal_agents.Steering.Rounds.{Round, local_review, pass_limit, session_id_for}
use temporal_agents.CodeReview.Inputs.{
  Place, Instructions, ReviewInput, ReviewOutcome, Ending, converged, operator_accepted,
  operator_stopped, pass_cap, ended_by, Checkpoint, no_checkpoint, AgentResult, max_review_passes,
  with_token_total,
}
use temporal_agents.CodeReview.Commands.{
  ReviewRow, Status, Command, probe_place, persist_review, resolve_instructions, resolve_settings,
  mark_head_and_stash, run_implement_agent, run_review_agent, ensure_head_advanced, restore_stash,
  notify, is_blank, is_type, wrapped, wrap, steered, status_of, failure_of, ensure, notify_complete,
  ask_operator, notify_failure, probed, probe, terminal_write_failed,
}

-- What the activities and the children of one pass answer. Each of them is asked once at most.
pub record ReviewAnswers : Type 0 where
  pub run_id : Text
  pub place : Place
  pub recorded : Result Failure (Unit {0})
  pub instructions : Result Failure Instructions
  pub settings : Result Failure Resolution
  pub opened : Round → Result Failure (Unit {0})
  pub decided : Round → Result Failure Decision
  pub checkpoint : Result Failure Checkpoint
  pub implemented : Result Failure AgentResult
  pub advanced : Result Failure (List Text)
  pub reviewed : Result Failure AgentResult
  pub restored : Result Failure (Unit {0})
  pub summarized : Result Failure Text
  pub settled : Result Failure (Unit {0})
  pub summarized_failure : Result Failure Text

-- The variables `in`, `rec`, `agentRan` and `total`.
pub record ReviewVars : Type 0 where
  pub input : ReviewInput
  pub row : ReviewRow
  pub agent_ran : Bool
  pub total : ℕ

abbrev pub ReviewRun : Type 0 → Type 0
ReviewRun = Run Command ReviewVars ReviewInput

abbrev pub set_row : (ReviewRow → ReviewRow) → ReviewVars → ReviewVars
set_row f v = record v { row = f v.row }

abbrev pub set_waiting : Option Text → ReviewVars → ReviewVars
set_waiting session = set_row (λ row. record row { waiting_session = session })

abbrev pub set_ending : Ending → Bool → ReviewVars → ReviewVars
set_ending ending is_converged =
    set_row (λ row. record row { converged = some is_converged; ending = some ending })

-- An agent's session has ended: it can be resumed, and it has cost tokens.
abbrev pub agent_cost : ℕ → ReviewVars → ReviewVars
agent_cost tokens v = record v {
  agent_ran = true;
  total = v.total + tokens;
  row = record v.row { tokens = v.row.tokens + tokens };
}

-- How the part of a pass that acts on the payload ends.
pub data Implemented : Type 0 where
  ended : ReviewOutcome → Implemented
  went_on : Checkpoint → Implemented

-- The row that `startReviewState` writes.
unfoldable pub started_row : ReviewInput → Place → ReviewRow
started_row input place = record {
  detached = input.detached;
  pass = input.pass;
  resets = input.resets;
  status = Status.running;
  tokens = 0;
  converged = none;
  ending = none;
  waiting_session = none;
  place = place;
  instructions = input.instructions;
  error = none;
}

module _ (a : ReviewAnswers) where
  -- The steps that find out what the loop runs under.
  unfoldable pub resolve_inputs : ReviewRun (Unit {0})
  unfolding ensure
  resolve_inputs = do
    v ← read
    instructions ←
        ensure resolve_instructions (lit "resolve the instructions this work runs under")
          v.row.place v.input.instructions a.instructions
    assign (λ w. record w {
      input = record w.input { instructions = instructions };
      row = record w.row { instructions = instructions };
    })
    settings ←
        ensure resolve_settings (lit "resolve the settings this work runs under") v.row.place
          v.input.settings a.settings
    assign (λ w. record w { input = record w.input { settings = settings } })

  -- `recordReviewWaiting`.
  unfoldable pub record_waiting : Option Text → ReviewRun (Unit {0})
  record_waiting session = do assign (set_waiting session); v ← read; tell (persist_review v.row)

  abbrev pub decision_or_stop : Result Failure Decision → ReviewRun Decision
  decision_or_stop (ok d) = give d
  decision_or_stop (err e) = throw (failed e)

  -- `pause`.
  unfoldable pub pause : Round → Text → ReviewRun Decision
  unfolding record_waiting ask_operator
  pause round material = do
    let session = session_id_for a.run_id round
    record_waiting (some session)
    decision ← ask_operator session round material (a.opened round) (a.decided round)
    record_waiting none
    decision_or_stop decision

  -- The row and the notice of an ending, and the outcome.
  unfoldable pub end_with : Ending → (title text : Text) → ReviewRun ReviewOutcome
  unfolding notify_complete
  end_with ending title text = do
    v ← read
    notify_complete v.input.summary v.agent_ran v.input.work_dir
        (record {
          title = title;
          body = with_token_total text v.total;
          url = [];
          webhook_body = [];
        })
        [] a.summarized
    give (ended_by ending (with_token_total text v.total))

  -- The pause before the findings are implemented: the guidance, unless the operator stops the loop.
  unfoldable pub guidance_of : Bool → ReviewRun (Option Text)
  unfolding pause proceeds
  guidance_of false = give (some [])
  guidance_of true = do
    v ← read
    d ← pause local_review v.input.payload
    give (if proceeds d then some d.guidance else none)

  -- The answer of `EnsureHeadAdvanced`: no commits means that the loop has converged.
  unfoldable pub after_advance : Checkpoint → Result Failure (List Text) → ReviewRun Implemented
  unfolding end_with
  after_advance cp (ok commits) = give (went_on cp)
  after_advance cp (err e) =
      if is_type e (lit "NoCommits")
      then (do
        assign (set_ending converged true)
        o ←
            end_with converged (lit "Local review chain complete")
              (lit "Review complete; the implement pass found nothing to commit.")
        give (ended o))
      else throw (failed e)

  -- What follows the agent's session, which has cost `tokens`.
  unfoldable pub after_agent : Checkpoint → ℕ → ReviewRun Implemented
  unfolding after_advance
  after_agent cp tokens = do
    assign (agent_cost tokens)
    v ← read
    commits ← attempt (ensure_head_advanced v.input.work_dir cp) a.advanced
    after_advance cp commits

  unfoldable pub implement_from : Text → Checkpoint → ReviewRun Implemented
  unfolding after_agent
  implement_from guidance cp = do
    v ← read
    implemented ← ask (run_implement_agent v.input.payload guidance) a.implemented
    after_agent cp implemented.tokens

  unfoldable pub implement_with : Option Text → ReviewRun Implemented
  unfolding implement_from end_with
  implement_with none = do
    assign (set_ending operator_stopped false)
    o ←
        end_with operator_stopped (lit "Local review chain stopped")
          (lit "Review stopped by the operator before the review's findings were implemented.")
    give (ended o)
  implement_with (some guidance) = do
    v ← read
    cp ← ask (mark_head_and_stash v.input.work_dir) a.checkpoint
    implement_from guidance cp

  -- The part of a pass that acts on the payload, where there is one.
  unfoldable pub implement_payload : (has_payload is_steered : Bool) → ReviewRun Implemented
  unfolding guidance_of implement_with
  implement_payload false is_steered = give (went_on no_checkpoint)
  implement_payload true is_steered = guidance_of is_steered >>= implement_with
