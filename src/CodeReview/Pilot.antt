-- ===== src/CodeReview/Pilot.antt =====
-- internal/codereview/workflow.go, `PilotWorkflow`: one pass over the comments of a pull request.
pub mod Endings
use Prim.Native.Nat.{ℕ, suc, zero, ◌+◌}
use mathlib.Core.Path.{◌≡◌, refl}
use mathlib.Core.Bool.{Bool, true, false, not, ◌&&◌, ◌||◌}
use mathlib.Core.List.{List, [], ◌∷◌, ◌++◌}
use mathlib.Core.Option.{Option, none, some}
use temporal_agents.Prelude.{
  Text, lit, Result, ok, err, if◌then◌else◌, ltb, length, trim_space, itoa,
}
use temporal_agents.Runs.{
  Failure, Stop, failed, continue_as_new, Scope, Run, ◌>>=◌, ◌>>◌, give, throw, read, assign, ask,
  attempt, tell,
}
use temporal_agents.Settings.Catalogue.{Resolution}
use temporal_agents.Steering.Decision.{Decision, proceeds}
use temporal_agents.Steering.Rounds.{remote_comments, session_id_for}
use temporal_agents.CodeReview.Inputs.{
  Place, Instructions, PilotInput, Ending, operator_stopped, Checkpoint, AgentResult, PullRequest,
  ReviewThread, with_token_total,
}
use temporal_agents.CodeReview.Commands.{
  PilotRow, Status, Command, persist_pilot, resolve_instructions, resolve_settings,
  mark_head_and_stash, ensure_head_advanced, restore_stash, notify, determine_pr,
  check_ongoing_review, load_unresolved_comments, sleep_interval, run_agent, push_branch,
  reply_and_resolve, request_copilot_review, is_blank, is_nil, wrapped, wrap, steered, status_of,
  failure_of, ensure, summarize_for_webhook, notify_complete, ask_operator, notify_failure, probed,
  probe, terminal_write_failed,
}
use temporal_agents.CodeReview.Comments.{format_comments}

-- What a wait for an ongoing review meets: each check and each sleep, up to the first that ends it.
pub data Polling : Type 0 where
  settled : Polling
  check_failed : Failure → Polling
  sleep_failed : Failure → Polling
  still_ongoing : Polling → Polling

-- What the activities of one pass answer.
pub record PilotAnswers : Type 0 where
  pub run_id : Text
  pub place : Place
  pub recorded : Result Failure (Unit {0})
  pub instructions : Result Failure Instructions
  pub settings : Result Failure Resolution
  pub pull_request : Result Failure PullRequest
  pub polling : Polling
  pub loaded : Result Failure (List ReviewThread)
  pub opened : Result Failure (Unit {0})
  pub decided : Result Failure Decision
  pub checkpoint : Result Failure Checkpoint
  pub agent : Result Failure AgentResult
  pub advanced : Result Failure (List Text)
  pub pushed : Result Failure (Unit {0})
  pub replied : Result Failure (Unit {0})
  pub requested : Result Failure (Unit {0})
  pub restored : Result Failure (Unit {0})
  pub summarized : Result Failure Text
  pub settled : Result Failure (Unit {0})
  pub summarized_failure : Result Failure Text

-- `pilotPass`.
pub record PilotPass : Type 0 where
  pub summary : Text
  pub addressed : Bool
  pub stopped : Bool
  pub tokens : ℕ
  pub pr_url : Text

-- The variables `in`, `rec` and `agentRan`.
pub record PilotVars : Type 0 where
  pub input : PilotInput
  pub row : PilotRow
  pub agent_ran : Bool

abbrev pub PilotRun : Type 0 → Type 0
PilotRun = Run Command PilotVars PilotInput

abbrev pub set_row : (PilotRow → PilotRow) → PilotVars → PilotVars
set_row f v = record v { row = f v.row }

-- The row that `startPilotState` writes.
unfoldable pub started_row : PilotInput → Place → PilotRow
started_row input place = record {
  status = Status.running;
  tokens = 0;
  addressed = none;
  ending = none;
  pr_url = [];
  waiting_session = none;
  place = place;
  instructions = input.instructions;
  error = none;
}

-- The loop that waits for an ongoing review.
unfoldable pub await_review_end : PullRequest → Polling → PilotRun (Unit {0})
await_review_end pr settled = do ongoing ← ask (check_ongoing_review pr) (ok false); give tt
await_review_end pr (check_failed e) = ask (check_ongoing_review pr) (err e)
await_review_end pr (sleep_failed e) = do
  ongoing ← ask (check_ongoing_review pr) (ok true)
  ask sleep_interval (err e)
await_review_end pr (still_ongoing later) = do
  ongoing ← ask (check_ongoing_review pr) (ok true)
  ask sleep_interval (ok tt)
  await_review_end pr later

module _ (a : PilotAnswers) where
  unfoldable pub resolve_inputs : PilotRun (Unit {0})
  unfolding ensure
  resolve_inputs = do
    v ← read
    instructions ←
        ensure resolve_instructions (lit "resolve the instructions this work runs under")
          v.row.place v.input.instructions a.instructions
    assign (λ w. record w {
      input = record w.input { instructions = instructions };
      row = record w.row { instructions = instructions };
    })
    settings ←
        ensure resolve_settings (lit "resolve the settings this work runs under") v.row.place
          v.input.settings a.settings
    assign (λ w. record w { input = record w.input { settings = settings } })

  -- `recordPilotWaiting`.
  unfoldable pub record_waiting : Option Text → PilotRun (Unit {0})
  record_waiting session = do
    assign (set_row (λ row. record row { waiting_session = session }))
    v ← read
    tell (persist_pilot v.row)

  abbrev pub decision_or_stop : Result Failure Decision → PilotRun Decision
  decision_or_stop (ok d) = give d
  decision_or_stop (err e) = throw (failed e)

  unfoldable pub pause : Text → PilotRun Decision
  unfolding record_waiting ask_operator
  pause material = do
    let session = session_id_for a.run_id remote_comments
    record_waiting (some session)
    decision ← ask_operator session remote_comments material a.opened a.decided
    record_waiting none
    decision_or_stop decision

  -- The guidance for the agent, unless the operator stops the loop.
  unfoldable pub guidance_of : Bool → Text → PilotRun (Option Text)
  unfolding pause proceeds
  guidance_of false material = give (some [])
  guidance_of true material = do
    d ← pause material
    give (if proceeds d then some d.guidance else none)

  unfoldable pub restore : Checkpoint → PilotRun (Unit {0})
  restore cp =
      if cp.stashed
      then (do v ← read; attempt (restore_stash v.input.work_dir) a.restored; give tt)
      else give tt

  -- From the commits of the agent to the review that is requested of them.
  unfoldable pub publish : PullRequest → List ReviewThread → Checkpoint → PilotRun (List Text)
  publish pr threads cp = do
    v ← read
    commits ← ask (ensure_head_advanced v.input.work_dir cp) a.advanced
    ask (push_branch v.input.work_dir pr.head_ref) a.pushed
    ask (reply_and_resolve pr threads commits) a.replied
    ask (request_copilot_review pr) a.requested
    give commits

  -- The local changes are put back, and the pass is summed up.
  unfoldable pub sum_up :
      PullRequest
      → List ReviewThread
      → Checkpoint
      → (tokens : ℕ) → (commits : List Text) → PilotRun PilotPass
  unfolding restore
  sum_up pr threads cp tokens commits = do
    restore cp
    give (record {
      summary =
          lit "Addressed "
          ++ (itoa (length threads)
              ++ (lit " comment(s) on PR #"
                  ++ (itoa pr.number
                      ++ (lit " with "
                          ++ (itoa (length commits)
                              ++ lit " commit(s); requested Copilot review.")))));
      addressed = true;
      stopped = false;
      tokens = tokens;
      pr_url = pr.url;
    })

  -- What follows the agent's session.
  unfoldable pub after_agent :
      PullRequest → List ReviewThread → Checkpoint → (tokens : ℕ) → PilotRun PilotPass
  unfolding publish sum_up
  after_agent pr threads cp tokens = do
    assign (λ w. record w { agent_ran = true })
    commits ← publish pr threads cp
    sum_up pr threads cp tokens commits

  unfoldable pub address_from :
      PullRequest → List ReviewThread → (guidance : Text) → Checkpoint → PilotRun PilotPass
  unfolding after_agent
  address_from pr threads guidance cp = do
    result ← ask (run_agent pr threads guidance) a.agent
    after_agent pr threads cp result.tokens

  -- The threads are addressed, unless the operator stops the pass.
  unfoldable pub address : PullRequest → List ReviewThread → Option Text → PilotRun PilotPass
  unfolding address_from
  address pr threads none = give (record {
    summary =
        lit "Stopped by the operator with "
        ++ (itoa (length threads)
            ++ (lit " unresolved comment(s) on PR #"
                ++ (itoa pr.number ++ lit " still to address.")));
    addressed = false;
    stopped = true;
    tokens = 0;
    pr_url = pr.url;
  })
  address pr threads (some guidance) = do
    v ← read
    cp ← ask (mark_head_and_stash v.input.work_dir) a.checkpoint
    address_from pr threads guidance cp

  unfoldable pub with_threads : PullRequest → List ReviewThread → PilotRun PilotPass
  unfolding guidance_of address
  with_threads pr [] = give (record {
    summary = lit "No unresolved comments on PR #" ++ (itoa pr.number ++ lit "; nothing to do.");
    addressed = false;
    stopped = false;
    tokens = 0;
    pr_url = pr.url;
  })
  with_threads pr (t ∷ ts) = do
    v ← read
    guidance ← guidance_of (steered v.input.settings) (format_comments pr.body (t ∷ ts))
    address pr (t ∷ ts) guidance

  -- `runPilotOnce` on the pull request that it has found.
  unfoldable pub pilot_on : PullRequest → PilotRun PilotPass
  unfolding await_review_end with_threads
  pilot_on pr = do
    await_review_end pr a.polling
    threads ← ask (load_unresolved_comments pr) a.loaded
    with_threads pr threads

  -- `runPilotOnce`.
  unfoldable pub run_pilot_once : PilotRun PilotPass
  unfolding pilot_on
  run_pilot_once = do v ← read; pr ← ask (determine_pr v.input.work_dir) a.pull_request; pilot_on pr

  -- The end of the chain: the summary with the total, and its notice.
  unfoldable pub conclude : (title : Text) → PilotPass → ℕ → PilotRun Text
  unfolding notify_complete
  conclude title pass total = do
    v ← read
    notify_complete v.input.summary v.agent_ran v.input.work_dir
        (record {
          title = title;
          body = with_token_total pass.summary total;
          url = pass.pr_url;
          webhook_body = [];
        })
        v.input.chain_summary a.summarized
    give (with_token_total pass.summary total)

  -- The notice of a pass before the chain goes on, where summaries are on.
  unfoldable pub notify_pass : Bool → PilotPass → (webhook_body : Text) → PilotRun (Unit {0})
  notify_pass false pass webhook_body = give tt
  notify_pass true pass webhook_body = tell (
      notify (record {
        title = lit "Copilot review pass complete";
        body = pass.summary;
        url = pass.pr_url;
        webhook_body = webhook_body;
      }))

  -- The next pass of the chain, after the comments have been addressed.
  unfoldable pub chain_on : PilotPass → ℕ → PilotRun Text
  unfolding summarize_for_webhook notify_pass
  chain_on pass total = do
    v ← read
    body ← summarize_for_webhook v.input.summary v.agent_ran v.input.work_dir a.summarized
    notify_pass v.input.summary pass body
    throw (continue_as_new (record v.input { tokens_so_far = total; chain_summary = body }))

  -- What follows a pass that did not fail.
  unfoldable pub after_pass : (is_stopped chains_on : Bool) → PilotPass → ℕ → PilotRun Text
  unfolding conclude chain_on
  after_pass true chains_on pass total = do
    assign (set_row (λ row. record row { ending = some operator_stopped }))
    conclude (lit "Copilot review chain stopped") pass total
  after_pass false true pass total = chain_on pass total
  after_pass false false pass total = conclude (lit "Copilot review chain complete") pass total

  -- The row of a pass that did not fail. The row of one that failed names no tokens.
  abbrev pub with_pass : PilotPass → PilotVars → PilotVars
  with_pass pass = set_row (λ row. record row {
    tokens = pass.tokens;
    pr_url = pass.pr_url;
    addressed = some pass.addressed;
  })

  unfoldable pub record_pass : PilotPass → PilotRun Text
  unfolding after_pass
  record_pass pass = do
    assign (with_pass pass)
    v ← read
    after_pass pass.stopped (v.input.chain && pass.addressed) pass
        (v.input.tokens_so_far + pass.tokens)

  -- The body of `PilotWorkflow`, past `startPilotState`.
  unfoldable pub pilot_body : PilotRun Text
  unfolding resolve_inputs run_pilot_once record_pass
  pilot_body = do resolve_inputs; pass ← run_pilot_once; record_pass pass
