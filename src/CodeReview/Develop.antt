-- ===== src/CodeReview/Develop.antt =====
-- internal/codereview/workflow.go, `OpenPRWorkflow` and `DevelopWorkflow`.
pub mod Seeding
use Prim.Native.Nat.{ℕ, suc, zero, ◌+◌}
use mathlib.Core.Path.{◌≡◌, refl}
use mathlib.Core.Bool.{Bool, true, false, not, ◌&&◌, ◌||◌}
use mathlib.Core.List.{List, [], ◌∷◌, ◌++◌}
use mathlib.Core.Option.{Option, none, some}
use temporal_agents.Prelude.{Text, lit, Result, ok, err, if◌then◌else◌, length, itoa}
use temporal_agents.Runs.{
  Failure, Stop, failed, continue_as_new, Scope, Run, ◌>>=◌, ◌>>◌, give, throw, read, assign, ask,
  attempt, tell,
}
use temporal_agents.Settings.Catalogue.{Resolution}
use temporal_agents.CodeReview.Inputs.{
  Place, ReviewInput, ReviewOutcome, PilotInput, DevelopInput, AgentResult, PullRequest,
  with_token_total, with_develop_step_tokens,
}
use temporal_agents.CodeReview.Commands.{
  DevelopRow, Status, Notification, Command, persist_develop, create_branch, merge_dependency,
  resolve_merge_conflict, abort_merge, run_develop_agent, ensure_developed, start_review,
  await_review, await_open_pr, await_pilot, open_pr, request_copilot_review, notify, is_blank,
  is_nil, is_type, wrapped, wrap, status_of, failure_of, summarize_for_webhook, notify_failure,
  probed, probe, terminal_write_failed,
}

-- `OpenPRResult`.
pub record OpenPrResult : Type 0 where
  pub summary : Text
  pub url : Text

-- `CreateBranchResult`.
pub record CreatedBranch : Type 0 where
  pub branch : Text
  pub work_dir : Text
  pub base_sha : Text

-- `MergeDependencyResult`.
pub record MergeResult : Type 0 where
  pub head : Text
  pub conflicted : Bool

-- `ResolveMergeConflictResult`.
pub record ResolvedConflict : Type 0 where
  pub head : Text
  pub tokens : ℕ

-- What is answered about one dependency branch.
pub record SeedAnswers : Type 0 where
  pub merged : Result Failure MergeResult
  pub resolved : Result Failure ResolvedConflict
  pub aborted : Result Failure (Unit {0})

-- What the activities and children of a develop run answer.
pub record DevelopAnswers : Type 0 where
  pub workflow_id : Text
  pub place : Place
  pub recorded : Result Failure (Unit {0})
  pub created : Result Failure CreatedBranch
  pub place_recorded : Result Failure (Unit {0})
  pub seeds : List Text → SeedAnswers
  pub developed : Result Failure AgentResult
  pub ensured : Result Failure (List Text)
  pub summarized : Result Failure Text
  pub started : Result Failure (Unit {0})
  pub reviewed : Result Failure ReviewOutcome
  pub opened : Result Failure OpenPrResult
  pub piloted : Result Failure Text
  pub settled : Result Failure (Unit {0})
  pub summarized_failure : Result Failure Text

-- The variables `in`, `rec`, `agentRan` and `failureNotified`.
pub record DevelopVars : Type 0 where
  pub input : DevelopInput
  pub row : DevelopRow
  pub agent_ran : Bool
  pub failure_notified : Bool

-- Neither workflow continues as new.
abbrev pub DevelopRun : Type 0 → Type 0
DevelopRun = Run Command DevelopVars ⊥

abbrev pub set_row : (DevelopRow → DevelopRow) → DevelopVars → DevelopVars
set_row f v = record v { row = f v.row }

abbrev pub notice : (title body webhook_body : Text) → Notification
notice title body webhook_body = record {
  title = title;
  body = body;
  url = [];
  webhook_body = webhook_body;
}

-- `NewNonRetryableApplicationError`.
abbrev pub application_error : (message type : Text) → Failure
application_error message type = record { type = some type; message = message; is_canceled = false }

-- `OpenPRWorkflow`, with the commands that it gives.
unfoldable pub open_pr_workflow :
    (work_dir : Text)
    → Result Failure PullRequest
    → Result Failure (Unit {0})
    → List Command × Result Failure OpenPrResult
open_pr_workflow work_dir (err e) requested = (
  notify (notice (lit "Opening the pull request failed") e.message []) ∷ open_pr work_dir ∷ [],
  err e,
)
open_pr_workflow work_dir (ok pr) (err e) = (
  notify (notice (lit "Opening the pull request failed") e.message [])
      ∷ request_copilot_review pr
      ∷ open_pr work_dir
      ∷ [],
  err e,
)
open_pr_workflow work_dir (ok pr) (ok _) =
    let summary =
      lit "PR #" ++ (itoa pr.number ++ lit " is open and a Copilot review was requested.") in
    (
      notify (record {
        title = lit "Pull request ready";
        body = summary;
        url = pr.url;
        webhook_body = [];
      })
          ∷ request_copilot_review pr
          ∷ open_pr work_dir
          ∷ [],
      ok (record { summary = summary; url = pr.url }),
    )

-- `SeedConflictBlockedErrType` and `ReviewNotConvergedErrType`.
abbrev pub seed_conflict_blocked : Text
seed_conflict_blocked = lit "SeedConflictBlocked"

abbrev pub review_not_converged : Text
review_not_converged = lit "ReviewNotConverged"

-- The answer about aborting a merge that could not be resolved.
unfoldable pub after_abort : Text → Result Failure (Unit {0}) → Failure
after_abort branch (err e) =
    wrapped
      (lit "abort merge of dependency branch \""
        ++ (branch ++ lit "\" after failed conflict resolution"))
      e
after_abort branch (ok _) =
    application_error
      (lit "cannot resolve conflict merging dependency branch \"" ++ (branch ++ lit "\""))
      seed_conflict_blocked

-- A conflict that the agent has tried to resolve.
unfoldable pub after_resolve :
    (work_dir branch : Text)
    → Result Failure (Unit {0})
    → Result Failure ResolvedConflict
    → (tokens : ℕ) → DevelopRun (Text × ℕ)
unfolding after_abort
after_resolve work_dir branch aborted (ok r) tokens = give (r.head, tokens + r.tokens)
after_resolve work_dir branch aborted (err e) tokens = do
  answer ← attempt (abort_merge work_dir) aborted
  throw (failed (after_abort branch answer))

unfoldable pub after_merge :
    (work_dir branch : Text)
    → SeedAnswers
    → (is_conflicted : Bool) → (head : Text) → (tokens : ℕ) → DevelopRun (Text × ℕ)
unfolding after_resolve
after_merge work_dir branch a false head tokens = give (head, tokens)
after_merge work_dir branch a true head tokens = do
  resolved ← attempt (resolve_merge_conflict work_dir branch) a.resolved
  after_resolve work_dir branch a.aborted resolved tokens

-- One dependency: the head and the tokens after it, with those before it.
unfoldable pub seed_one :
    (work_dir branch : Text) → SeedAnswers → (tokens : ℕ) → DevelopRun (Text × ℕ)
unfolding after_merge
seed_one work_dir branch a tokens = do
  merged ← ask (merge_dependency work_dir branch) a.merged
  after_merge work_dir branch a merged.conflicted merged.head tokens

-- `seedBranches`, from the head and the tokens so far. What is answered about a branch is told apart
-- by the branches from it on.
unfoldable pub seed_branches :
    (List Text → SeedAnswers)
    → (work_dir : Text) → List Text
    → (head : Text) → (tokens : ℕ) → DevelopRun (Text × ℕ)
unfolding seed_one
seed_branches answers work_dir [] head tokens = give (head, tokens)
seed_branches answers work_dir (b ∷ bs) head tokens = do
  seeded ← seed_one work_dir b (answers (b ∷ bs)) tokens
  seed_branches answers work_dir bs seeded.0 seeded.1
