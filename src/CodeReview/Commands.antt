-- ===== src/CodeReview/Commands.antt =====
-- The commands of the workflows of internal/codereview, and the steps that these share.
use Prim.Native.Nat.{ℕ}
use mathlib.Core.Bool.{Bool, true, false, not, ◌&&◌}
use mathlib.Core.List.{List, [], ◌∷◌, ◌++◌}
use mathlib.Core.Option.{Option, none, some}
use temporal_agents.Prelude.{Text, lit, Result, ok, err, same, if◌then◌else◌}
use temporal_agents.Runs.{
  Failure, Stop, continue_as_new, Run, ◌>>=◌, ◌>>◌, give, throw, ask, attempt, tell,
}
use temporal_agents.Settings.Scoped.{chain}
use temporal_agents.Settings.Catalogue.{Resolution, enabled, steering_enabled}
use temporal_agents.Steering.Decision.{Decision}
use temporal_agents.Steering.Rounds.{Round, round_text}
use temporal_agents.CodeReview.Inputs.{
  Place, Instructions, Ending, Checkpoint, PullRequest, ReviewThread, ReviewInput, PilotInput,
}

-- `execstore.Status`.
pub data Status : Type 0 where
  running succeeded failed : Status

-- `ReviewState`, less the handles and times that Temporal gives. The text of an error is rendered
-- from the failure, and the wait from the session that is waited for.
pub record ReviewRow : Type 0 where
  pub detached : Bool
  pub pass : ℕ
  pub resets : ℕ
  pub status : Status
  pub tokens : ℕ
  pub converged : Option Bool
  pub ending : Option Ending
  pub waiting_session : Option Text
  pub place : Place
  pub instructions : Instructions
  pub error : Option Failure

-- `PilotState`.
pub record PilotRow : Type 0 where
  pub status : Status
  pub tokens : ℕ
  pub addressed : Option Bool
  pub ending : Option Ending
  pub pr_url : Text
  pub waiting_session : Option Text
  pub place : Place
  pub instructions : Instructions
  pub error : Option Failure

-- `DevelopState`.
pub record DevelopRow : Type 0 where
  pub prompt : Text
  pub branch : Text
  pub pr_url : Text
  pub status : Status
  pub tokens : ℕ
  pub place : Place
  pub error : Option Failure

-- `notification.Notification`, as these workflows fill it.
pub record Notification : Type 0 where
  pub title : Text
  pub body : Text
  pub url : Text
  pub webhook_body : Text

-- The activities and the child workflows that are scheduled.
pub data Command : Type 0 where
  probe_place : Text → Command
  persist_review : ReviewRow → Command
  persist_pilot : PilotRow → Command
  persist_develop : DevelopRow → Command
  resolve_instructions resolve_settings : List Text → Command
  open_session : Text → Round → (material : Text) → Command
  await_session : Text → Round → Command
  mark_head_and_stash : Text → Command
  run_implement_agent : (payload guidance : Text) → Command
  run_review_agent : Text → Command
  ensure_head_advanced : Text → Checkpoint → Command
  restore_stash : Text → Command
  summarize_last_run : Text → Command
  notify : Notification → Command
  determine_pr : Text → Command
  check_ongoing_review load_unresolved_comments : PullRequest → Command
  sleep_interval : Command
  run_agent : PullRequest → List ReviewThread → (guidance : Text) → Command
  push_branch : Text → (branch : Text) → Command
  reply_and_resolve : PullRequest → List ReviewThread → (commits : List Text) → Command
  request_copilot_review : PullRequest → Command
  open_pr : Text → Command
  create_branch : (work_dir branch worktrees_dir start_point : Text) → Command
  merge_dependency resolve_merge_conflict : Text → (branch : Text) → Command
  abort_merge : Text → Command
  run_develop_agent : Text → (prompt : Text) → Command
  ensure_developed : Text → (base : Text) → Command
  start_review await_review : ReviewInput → Command
  await_open_pr : Text → Command
  await_pilot : PilotInput → Command

abbrev pub is_blank : Text → Bool
is_blank [] = true
is_blank (c ∷ s) = false

abbrev pub is_nil {ℓ} : {A : Type ℓ} → List A → Bool
is_nil [] = true
is_nil (x ∷ xs) = false

-- `fmt.Errorf("…: %w", err)`, which keeps what is inside.
abbrev pub wrapped : Text → Failure → Failure
wrapped prefix e = record e { message = prefix ++ lit ": " ++ e.message }

abbrev pub wrap {ℓ} : {A : Type ℓ} → Text → Result Failure A → Result Failure A
wrap prefix (ok a) = ok a
wrap prefix (err e) = err (wrapped prefix e)

-- `errors.As(err, &appErr) && appErr.Type() == type`.
abbrev pub is_type : Failure → Text → Bool
is_type e type = elim e.type [ none ↦ false | some t ↦ same t type ]

-- `steered`.
unfoldable pub steered : Resolution → Bool
unfolding enabled
steered settings = not (is_nil settings) && enabled settings steering_enabled

-- `wfrecord.StatusOf`, and the failure that `wfrecord.FailureText` renders.
abbrev pub status_of {ℓ} : {I : Type 0} {A : Type ℓ} → Result (Stop I) A → Status
status_of (ok a) = succeeded
status_of (err (continue_as_new i)) = succeeded
status_of (err (Stop.failed e)) = Status.failed

abbrev pub failure_of {ℓ} : {I : Type 0} {A : Type ℓ} → Result (Stop I) A → Option Failure
failure_of (ok a) = none
failure_of (err (continue_as_new i)) = none
failure_of (err (Stop.failed e)) = some e

module _ {V I : Type 0} where
  -- `wfinstruction.Ensure` and `wfsetting.Ensure`: what the input carries, or else an activity.
  unfoldable pub ensure :
      {A : Type 0}
      → (List Text → Command)
      → (what : Text) → Place
      → List A
      → Result Failure (List A)
      → Run Command V I (List A)
  unfolding chain
  ensure command what place (a ∷ carried) answer = give (a ∷ carried)
  ensure command what place [] answer =
      ask (command (chain place.directory place.repository)) (wrap what answer)

  -- `summarizeForWebhook`, past its guard.
  unfoldable pub after_summary : Result Failure Text → Run Command V I Text
  after_summary (ok summary) = give summary
  after_summary (err e) = if e.is_canceled then throw (Stop.failed e) else give []

  -- `summarizeForWebhook`.
  unfoldable pub summarize_for_webhook :
      (summary_enabled agent_ran : Bool)
      → (work_dir : Text) → Result Failure Text
      → Run Command V I Text
  unfolding after_summary
  summarize_for_webhook true true work_dir answer = do
    summary ← attempt (summarize_last_run work_dir) answer
    after_summary summary
  summarize_for_webhook true false work_dir answer = give []
  summarize_for_webhook false agent_ran work_dir answer = give []

  -- `notifyComplete`.
  unfoldable pub notify_complete :
      (summary_enabled agent_ran : Bool)
      → (work_dir : Text) → Notification
      → (carried_summary : Text) → Result Failure Text
      → Run Command V I (Unit {0})
  unfolding summarize_for_webhook
  notify_complete summary_enabled agent_ran work_dir n carried_summary answer = do
    body ← summarize_for_webhook summary_enabled agent_ran work_dir answer
    tell (notify (record n { webhook_body = if is_blank body then carried_summary else body }))

  -- `steering.Ask`: the session is opened in the store, and then waited for.
  unfoldable pub ask_operator :
      Text
      → Round
      → (material : Text) → Result Failure (Unit {0})
      → Result Failure Decision
      → Run Command V I (Result Failure Decision)
  ask_operator id round material (err e) answer = do
    attempt (open_session id round material) (ok tt)
    give (
        err (
          wrapped (lit "open the steering session for the " ++ (round_text round ++ lit " round"))
            e))
  ask_operator id round material (ok _) answer = do
    attempt (open_session id round material) (ok tt)
    attempt (await_session id round) (
        wrap (lit "wait for the operator's decision on the " ++ (round_text round ++ lit " round"))
          answer)

-- `NotifyFailureBestEffortWith`, with the summary that `notifyFailure` adds, for a run that has ended.
unfoldable pub notify_failure {ℓ} :
    {I : Type 0} {A : Type ℓ}
    → (title work_dir : Text) → (summary_enabled agent_ran : Bool) → Result Failure Text
    → Result (Stop I) A
    → List Command
    → List Command
notify_failure title work_dir summary_enabled agent_ran answer (ok a) log = log
notify_failure title work_dir summary_enabled agent_ran answer (err (continue_as_new i)) log = log
notify_failure title work_dir summary_enabled agent_ran answer (err (Stop.failed e)) log =
    if summary_enabled && agent_ran
    then notify (record {
      title = title;
      body = e.message;
      url = [];
      webhook_body = elim answer [ ok summary ↦ summary | err _ ↦ [] ];
    })
      ∷ summarize_last_run work_dir
      ∷ log
    else notify (record { title = title; body = e.message; url = []; webhook_body = [] }) ∷ log

-- `wfplace.Probe`: nothing is asked about no directory.
abbrev pub probed : Text → Place → Place
probed [] place = record { directory = []; repository = [] }
probed (c ∷ dir) place = place

abbrev pub probe : Text → List Command → List Command
probe [] log = log
probe (c ∷ dir) log = probe_place (c ∷ dir) ∷ log

-- `wfrecord.TerminalWriteFailed`: the notice that rescues the result of a run that succeeded.
unfoldable pub terminal_write_failed :
    (what result : Text) → Result Failure (Unit {0}) → List Command → List Command
terminal_write_failed what result (ok _) log = log
terminal_write_failed what [] (err e) log = log
terminal_write_failed what (c ∷ result) (err e) log =
    notify (record {
      title = lit "Record not written: " ++ what;
      body =
          lit "The "
          ++ (what
              ++ (lit
                    " finished, but its terminal record could not be written, so it stays \"running\" in history.\n\nrecord error: "
                  ++ (e.message ++ (lit "\n\nresult:\n" ++ (c ∷ result)))));
      url = [];
      webhook_body = [];
    })
    ∷ log
