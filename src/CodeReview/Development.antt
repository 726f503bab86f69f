-- ===== src/CodeReview/Development.antt =====
-- internal/codereview/workflow.go: the stages of `DevelopWorkflow`, from the branch to its review.
pub mod Remote
use Prim.Native.Nat.{ℕ, ◌+◌}
use mathlib.Core.Bool.{Bool, true, false}
use mathlib.Core.List.{List, [], ◌∷◌, ◌++◌}
use temporal_agents.Prelude.{Text, lit, Result, ok, err, if◌then◌else◌, length, itoa}
use temporal_agents.Runs.{
  Failure, Stop, Scope, failed, continue_as_new, ◌>>=◌, ◌>>◌, give, throw, read, assign, ask,
  attempt, tell,
}
use temporal_agents.CodeReview.Inputs.{
  Place, ReviewInput, ReviewOutcome, DevelopInput, with_token_total, with_develop_step_tokens,
}
use temporal_agents.CodeReview.Commands.{
  Command, wrapped, Notification, persist_develop, create_branch, run_develop_agent,
  ensure_developed, start_review, await_review, await_open_pr, await_pilot, notify, is_blank,
  is_type, wrap, summarize_for_webhook, notify_failure, probed, probe,
}
use temporal_agents.CodeReview.Develop.{
  OpenPrResult, CreatedBranch, DevelopAnswers, DevelopVars, DevelopRun, set_row, notice,
  application_error, seed_conflict_blocked, review_not_converged, seed_branches,
}

-- The text of the commits on a branch.
abbrev pub developed_text : (branch : Text) → List Text → (rest : Text) → Text
developed_text branch commits rest =
    lit "Developed branch "
    ++ (branch ++ (lit " with " ++ (itoa (length commits) ++ (lit " commit(s)" ++ rest))))

-- The input of the review child.
abbrev pub review_input : DevelopInput → (detached : Bool) → (tokens : ℕ) → ReviewInput
review_input input detached tokens = record {
  initiator = input.initiator;
  detached = detached;
  work_dir = input.work_dir;
  payload = [];
  resets = 0;
  pass = 0;
  tokens_so_far = tokens;
  summary = input.summary;
  instructions = [];
  settings = input.settings;
}

-- `developAndAwaitReview`, past the review.
unfoldable pub after_review :
    DevelopInput → List Text → ℕ → (webhook_body : Text) → ReviewOutcome → DevelopRun Text
after_review input commits tokens webhook_body outcome =
    if outcome.converged
    then (do
      tell (
          notify (
            notice (lit "Development and review complete")
              (developed_text input.branch commits (lit "; the local review loop has converged."))
              webhook_body))
      give (
          with_develop_step_tokens
            (developed_text input.branch commits (lit "; local review converged.")) tokens))
    else throw (
        failed (
          application_error
            (lit "local review did not converge for branch "
              ++ (input.branch ++ (lit ": " ++ outcome.summary)))
            review_not_converged))

-- `developAndAwaitReview`.
unfoldable pub develop_and_await_review :
    DevelopAnswers → DevelopInput → List Text → ℕ → (webhook_body : Text) → DevelopRun Text
unfolding after_review
develop_and_await_review a input commits tokens webhook_body = do
  outcome ←
      ask (await_review (review_input input false tokens)) (wrap (lit "review workflow") a.reviewed)
  after_review input commits tokens webhook_body outcome

-- `developWithRemote` from the pilot on, once the pull request is open.
unfoldable pub remote_pilot :
    DevelopAnswers → DevelopInput → List Text → ℕ → OpenPrResult → DevelopRun Text
remote_pilot a input commits tokens pr = do
  piloted ←
      ask
        (await_pilot (record {
          initiator = input.initiator;
          work_dir = input.work_dir;
          chain = true;
          tokens_so_far = 0;
          summary = input.summary;
          chain_summary = [];
          instructions = [];
          settings = input.settings;
        }))
        (wrap (lit "pilot workflow") a.piloted)
  tell (
      notify (
        notice (lit "Remote pipeline complete")
          (developed_text input.branch commits
            (lit "; the review, pull request, and Copilot pilot stages have all completed."))
          []))
  give (
      with_develop_step_tokens
        (developed_text input.branch commits (
          lit "; ran the review loop, "
          ++ ((if is_blank pr.url
                then lit "opened the PR"
                else lit "opened the PR (" ++ (pr.url ++ lit ")"))
              ++ lit ", and completed the Copilot pilot loop.")))
        tokens)

-- What `developWithRemote` returns: its result, and the URL of the pull request on every path.
pub record RemoteEnd : Type 0 where
  pub scope : Scope Command DevelopVars
  pub result : Result (Stop ⊥) Text
  pub pr_url : Text

-- What follows the child that opens the pull request.
unfoldable pub remote_opened :
    DevelopAnswers
    → DevelopInput
    → List Text
    → ℕ
    → Result Failure OpenPrResult
    → Scope Command DevelopVars
    → RemoteEnd
unfolding remote_pilot
remote_opened a input commits tokens (err e) s = record {
  scope = s;
  result = err (failed (wrapped (lit "open PR workflow") e));
  pr_url = [];
}
remote_opened a input commits tokens (ok pr) s =
    let (t, result) = remote_pilot a input commits tokens pr s in
    record { scope = t; result = result; pr_url = pr.url }

-- What follows the review.
unfoldable pub remote_reviewed :
    DevelopAnswers
    → DevelopInput
    → List Text
    → ℕ
    → Result Failure ReviewOutcome
    → Scope Command DevelopVars
    → RemoteEnd
unfolding remote_opened
remote_reviewed a input commits tokens (err e) s = record {
  scope = s;
  result = err (failed (wrapped (lit "review workflow") e));
  pr_url = [];
}
remote_reviewed a input commits tokens (ok outcome) s =
    remote_opened a input commits tokens a.opened
      (record s { log = await_open_pr input.work_dir ∷ s.log })

-- `developWithRemote`, with its deferred function.
unfoldable pub develop_with_remote :
    DevelopAnswers
    → DevelopInput
    → List Text
    → ℕ
    → (webhook_body : Text) → Scope Command DevelopVars
    → RemoteEnd
unfolding remote_reviewed notify_failure
develop_with_remote a input commits tokens webhook_body s =
    let started = notify (
      notice (lit "Development complete")
        (developed_text input.branch commits (
          lit
            " successfully. The review, pull request, and Copilot pilot stages will now commence."))
        webhook_body) in
    let end =
      remote_reviewed a input commits tokens a.reviewed
        (record s { log = await_review (review_input input false tokens) ∷ started ∷ s.log }) in
    record end {
      scope = record end.scope {
        log =
            notify_failure (lit "Remote pipeline failed") input.work_dir false false (ok [])
              end.result end.scope.log;
      };
    }

-- `DevelopWorkflow` folds the URL into its row, whether the pipeline has failed or not.
unfoldable pub fold_pr_url : RemoteEnd → Scope Command DevelopVars × Result (Stop ⊥) Text
fold_pr_url end = (
  record end.scope { vars = set_row (λ row. record row { pr_url = end.pr_url }) end.scope.vars },
  end.result,
)

unfoldable pub develop_remotely :
    DevelopAnswers → DevelopInput → List Text → ℕ → (webhook_body : Text) → DevelopRun Text
unfolding develop_with_remote fold_pr_url
develop_remotely a input commits tokens webhook_body s =
    fold_pr_url (develop_with_remote a input commits tokens webhook_body s)

-- The run that leaves its review to itself.
unfoldable pub develop_and_start_review :
    DevelopAnswers → DevelopInput → List Text → ℕ → (webhook_body : Text) → DevelopRun Text
develop_and_start_review a input commits tokens webhook_body = do
  ask (start_review (review_input input true tokens)) (wrap (lit "start review workflow") a.started)
  tell (
      notify (
        notice (lit "Development complete")
          (developed_text input.branch commits
            (lit " successfully. The review cycle will now commence."))
          webhook_body))
  give (
      with_token_total
        (developed_text input.branch commits
          (lit "; started review review-" ++ (a.workflow_id ++ lit ".")))
        tokens)

-- `recordDevelopPlace`.
unfoldable pub record_place : Place → (answer : Result Failure (Unit {0})) → DevelopRun (Unit {0})
record_place place answer = do
  assign (set_row (λ row. record row { place = place }))
  v ← read
  if is_blank place.directory then give tt else (attempt (persist_develop v.row) answer >> give tt)

-- Where the run develops, from now on.
abbrev pub moved : CreatedBranch → DevelopVars → DevelopVars
moved created v = record v {
  input = record v.input { branch = created.branch; work_dir = created.work_dir };
  row = record v.row { branch = created.branch };
}

abbrev pub blocked_notice : Text → Notification
blocked_notice branch =
    notice (lit "Node blocked: unresolved seed conflict")
      (lit "Could not merge a dependency branch into "
        ++ (branch
            ++ lit
                " and the conflict could not be resolved automatically. The branch was left clean (no conflict markers); a later sync may succeed once the conflicting branches move."))
      []

abbrev pub stand_down : DevelopVars → DevelopVars
stand_down v = record v { failure_notified = true }

-- The probe of `recordDevelopPlace`.
unfoldable pub probe_there : (work_dir : Text) → DevelopRun (Unit {0})
probe_there work_dir s = (record s { log = probe work_dir s.log }, ok tt)

module _ (a : DevelopAnswers) where
  -- An error of seeding: a blocked node has a notice of its own.
  unfoldable pub after_seeding :
      Result (Stop ⊥) (Text × ℕ) → (branch : Text) → DevelopRun (Text × ℕ)
  after_seeding (ok seeded) branch = give seeded
  after_seeding (err (continue_as_new none_such)) branch = elim none_such [ ]
  after_seeding (err (failed e)) branch =
      if is_type e seed_conflict_blocked
      then (do assign stand_down; tell (notify (blocked_notice branch)); throw (failed e))
      else throw (failed e)

  -- The head to develop from, and the tokens that seeding it has cost.
  unfoldable pub seed : List Text → (base : Text) → DevelopRun (Text × ℕ)
  unfolding seed_branches after_seeding
  seed [] base s = (s, ok (base, 0))
  seed (b ∷ bs) base s =
      let (t, seeded) = seed_branches a.seeds s.vars.input.work_dir (b ∷ bs) [] 0 s in
      after_seeding seeded s.vars.input.branch t

  unfoldable pub after_development :
      (with_remote await_review : Bool)
      → DevelopInput
      → List Text
      → ℕ
      → (webhook_body : Text) → DevelopRun Text
  unfolding develop_remotely develop_and_await_review develop_and_start_review
  after_development true awaits input commits tokens body =
      assign stand_down >> develop_remotely a input commits tokens body
  after_development false true input commits tokens body =
      assign stand_down >> develop_and_await_review a input commits tokens body
  after_development false false input commits tokens body =
      develop_and_start_review a input commits tokens body

  -- The commits that the agent has made are handed on.
  unfoldable pub with_commits : DevelopInput → ℕ → List Text → DevelopRun Text
  unfolding summarize_for_webhook after_development
  with_commits input tokens commits = do
    body ← summarize_for_webhook input.summary true input.work_dir a.summarized
    after_development input.with_remote input.await_review input commits tokens body

  unfoldable pub after_session : DevelopInput → (base : Text) → ℕ → DevelopRun Text
  unfolding with_commits
  after_session input base tokens = do
    assign (λ w. record w { agent_ran = true; row = record w.row { tokens = tokens } })
    commits ← ask (ensure_developed input.work_dir base) a.ensured
    with_commits input tokens commits

  -- The agent's session, and what follows it.
  unfoldable pub develop_from : DevelopInput → (base : Text) → (seed_tokens : ℕ) → DevelopRun Text
  unfolding after_session
  develop_from input base seed_tokens = do
    developed ← ask (run_develop_agent input.work_dir input.prompt) a.developed
    after_session input base (developed.tokens + seed_tokens)

  unfoldable pub seed_and_develop : DevelopInput → (base : Text) → DevelopRun Text
  unfolding seed develop_from
  seed_and_develop input base = do
    seeded ← seed input.merge_branches base
    develop_from input seeded.0 seeded.1

  -- From the branch on that the run develops.
  unfoldable pub develop_created : CreatedBranch → DevelopRun Text
  unfolding probe_there record_place seed_and_develop
  develop_created created = do
    assign (moved created)
    v ← read
    probe_there v.input.work_dir
    record_place (probed v.input.work_dir a.place) a.place_recorded
    seed_and_develop v.input created.base_sha

  -- The body of `DevelopWorkflow`, past `startDevelopState`.
  unfoldable pub develop_body : DevelopRun Text
  unfolding develop_created
  develop_body = do
    v ← read
    created ←
        ask
          (create_branch v.input.work_dir v.input.branch v.input.worktrees_dir v.input.start_point)
          a.created
    develop_created created
