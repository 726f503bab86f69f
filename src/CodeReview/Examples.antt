-- ===== src/CodeReview/Examples.antt =====
-- Loops, chains and develop runs at which the theorems are applied.
use Prim.Native.Nat.{ℕ, ◌+◌}
use mathlib.Core.Path.{◌≡◌, refl, sym, ap}
use mathlib.Core.Logic.{inl, inr}
use mathlib.Core.Bool.{Bool, true, false}
use mathlib.Core.List.{List, Memᴰ, [], ◌∷◌}
use mathlib.Core.Option.{none, some}
use native.Mathlib.Omega.{arith}
use temporal_agents.Prelude.{Text, lit, Result, ok, err, same, text_discrete, trim_space}
use temporal_agents.Runs.{Failure, continue_as_new}
use temporal_agents.Runs.Laws.{Outcome}
use temporal_agents.Steering.Decision.{Decision, accept, continue}
use temporal_agents.CodeReview.Inputs.{
  Place, ReviewInput, ReviewOutcome, PilotInput, DevelopInput, PullRequest, ReviewThread, converged,
  pass_cap, ended_by,
}
use temporal_agents.CodeReview.Commands.{steered}
use temporal_agents.CodeReview.Local.{ReviewAnswers}
use temporal_agents.CodeReview.Loop.{Passes, review_workflow, review_loop}
use temporal_agents.CodeReview.Loop.Records.{EndsWith, review_workflow-EndsWith}
use temporal_agents.CodeReview.Loop.Passes.{NoResetAfter, Returns, spent_tokens, review_loop-ends}
use temporal_agents.CodeReview.Pilot.{PilotAnswers, still_ongoing, settled}
use temporal_agents.CodeReview.Chain.{pilot_workflow}
use temporal_agents.CodeReview.Chain.Records.{pilot_workflow-EndsWith}
use temporal_agents.CodeReview.Chain.Records
use temporal_agents.CodeReview.Develop.{SeedAnswers, DevelopAnswers, seed_branches}
use temporal_agents.CodeReview.Branch.{develop_workflow}
use temporal_agents.CodeReview.Develop.Seeding.{
  PlainErrors, last_head, tokens_in, LeavesClean, seed_branches-Outcome,
}
use temporal_agents.CodeReview.Branch.Reviewed.{develop_workflow-Reviewed}
use temporal_agents.CodeReview.Branches.{validate_branch_name, two_dots, split_slash}
use temporal_agents.CodeReview.Branches.Inside.{StaysBelow, validate_branch_name-StaysBelow}
use temporal_agents.CodeReview.Develop.{DevelopVars, OpenPrResult}
use temporal_agents.CodeReview.Development.{develop_with_remote, develop_remotely}
use temporal_agents.CodeReview.Development.Remote.{
  PointsWell, develop_remotely-pr_url, develop_with_remote-ok,
}
use temporal_agents.CodeReview.Branch.{first_vars, settled_row}
use temporal_agents.CodeReview.Commands.{Command}
use temporal_agents.Prelude.{join, has_prefix}
use temporal_agents.Runs.{Scope}
use temporal_agents.CodeReview.Loop.Untouched.{is_untouched, review_workflow-is_untouched}
use temporal_agents.CodeReview.Commands.{is_blank}
use temporal_agents.Steering.Decision.{stop, proceeds}

abbrev some_place : Place
some_place = record { directory = lit "/repo"; repository = lit "/repo" }

abbrev no_commits : Failure
no_commits = record {
  type = some (lit "NoCommits");
  message = lit "no commits";
  is_canceled = false;
}

-- Steering is off, every activity succeeds, and the second implement pass commits nothing.
abbrev calm_answers : ReviewAnswers
calm_answers = record {
  run_id = lit "run";
  place = some_place;
  recorded = ok tt;
  instructions = ok [];
  settings = ok [];
  opened = λ round. ok tt;
  decided = λ round. ok (record { choice = accept; guidance = []; principal = [] });
  checkpoint = ok (record { head_sha = lit "abc"; stashed = true });
  implemented = ok (record { output = lit "done"; tokens = 20 });
  advanced = err no_commits;
  reviewed = ok (record { output = lit "fix this"; tokens = 7 });
  restored = ok tt;
  summarized = ok (lit "summary");
  settled = ok tt;
  summarized_failure = ok [];
}

abbrev first_input : ReviewInput
first_input = record {
  initiator = lit "ann";
  detached = false;
  work_dir = lit "/repo";
  payload = [];
  resets = 0;
  pass = 0;
  tokens_so_far = 100;
  summary = true;
  instructions = [];
  settings = [];
}

abbrev calm_loop : ℕ → ℕ → ReviewAnswers
calm_loop resets pass = calm_answers

abbrev choice_in : Result Failure Decision → Text
choice_in (ok d) = d.choice
choice_in (err e) = []

never_resets : NoResetAfter calm_loop 0
unfolding text_discrete
never_resets pass d h = sym (ap (λ r. same (choice_in r) continue) h)

review_workflow-EndsWith_example :
    EndsWith calm_answers first_input (review_workflow calm_answers first_input)
review_workflow-EndsWith_example = review_workflow-EndsWith calm_answers first_input

review_loop-ends_example : Returns calm_loop 5 first_input
review_loop-ends_example =
    review_loop-ends calm_loop 0 5 first_input never_resets (omega arith) (omega arith)
      (omega arith)

-- The run of the calm loop: one review, and then a session that finds nothing to commit.
abbrev calm_passes : Passes
calm_passes = elim (review_loop calm_loop 2 first_input) [
  | none ↦ ([], err no_commits)
  | some passes ↦ passes
]

abbrev calm_outcome : ReviewOutcome
calm_outcome = elim calm_passes.1 [ err e ↦ ended_by pass_cap [] | ok o ↦ o ]

calm_ending : calm_outcome.ending ≡ converged
unfolding review_loop text_discrete trim_space steered ended_by
calm_ending = refl

calm_total : spent_tokens calm_passes.0 ≡ 27
unfolding review_loop text_discrete trim_space steered spent_tokens
calm_total = refl

abbrev some_pr : PullRequest
some_pr = record { number = 12; url = lit "https://host/pr/12"; head_ref = lit "topic"; body = [] }

abbrev some_thread : ReviewThread
some_thread = record {
  id = lit "t1";
  path = lit "main.go";
  line = 3;
  author = lit "copilot";
  body = lit "rename this";
}

-- A review is still ongoing at the first check, and one thread is addressed.
abbrev pilot_answers : PilotAnswers
pilot_answers = record {
  run_id = lit "run";
  place = some_place;
  recorded = ok tt;
  instructions = ok [];
  settings = ok [];
  pull_request = ok some_pr;
  polling = still_ongoing settled;
  loaded = ok (some_thread ∷ []);
  opened = ok tt;
  decided = ok (record { choice = accept; guidance = []; principal = [] });
  checkpoint = ok (record { head_sha = lit "abc"; stashed = false });
  agent = ok (record { output = lit "done"; tokens = 40 });
  advanced = ok (lit "def" ∷ []);
  pushed = ok tt;
  replied = ok tt;
  requested = ok tt;
  restored = ok tt;
  summarized = ok (lit "summary");
  settled = ok tt;
  summarized_failure = ok [];
}

abbrev pilot_input : PilotInput
pilot_input = record {
  initiator = lit "ann";
  work_dir = lit "/repo";
  chain = true;
  tokens_so_far = 5;
  summary = false;
  chain_summary = [];
  instructions = [];
  settings = [];
}

pilot_workflow-EndsWith_example :
    Records.EndsWith pilot_answers pilot_input (pilot_workflow pilot_answers pilot_input)
pilot_workflow-EndsWith_example = pilot_workflow-EndsWith pilot_answers pilot_input

pilot_chains :
    (pilot_workflow pilot_answers pilot_input).result
    ≡ err (continue_as_new (record pilot_input { tokens_so_far = 45 }))
unfolding pilot_workflow text_discrete trim_space steered
pilot_chains = refl

-- The first dependency merges cleanly; the conflict of the second is resolved for 9 tokens.
abbrev is_one : List Text → Bool
is_one [] = false
is_one (b ∷ []) = true
is_one (b ∷ c ∷ bs) = false

abbrev seed_answers : List Text → SeedAnswers
seed_answers bs = record {
  merged = ok (record { head = lit "h1"; conflicted = is_one bs });
  resolved = ok (record { head = lit "h2"; tokens = 9 });
  aborted = ok tt;
}

all_plain : (bs : List Text) → PlainErrors (seed_answers bs)
all_plain bs e h = elim h [ inl merge_fails ↦ cc | inr abort_fails ↦ cc ]

abbrev develop_input : DevelopInput
develop_input = record {
  initiator = lit "ann";
  work_dir = lit "/repo";
  branch = lit "topic";
  worktrees_dir = [];
  start_point = [];
  merge_branches = lit "a" ∷ lit "b" ∷ [];
  prompt = lit "do it";
  summary = false;
  with_remote = false;
  await_review = true;
  settings = [];
}

abbrev seed_scope : Scope Command DevelopVars
seed_scope = record { log = []; vars = first_vars develop_input }

seed_branches-Outcome_example :
    Outcome
      (λ seeded _.
        (seeded.0 ≡ last_head seed_answers (lit "a" ∷ lit "b" ∷ []) [])
        × (seeded.1 ≡ 0 + tokens_in seed_answers (lit "a" ∷ lit "b" ∷ [])))
      (LeavesClean seed_answers (lit "/w"))
      (seed_branches seed_answers (lit "/w") (lit "a" ∷ lit "b" ∷ []) [] 0 seed_scope).0
      (seed_branches seed_answers (lit "/w") (lit "a" ∷ lit "b" ∷ []) [] 0 seed_scope).1
seed_branches-Outcome_example =
    seed_branches-Outcome seed_answers (lit "/w") (lit "a" ∷ lit "b" ∷ []) [] 0 seed_scope all_plain

abbrev develop_answers : DevelopAnswers
develop_answers = record {
  workflow_id = lit "develop-1";
  place = some_place;
  recorded = ok tt;
  created = ok (record { branch = lit "topic"; work_dir = lit "/w"; base_sha = lit "b0" });
  place_recorded = ok tt;
  seeds = seed_answers;
  developed = ok (record { output = []; tokens = 30 });
  ensured = ok (lit "c1" ∷ []);
  summarized = ok [];
  started = ok tt;
  reviewed = ok (ended_by converged (lit "fine"));
  opened = ok (record { summary = []; url = [] });
  piloted = ok [];
  settled = ok tt;
  summarized_failure = ok [];
}

abbrev developed_text : Text
developed_text = elim (develop_workflow develop_answers develop_input).result [
  | err e ↦ []
  | ok result ↦ result
]

develops : (develop_workflow develop_answers develop_input).result ≡ ok developed_text
unfolding develop_workflow text_discrete ended_by
develops = refl

develop_workflow-Reviewed_example :
    (o : ReviewOutcome) × (develop_answers.reviewed ≡ ok o) × (o.converged ≡ true)
develop_workflow-Reviewed_example =
    develop_workflow-Reviewed develop_answers develop_input developed_text refl refl develops

-- A branch of two components.
two_components : validate_branch_name (lit "topic/one") ≡ ok tt
unfolding validate_branch_name text_discrete has_prefix
two_components = refl

escaping : validate_branch_name (lit "topic/../../etc") ≡ err two_dots
unfolding validate_branch_name text_discrete has_prefix
escaping = refl

its_components : split_slash (lit "topic/one") ≡ lit "topic" ∷ lit "one" ∷ []
unfolding split_slash
its_components = refl

is_component : Memᴰ (lit "one") (split_slash (lit "topic/one"))
unfolding split_slash
is_component = Memᴰ.tail (Memᴰ.head refl)

validate_branch_name-StaysBelow_example :
    StaysBelow (lit "one") × (join (lit "/") (split_slash (lit "topic/one")) ≡ lit "topic/one")
validate_branch_name-StaysBelow_example =
    validate_branch_name-StaysBelow (lit "topic/one") (lit "one") refl two_components is_component

-- The pilot of a remote pipeline fails.
abbrev remote_answers : DevelopAnswers
remote_answers = record develop_answers {
  opened = ok (record { summary = []; url = lit "https://host/pr/12" });
  piloted = err no_commits;
}

abbrev remote_scope : Scope Command DevelopVars
remote_scope = record { log = []; vars = first_vars develop_input }

develop_remotely-pr_url_example :
    PointsWell remote_answers
      (settled_row
        (develop_remotely remote_answers develop_input [] 30 [] remote_scope).0.vars.row
        (develop_remotely remote_answers develop_input [] 30 [] remote_scope).1).pr_url
      (develop_remotely remote_answers develop_input [] 30 [] remote_scope).1
develop_remotely-pr_url_example =
    develop_remotely-pr_url remote_answers develop_input [] 30 [] remote_scope

abbrev remote_result : Text
remote_result =
    elim (develop_with_remote develop_answers develop_input [] 30 [] remote_scope).result [
      | err e ↦ []
      | ok result ↦ result
    ]

remote_ends :
    (develop_with_remote develop_answers develop_input [] 30 [] remote_scope).result
    ≡ ok remote_result
unfolding develop_with_remote
remote_ends = refl

develop_with_remote-ok_example :
    ((o : ReviewOutcome) × (develop_answers.reviewed ≡ ok o))
    × ((pr : OpenPrResult) × (develop_answers.opened ≡ ok pr))
    × ((summary : Text) × (develop_answers.piloted ≡ ok summary))
develop_with_remote-ok_example =
    develop_with_remote-ok develop_answers develop_input [] 30 [] remote_scope remote_result
      remote_ends

-- The operator stops a steered loop before the findings are implemented.
abbrev stop_answers : ReviewAnswers
stop_answers = record calm_answers {
  decided = λ round. ok (record { choice = stop; guidance = []; principal = [] });
}

abbrev steered_input : ReviewInput
steered_input = record first_input {
  payload = lit "fix this";
  settings =
      record {
        key = lit "steering.enabled";
        enabled = true;
        scope = lit "global";
        version = 1;
        hash = [];
      }
      ∷ [];
}

is_steered : steered steered_input.settings ≡ true
unfolding steered text_discrete
is_steered = refl

has_findings : is_blank (trim_space steered_input.payload) ≡ false
unfolding trim_space
has_findings = refl

has_stopped : proceeds (record { choice = stop; guidance = []; principal = [] }) ≡ false
unfolding proceeds text_discrete
has_stopped = refl

review_workflow-is_untouched_example :
    is_untouched (review_workflow stop_answers steered_input).log ≡ true
review_workflow-is_untouched_example =
    review_workflow-is_untouched stop_answers steered_input
      (record { choice = stop; guidance = []; principal = [] }) refl has_findings is_steered refl
      has_stopped
