-- ===== src/CodeReview/Branch/Reviewed.antt =====
-- What a develop run that awaits its review promises about it.
use Prim.Native.Nat.{ℕ, ◌+◌}
use mathlib.Core.Path.{◌≡◌, ap, ◌∙◌}
use mathlib.Core.Bool.{true, false}
use mathlib.Core.List.{List, [], ◌∷◌}
use native.Mathlib.Omega.{arith}
use temporal_agents.Prelude.{Text, Result, ok, err}
use temporal_agents.Runs.{Failure, Stop, Scope, ◌>>◌}
use temporal_agents.Runs.Laws.{
  Outcome, Triple, >>=-Triple, ask-Triple, read-Triple, assign-Triple, Triple-any,
}
use temporal_agents.CodeReview.Inputs.{DevelopInput, ReviewOutcome}
use temporal_agents.CodeReview.Commands.{Command, persist_develop, summarize_for_webhook, probed}
use temporal_agents.CodeReview.Develop.{DevelopAnswers, DevelopVars, CreatedBranch}
use temporal_agents.CodeReview.Development.{
  after_review, develop_and_await_review, after_development, develop_from, with_commits,
  after_session, develop_body, develop_created, seed_and_develop, seed, record_place, probe_there,
  moved,
}
use temporal_agents.CodeReview.Branch.{
  settle, run_started, started_row, first_vars, develop_workflow,
}

module _ (a : DevelopAnswers) where
  -- The run awaits its review and opens no pull request.
  abbrev pub AwaitsReview : DevelopInput → Type 0
  AwaitsReview i = (i.with_remote ≡ false) × (i.await_review ≡ true)

  at : {v w : DevelopVars} → AwaitsReview v.input → w ≡ v → AwaitsReview w.input
  at h e = (ap (λ v. v.input.with_remote) e ∙ h.0, ap (λ v. v.input.await_review) e ∙ h.1)

  abbrev pub Reviewed : Text → Scope Command DevelopVars → Type 0
  Reviewed result s = (o : ReviewOutcome) × (a.reviewed ≡ ok o) × (o.converged ≡ true)

  abbrev Any : Stop ⊥ → Scope Command DevelopVars → Type 0
  Any e s = Unit {0}

  after_review-Triple :
      (i : DevelopInput) (commits : List Text) (tokens : ℕ) (body : Text) (o : ReviewOutcome)
      → a.reviewed ≡ ok o
      → Triple (λ _. Unit {0}) (after_review i commits tokens body o) Reviewed Any
  unfolding after_review
  after_review-Triple i commits tokens body o got = record { ends = λ s _. ground arith }

  develop_and_await_review-Triple :
      (i : DevelopInput) (commits : List Text) (tokens : ℕ) (body : Text)
      → Triple (λ _. Unit {0}) (develop_and_await_review a i commits tokens body) Reviewed Any
  unfolding develop_and_await_review
  develop_and_await_review-Triple i commits tokens body = record { ends = λ s _. ground arith }

  after_development-Triple :
      (i : DevelopInput) (commits : List Text) (tokens : ℕ) (body : Text)
      → i.with_remote ≡ false
      → i.await_review ≡ true
      → Triple
          (λ _. Unit {0})
          (after_development a i.with_remote i.await_review i commits tokens body)
          Reviewed
          Any
  unfolding after_development
  after_development-Triple i commits tokens body no_remote awaits =
      rw (no_remote, awaits)
        (record { ends = λ s _. (develop_and_await_review-Triple i commits tokens body).ends _ tt })

  -- What the run of `i` does after its session.
  with_commits-Triple :
      (i : DevelopInput) (tokens : ℕ) (commits : List Text)
      → AwaitsReview i
      → Triple (λ _. Unit {0}) (with_commits a i tokens commits) Reviewed Any
  unfolding with_commits
  with_commits-Triple i tokens commits h =
      >>=-Triple
        {next = λ body. after_development a i.with_remote i.await_review i commits tokens body}
        (Triple-any (summarize_for_webhook i.summary true i.work_dir a.summarized))
        (λ body. after_development-Triple i commits tokens body h.0 h.1)

  after_session-Triple :
      (i : DevelopInput) (base : Text) (tokens : ℕ)
      → AwaitsReview i
      → Triple (λ _. Unit {0}) (after_session a i base tokens) Reviewed Any
  unfolding after_session
  after_session-Triple i base tokens h =
      assign-Triple {P' = λ _. Unit {0}}
        (λ w. record w { agent_ran = true; row = record w.row { tokens = tokens } }) (λ s _. tt)
        (ask-Triple {P' = λ _. Unit {0}} {next = with_commits a i tokens} _ a.ensured (λ s _. tt)
          (λ e got s _. tt) (λ commits got. with_commits-Triple i tokens commits h))

  develop_from-Triple :
      (i : DevelopInput) (base : Text) (seed_tokens : ℕ)
      → AwaitsReview i
      → Triple (λ _. Unit {0}) (develop_from a i base seed_tokens) Reviewed Any
  unfolding develop_from
  develop_from-Triple i base seed_tokens h =
      ask-Triple {P' = λ _. Unit {0}} {next = λ r. after_session a i base (r.tokens + seed_tokens)}
        _ a.developed (λ s _. tt) (λ e got s _. tt)
        (λ r got. after_session-Triple i base (r.tokens + seed_tokens) h)

  seed_and_develop-Triple :
      (i : DevelopInput) (base : Text)
      → AwaitsReview i
      → Triple (λ _. Unit {0}) (seed_and_develop a i base) Reviewed Any
  unfolding seed_and_develop
  seed_and_develop-Triple i base h =
      >>=-Triple {next = λ seeded. develop_from a i seeded.0 seeded.1}
        (Triple-any (seed a i.merge_branches base))
        (λ seeded. develop_from-Triple i seeded.0 seeded.1 h)

  -- From a branch that has been created.
  develop_created-Triple :
      (created : CreatedBranch)
      → Triple (λ s. AwaitsReview s.vars.input) (develop_created a created) Reviewed Any
  unfolding develop_created
  develop_created-Triple created = record {
    ends = λ s h.
        let i = (moved created s.vars).input in
        let there = probed i.work_dir a.place in
        (>>=-Triple {P = λ _. Unit {0}}
            {next = λ _.
              record_place there a.place_recorded >> seed_and_develop a i created.base_sha}
            (Triple-any (probe_there i.work_dir))
            (λ _.
              >>=-Triple {next = λ _. seed_and_develop a i created.base_sha}
                (Triple-any (record_place there a.place_recorded))
                (λ _. seed_and_develop-Triple i created.base_sha h))).ends
          (record s { vars = moved created s.vars }) tt;
  }

  develop_body-Triple : Triple (λ s. AwaitsReview s.vars.input) (develop_body a) Reviewed Any
  unfolding develop_body
  develop_body-Triple = read-Triple (λ v.
      ask-Triple {P' = λ s. AwaitsReview s.vars.input} {next = develop_created a} _ a.created
        (λ s h. h.0) (λ e got s _. tt) (λ created got. develop_created-Triple created))

  ends_reviewed :
      (s : Scope Command DevelopVars) (r : Result (Stop ⊥) Text) {result : Text}
      → Outcome Reviewed Any s r
      → (settle a s r).result ≡ ok result
      → (o : ReviewOutcome) × (a.reviewed ≡ ok o) × (o.converged ≡ true)
  unfolding settle
  ends_reviewed s (ok x) reviewed h = reviewed
  ends_reviewed s (err e) reviewed h = cc

  started_reviewed :
      (input : DevelopInput) (recorded : Result Failure (Unit {0})) {result : Text}
      → AwaitsReview input
      → (run_started a input recorded).result ≡ ok result
      → (o : ReviewOutcome) × (a.reviewed ≡ ok o) × (o.converged ≡ true)
  unfolding run_started
  started_reviewed input (err e) awaits h = cc
  started_reviewed input (ok _) awaits h =
      let s : Scope Command DevelopVars = record {
        log = persist_develop (started_row input) ∷ [];
        vars = first_vars input;
      } in
      ends_reviewed (develop_body a s).0 (develop_body a s).1 (develop_body-Triple.ends s awaits) h

-- A develop run that awaits its review and opens no pull request succeeds only when the review loop converged: a review that the operator stopped or accepted, or that spent its passes, does not let a dependent node start.
pub develop_workflow-Reviewed :
    (a : DevelopAnswers) (input : DevelopInput) (result : Text)
    → input.with_remote ≡ false
    → input.await_review ≡ true
    → (develop_workflow a input).result ≡ ok result
    → (o : ReviewOutcome) × (a.reviewed ≡ ok o) × (o.converged ≡ true)
unfolding develop_workflow
develop_workflow-Reviewed a input result no_remote awaits h =
    started_reviewed a input a.recorded (no_remote, awaits) h
