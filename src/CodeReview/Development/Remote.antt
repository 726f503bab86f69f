-- ===== src/CodeReview/Development/Remote.antt =====
-- The remote pipeline of a develop run.
use Prim.Native.Nat.{ℕ}
use mathlib.Core.Path.{◌≡◌, refl}
use mathlib.Core.Logic.{◌⊎◌, inl, inr}
use mathlib.Core.List.{List, []}
use native.Mathlib.Omega.{arith}
use temporal_agents.Prelude.{Text, Result, ok, err}
use temporal_agents.Runs.{Failure, Stop, failed, Scope}
use temporal_agents.CodeReview.Inputs.{DevelopInput, ReviewOutcome}
use temporal_agents.CodeReview.Commands.{Command}
use temporal_agents.CodeReview.Develop.{DevelopAnswers, DevelopVars, OpenPrResult}
use temporal_agents.CodeReview.Development.{
  remote_pilot, remote_opened, remote_reviewed, develop_with_remote, fold_pr_url, develop_remotely,
}
use temporal_agents.CodeReview.Branch.{settled_row}

-- Where the pipeline gets by its review and its pull request, as its children answer.
abbrev pub OpensAt : DevelopAnswers → Text → Type 0
OpensAt a url =
    ((o : ReviewOutcome) × (a.reviewed ≡ ok o))
    × ((pr : OpenPrResult) × (a.opened ≡ ok pr) × (pr.url ≡ url))

-- The review or the opening of the pull request failed.
abbrev pub OpensNone : DevelopAnswers → Type 0
OpensNone a = ((e : Failure) × (a.reviewed ≡ err e)) ⊎ ((e : Failure) × (a.opened ≡ err e))

-- A row points at that pull request, or at none where there is none, and then the run has failed.
abbrev pub PointsWell : DevelopAnswers → Text → Result (Stop ⊥) Text → Type 0
PointsWell a url r =
    OpensAt a url ⊎ (OpensNone a × (url ≡ []) × ((e : Failure) × (r ≡ err (failed e))))

remote_opened-pr_url :
    (a : DevelopAnswers) (input : DevelopInput) (commits : List Text) (tokens : ℕ)
    (r : Result Failure OpenPrResult) (s : Scope Command DevelopVars) (o : ReviewOutcome)
    → a.reviewed ≡ ok o
    → a.opened ≡ r
    → PointsWell a
        (remote_opened a input commits tokens r s).pr_url
        (remote_opened a input commits tokens r s).result
unfolding remote_opened
remote_opened-pr_url a input commits tokens (ok pr) s o reviewed opened =
    inl ((o, reviewed), (pr, opened, refl))
remote_opened-pr_url a input commits tokens (err e) s o reviewed opened =
    inr (inr (e, opened), refl, (_, refl))

remote_reviewed-pr_url :
    (a : DevelopAnswers) (input : DevelopInput) (commits : List Text) (tokens : ℕ)
    (r : Result Failure ReviewOutcome) (s : Scope Command DevelopVars)
    → a.reviewed ≡ r
    → PointsWell a
        (remote_reviewed a input commits tokens r s).pr_url
        (remote_reviewed a input commits tokens r s).result
unfolding remote_reviewed
remote_reviewed-pr_url a input commits tokens (ok o) s reviewed =
    remote_opened-pr_url a input commits tokens a.opened _ o reviewed refl
remote_reviewed-pr_url a input commits tokens (err e) s reviewed =
    inr (inl (e, reviewed), refl, (_, refl))

-- The row that a develop run with a remote pipeline gives to its terminal write points at the pull request that the pipeline opened after its review, whether the pilot that follows succeeds or fails; it points at none only when the review or the opening failed, and then the run fails.
pub develop_remotely-pr_url :
    (a : DevelopAnswers) (input : DevelopInput) (commits : List Text) (tokens : ℕ) (body : Text)
    (s : Scope Command DevelopVars)
    → PointsWell a
        (settled_row
          (develop_remotely a input commits tokens body s).0.vars.row
          (develop_remotely a input commits tokens body s).1).pr_url
        (develop_remotely a input commits tokens body s).1
unfolding develop_remotely develop_with_remote fold_pr_url settled_row
develop_remotely-pr_url a input commits tokens body s =
    remote_reviewed-pr_url a input commits tokens a.reviewed _ refl

-- A remote pipeline ends well only when the review, the pull request and the pilot have all ended well.
pub develop_with_remote-ok :
    (a : DevelopAnswers) (input : DevelopInput) (commits : List Text) (tokens : ℕ) (body : Text)
    (s : Scope Command DevelopVars) (result : Text)
    → (develop_with_remote a input commits tokens body s).result ≡ ok result
    → ((o : ReviewOutcome) × (a.reviewed ≡ ok o))
      × ((pr : OpenPrResult) × (a.opened ≡ ok pr))
      × ((summary : Text) × (a.piloted ≡ ok summary))
unfolding develop_with_remote remote_reviewed remote_opened remote_pilot
develop_with_remote-ok a input commits tokens body s result h = ground arith
