-- ===== src/CodeReview/Loop/Passes.antt =====
-- The passes of the local review loop: the loop ends, and the records of its passes add up.
use Prim.Native.Nat.{ℕ, suc, zero, ◌+◌, ◌*◌, ◌≤◌, ◌<◌}
use mathlib.Core.Path.{◌≡◌, refl, subst, sym, ap, ◌∙◌}
use mathlib.Core.Logic.{◌⊎◌, inl, inr}
use mathlib.Core.Bool.{true, false}
use mathlib.Core.List.{List, [], ◌∷◌}
use mathlib.Core.Option.{Option, some}
use native.Mathlib.Omega.{arith}
use temporal_agents.Prelude.{Result, ok, err, same, length}
use temporal_agents.Runs.{Failure, Stop, failed, continue_as_new}
use temporal_agents.Steering.Decision.{Decision, continue}
use temporal_agents.Steering.Rounds.{pass_limit}
use temporal_agents.CodeReview.Inputs.{ReviewInput, ReviewOutcome, max_review_passes}
use temporal_agents.CodeReview.Local.{ReviewAnswers}
use temporal_agents.CodeReview.Loop.{
  ReviewPass, Passes, then_passes, after_pass, review_workflow, review_loop,
}
use temporal_agents.CodeReview.Local.Endings.{IsNextPass, session_tokens}
use temporal_agents.CodeReview.Loop.Records.{ComesTo, review_workflow-EndsWith, review_workflow-met}

-- The tokens of the sessions that a pass started.
abbrev pub pass_tokens : ReviewPass → ℕ
pass_tokens pass = session_tokens pass.met pass.log

unfoldable pub spent_tokens : List ReviewPass → ℕ
spent_tokens [] = 0
spent_tokens (pass ∷ passes) = pass_tokens pass + spent_tokens passes

-- What a pass has come to, in its own tokens.
review_workflow-ComesTo :
    (a : ReviewAnswers) (input : ReviewInput)
    → ComesTo a input (pass_tokens (review_workflow a input)) (review_workflow a input).result
review_workflow-ComesTo a input =
    subst
      (λ b.
        ComesTo a input (session_tokens b (review_workflow a input).log)
          (review_workflow a input).result)
      (review_workflow-met a input) (review_workflow-EndsWith a input).0

more_passes : {n : ℕ} (passes : List ReviewPass) → length passes ≤ n → suc (length passes) ≤ suc n
more_passes passes h = omega arith

at_or_below : (a b : ℕ) → a ≤ b → (a ≡ b) ⊎ (a < b)
at_or_below a b h = ground arith

-- Passes that have ended with a result, and are so many at most.
abbrev pub Returned : ℕ → Option Passes → Type 0
Returned most run =
    (passes : List ReviewPass) × (result : Result Failure ReviewOutcome) × (run
      ≡ some (passes, result))
    × (length passes ≤ most)

module _ (answers : ℕ → ℕ → ReviewAnswers) where
  -- The operator grants no new budget at the limit after `last` resets.
  abbrev pub NoResetAfter : ℕ → Type 0
  NoResetAfter last =
      (pass : ℕ) (d : Decision)
      → (answers last pass).decided pass_limit ≡ ok d
      → same d.choice continue ≡ false

  -- A run that ends with a result.
  abbrev pub Returns : ℕ → ReviewInput → Type 0
  Returns fuel input = Returned fuel (review_loop answers fuel input)

  begins_with_fuel :
      (last : ℕ) (input : ReviewInput)
      → input.resets ≤ last
      → input.pass < max_review_passes
      → ¬ (max_review_passes * suc last ≤ 0 + (max_review_passes * input.resets + input.pass))
  begins_with_fuel last input within begun enough = omega arith

  stops_at :
      (last : ℕ) (input : ReviewInput)
      → NoResetAfter last
      → input.resets ≡ last
      → (d : Decision) → (answers input.resets input.pass).decided pass_limit ≡ ok d
      → same d.choice continue ≡ true
      → ⊥
  stops_at last input stops at d decides grants =
      let stopped : same d.choice continue ≡ false =
        stops input.pass d
          (ap (λ n. (answers n input.pass).decided pass_limit) (sym at) ∙ decides) in
      cc

  -- The next pass is within the bounds of the one before, with less fuel.
  next_fits :
      (last fuel : ℕ) (input next : ReviewInput)
      → NoResetAfter last
      → input.resets ≤ last
      → input.pass < max_review_passes
      → max_review_passes * suc last ≤ suc fuel + (max_review_passes * input.resets + input.pass)
      → IsNextPass (answers input.resets input.pass) input next
      → (next.resets ≤ last)
        × (next.pass < max_review_passes)
        × (max_review_passes * suc last ≤ fuel + (max_review_passes * next.resets + next.pass))
  next_fits last fuel input next stops within begun enough (inl (more, p, r)) =
      (omega arith, omega arith, omega arith)
  next_fits last fuel input next stops within begun enough
        (inr (is_last, p, r, (d, decides, grants))) =
      elim (at_or_below input.resets last within) [
        | inl at ↦ elim (stops_at last input stops at d decides grants) [ ]
        | inr below ↦ (omega arith, omega arith, omega arith)
      ]

  ends_after :
      (last fuel : ℕ) (input : ReviewInput) (pass : ReviewPass)
      (r : Result (Stop ReviewInput) ReviewOutcome)
      → NoResetAfter last
      → input.resets ≤ last
      → input.pass < max_review_passes
      → max_review_passes * suc last ≤ suc fuel + (max_review_passes * input.resets + input.pass)
      → ComesTo (answers input.resets input.pass) input (pass_tokens pass) r
      → ((next : ReviewInput)
          → next.resets ≤ last
          → next.pass < max_review_passes
          → max_review_passes * suc last ≤ fuel + (max_review_passes * next.resets + next.pass)
          → Returns fuel next)
      → Returned (suc fuel) (after_pass pass r (λ next. review_loop answers fuel next))
  ends_after last fuel input pass (ok o) stops within begun enough ends later =
      (pass ∷ [], ok o, refl, omega arith)
  ends_after last fuel input pass (err (failed e)) stops within begun enough ends later =
      (pass ∷ [], err e, refl, omega arith)
  ends_after last fuel input pass (err (continue_as_new next)) stops within begun enough ends
        later =
      let (within', begun', enough') =
        next_fits last fuel input next stops within begun enough ends.1 in
      let (passes, result, e, few) = later next within' begun' enough' in
      (pass ∷ passes, result, ap (then_passes pass) e, more_passes passes few)

  -- The local review loop ends. From an input with fewer than five passes and at most `last` resets, when the operator grants no new budget at the limit after `last` resets, fuel for five passes of every budget that is left is enough for a result, and bounds the number of passes, whatever else the activities, the agents and the operator answer.
  pub review_loop-ends :
      (last fuel : ℕ) (input : ReviewInput)
      → NoResetAfter last
      → input.resets ≤ last
      → input.pass < max_review_passes
      → max_review_passes * suc last ≤ fuel + (max_review_passes * input.resets + input.pass)
      → Returns fuel input
  unfolding review_loop
  review_loop-ends last zero input stops within begun enough =
      elim (begins_with_fuel last input within begun enough) [ ]
  review_loop-ends last (suc fuel) input stops within begun enough =
      let a = answers input.resets input.pass in
      ends_after last fuel input (review_workflow a input) (review_workflow a input).result stops
        within begun enough (review_workflow-ComesTo a input)
        (λ next within' begun' enough'.
          review_loop-ends last fuel next stops within' begun' enough')
