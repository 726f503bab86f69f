-- ===== src/CodeReview/Budget/Endings.antt =====
-- How a pass ends within the budget of passes, and what its row says by then.
use Prim.Native.Nat.{suc, ◌<◌}
use mathlib.Core.Path.{◌≡◌, refl, sym, ap}
use mathlib.Core.Logic.{inl, inr}
use mathlib.Core.Bool.{Bool, true, false, not}
use native.Mathlib.Omega.{arith}
use temporal_agents.Prelude.{Text, same, leb, trim_space}
use temporal_agents.Runs.{Scope, ◌>>=◌, read}
use temporal_agents.Runs.Laws.{Triple, >>=-Triple, Triple-strengthen, read-Triple, assign-Triple}
use temporal_agents.Steering.Decision.{Decision, continue, accept}
use temporal_agents.Steering.Rounds.{pass_limit}
use temporal_agents.CodeReview.Inputs.{
  ReviewInput, operator_accepted, pass_cap, is_converged, ended_by, Checkpoint, max_review_passes,
}
use temporal_agents.CodeReview.Commands.{Command, is_blank, steered}
use temporal_agents.CodeReview.Local.{
  ReviewAnswers, ReviewVars, Implemented, ended, went_on, implement_payload, set_ending,
}
use temporal_agents.CodeReview.Budget.{
  review_branch, at_limit, spend_budget, hand_over, after_implement, review_body,
}
use temporal_agents.CodeReview.Local.Endings.{
  IsKept, Fails, Ends, IsLast, Decides, ImplementedWell, pause-Triple, end_with-Triple,
  implement_payload-Triple, resolve_inputs-Triple,
}

module _ (a : ReviewAnswers) (input : ReviewInput) where
  review_branch-Triple :
      (cp : Checkpoint)
      → Triple (IsKept a input) (review_branch a cp) (λ _. (IsKept a input)) (Fails a input)
  unfolding review_branch
  review_branch-Triple cp = record { ends = λ s k. ground arith }

  at_limit-Triple :
      (continues accepts : Bool) (output : Text)
      → Triple
          (λ s.
            (IsKept a input) s
            × (IsLast a input)
            × ((d : Decision) × (Decides a input) pass_limit d
                × (same d.choice continue ≡ continues)
                × (same d.choice accept ≡ accepts)))
          (at_limit a continues accepts output)
          (Ends a input)
          (Fails a input)
  unfolding at_limit ended_by is_converged
  at_limit-Triple true accepts output = record { ends = λ s h. ground arith }
  at_limit-Triple false true output = record {
    ends = λ s h. (end_with-Triple a input operator_accepted _ _).ends _ (
      record {
        balance = h.0.balance;
        same_pass = h.0.same_pass;
        same_resets = h.0.same_resets;
        ran_under = h.0.ran_under;
        counted = h.0.counted;
      },
      refl,
      refl,
      (h.1, (h.2.0, h.2.1, h.2.3)),
    );
  }
  at_limit-Triple false false output = record {
    ends = λ s h. record {
      kept = record {
        balance = h.0.balance;
        same_pass = h.0.same_pass;
        same_resets = h.0.same_resets;
        ran_under = h.0.ran_under;
        counted = h.0.counted;
      };
      row_ending = refl;
      row_converged = refl;
      is_its_ending = refl;
      reason = inr (h.1, h.2);
      summary_total = (_, refl);
    };
  }

  -- What the branch on the budget is taken by.
  Branching : (is_last is_steered : Bool) → Scope Command ReviewVars → Type 0
  Branching is_last is_steered s =
      (IsKept a input) s
      × (is_last ≡ leb max_review_passes (suc s.vars.input.pass))
      × (is_steered ≡ steered s.vars.input.settings)

  spend_budget-Triple :
      (is_steered : Bool) (output : Text)
      → (IsLast a input)
      → Triple
          (Branching true is_steered)
          (spend_budget a is_steered output)
          (Ends a input)
          (Fails a input)
  unfolding spend_budget Branching is_converged
  spend_budget-Triple true output is_last = read-Triple (λ v.
      >>=-Triple {next = λ d. at_limit a (same d.choice continue) (same d.choice accept) output}
        (Triple-strengthen (λ s h. h.0.0) (pause-Triple a input pass_limit _))
        (λ d.
          Triple-strengthen (λ s h. (h.0, is_last, (d, h.1, refl, refl)))
            (at_limit-Triple (same d.choice continue) (same d.choice accept) output)))
  spend_budget-Triple false output is_last =
      assign-Triple (set_ending pass_cap false)
        (λ s h. (
          record {
            balance = h.0.balance;
            same_pass = h.0.same_pass;
            same_resets = h.0.same_resets;
            ran_under = h.0.ran_under;
            counted = h.0.counted;
          },
          refl,
          refl,
          (is_last, (_, h.0.ran_under, sym h.2)),
        ))
        (end_with-Triple a input pass_cap _ _)

  use_last :
      (s : Scope Command ReviewVars)
      → (IsKept a input) s
      → true ≡ leb max_review_passes (suc s.vars.input.pass)
      → (IsLast a input)
  use_last s k e = let same_pass = k.same_pass in ground arith

  use_next :
      (s : Scope Command ReviewVars)
      → (IsKept a input) s
      → false ≡ leb max_review_passes (suc s.vars.input.pass)
      → suc input.pass < max_review_passes
  use_next s k e = let same_pass = k.same_pass in ground arith

  hand_over-Triple :
      (is_last is_steered : Bool) (output : Text)
      → Triple
          (Branching is_last is_steered)
          (hand_over a is_last is_steered output)
          (Ends a input)
          (Fails a input)
  unfolding hand_over Branching
  hand_over-Triple true is_steered output = record {
    ends = λ s h. (spend_budget-Triple is_steered output (use_last s h.0 h.1)).ends s h;
  }
  hand_over-Triple false is_steered output = record {
    ends = λ s h. (h.0, (refl, inl (use_next s h.0 h.1, ap suc h.0.same_pass, h.0.same_resets)));
  }

  after_implement-Triple :
      (i : Implemented)
      → Triple ((ImplementedWell a input) i) (after_implement a i) (Ends a input) (Fails a input)
  unfolding after_implement ImplementedWell Branching
  after_implement-Triple (ended o) = record { ends = λ s h. h }
  after_implement-Triple (went_on cp) =
      >>=-Triple
        {next = λ output. read >>= (λ v.
          hand_over a (leb max_review_passes (suc v.input.pass)) (steered v.input.settings) output)}
        (review_branch-Triple cp)
        (λ output. record {
          ends = λ s k.
              (hand_over-Triple (leb max_review_passes (suc s.vars.input.pass))
                  (steered s.vars.input.settings) output).ends
                s (k, refl, refl);
        })

  -- The body of a pass, from what `startReviewState` leaves.
  pub review_body-Triple : Triple (IsKept a input) (review_body a) (Ends a input) (Fails a input)
  unfolding review_body
  review_body-Triple =
      >>=-Triple
        {next = λ _. read >>= (λ v.
          implement_payload a (not (is_blank (trim_space v.input.payload)))
            (steered v.input.settings)
          >>= after_implement a)}
        (resolve_inputs-Triple a input)
        (λ _. record {
          ends = λ s k.
              (>>=-Triple {next = after_implement a}
                  (implement_payload-Triple a input
                    (not (is_blank (trim_space s.vars.input.payload)))
                    (steered s.vars.input.settings))
                  after_implement-Triple).ends
                s k;
        })
