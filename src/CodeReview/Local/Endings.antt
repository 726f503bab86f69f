-- ===== src/CodeReview/Local/Endings.antt =====
-- How a pass of the local review loop ends, what its row says, and what the next pass is given.
use Prim.Native.Nat.{ℕ, suc, ◌+◌, ◌≤◌, ◌<◌}
use mathlib.Core.Path.{◌≡◌, refl, sym, ap, ◌∙◌}
use mathlib.Core.Logic.{◌⊎◌, inl, inr}
use mathlib.Core.Bool.{Bool, true, false}
use mathlib.Core.List.{List, [], ◌∷◌}
use mathlib.Core.Option.{Option, none, some}
use native.Mathlib.Omega.{arith}
use temporal_agents.Prelude.{Text, lit, Result, ok, err, same, if◌then◌else◌, Bool-cases}
use temporal_agents.Runs.{Failure, Stop, failed, continue_as_new, Scope, ◌>>=◌, ◌>>◌, give, assign}
use temporal_agents.Runs.Laws.{
  Triple, >>=-Triple, Triple-strengthen, read-Triple, assign-Triple, give-Triple, ask-Triple,
}
use temporal_agents.Settings.Catalogue.{Resolution}
use temporal_agents.Steering.Decision.{Decision, continue, accept, proceeds}
use temporal_agents.Steering.Rounds.{Round, local_review, pass_limit}
use temporal_agents.CodeReview.Inputs.{
  ReviewInput, ReviewOutcome, Ending, converged, operator_accepted, operator_stopped, pass_cap,
  is_converged, ended_by, with_token_total, Checkpoint, AgentResult, max_review_passes,
}
use temporal_agents.CodeReview.Commands.{
  run_implement_agent, run_review_agent, Command, Notification, notify_complete, is_type, steered,
}
use temporal_agents.CodeReview.Local.{
  ReviewAnswers, ReviewVars, Implemented, ended, went_on, resolve_inputs, pause, end_with,
  guidance_of, after_advance, after_agent, implement_from, implement_with, implement_payload,
  set_ending,
}

-- What an agent's session costs, by its answer.
abbrev pub tokens_of : Result Failure AgentResult → ℕ
tokens_of (ok r) = r.tokens
tokens_of (err e) = 0

abbrev pub cost_of : ReviewAnswers → Command → ℕ
cost_of a command = elim command [
  | run_implement_agent payload guidance ↦ tokens_of a.implemented
  | run_review_agent dir ↦ tokens_of a.reviewed
  | _ ↦ 0
]

-- The tokens of the sessions that a log starts, each of them as often as it is started.
abbrev pub session_tokens : ReviewAnswers → List Command → ℕ
session_tokens a [] = 0
session_tokens a (command ∷ log) = cost_of a command + session_tokens a log

add_comm : (m n : ℕ) → m + n ≡ n + m
add_comm m n = omega arith

zero_add : (n : ℕ) → n ≡ 0 + n
zero_add n = omega arith

module _ (a : ReviewAnswers) (input : ReviewInput) where
  -- The settings are those that the input carries, or those that the activity resolved.
  abbrev pub RanUnder : Resolution → Type 0
  RanUnder settings = (settings ≡ input.settings) ⊎ (a.settings ≡ ok settings)

  -- What every step of a pass keeps.
  pub record IsKept (s : Scope Command ReviewVars) : Type 0 where
    pub balance : s.vars.total ≡ input.tokens_so_far + s.vars.row.tokens
    pub same_pass : s.vars.input.pass ≡ input.pass
    pub same_resets : s.vars.input.resets ≡ input.resets
    pub ran_under : RanUnder s.vars.input.settings
    pub counted : s.vars.row.tokens ≡ session_tokens a s.log

  -- The operator's decision in a round.
  abbrev pub Decides : Round → Decision → Type 0
  Decides round d = a.decided round ≡ ok d

  abbrev pub IsLast : Type 0
  IsLast = max_review_passes ≤ suc input.pass

  -- Why a loop ends in each of the four ways.
  abbrev pub Reason : Ending → Type 0
  Reason converged = (e : Failure) × (a.advanced ≡ err e) × (is_type e (lit "NoCommits") ≡ true)
  Reason operator_accepted =
      IsLast × ((d : Decision) × Decides pass_limit d × (same d.choice accept ≡ true))
  Reason operator_stopped =
      ((d : Decision) × Decides local_review d × (proceeds d ≡ false))
      ⊎ (IsLast
          × ((d : Decision) × Decides pass_limit d
              × (same d.choice continue ≡ false)
              × (same d.choice accept ≡ false)))
  Reason pass_cap =
      IsLast × ((settings : Resolution) × RanUnder settings × (steered settings ≡ false))

  -- The next pass: one more of the budget, or the first of a new budget that the operator grants.
  abbrev pub IsNextPass : ReviewInput → Type 0
  IsNextPass next =
      ((suc input.pass < max_review_passes)
        × (next.pass ≡ suc input.pass)
        × (next.resets ≡ input.resets))
      ⊎ (IsLast
          × (next.pass ≡ 0)
          × (next.resets ≡ suc input.resets)
          × ((d : Decision) × Decides pass_limit d × (same d.choice continue ≡ true)))

  -- What the next pass is given.
  abbrev pub IsNext : ReviewInput → ℕ → Type 0
  IsNext next total = (next.tokens_so_far ≡ total) × IsNextPass next

  -- The row of a pass that ends the loop says how, and so does the outcome.
  pub record Ends (o : ReviewOutcome) (s : Scope Command ReviewVars) : Type 0 where
    pub kept : IsKept s
    pub row_ending : s.vars.row.ending ≡ some o.ending
    pub row_converged : s.vars.row.converged ≡ some o.converged
    pub is_its_ending : o.converged ≡ is_converged o.ending
    pub reason : Reason o.ending
    pub summary_total : (text : Text) × (o.summary ≡ with_token_total text s.vars.total)

  abbrev pub Fails : Stop ReviewInput → Scope Command ReviewVars → Type 0
  Fails (failed e) s = IsKept s
  Fails (continue_as_new next) s = IsKept s × IsNext next s.vars.total

  pub resolve_inputs-Triple : Triple IsKept (resolve_inputs a) (λ _. IsKept) Fails
  unfolding resolve_inputs
  resolve_inputs-Triple = record { ends = λ s k. ground arith }

  pub pause-Triple :
      (round : Round) (material : Text)
      → Triple IsKept (pause a round material) (λ d s. IsKept s × Decides round d) Fails
  unfolding pause
  pause-Triple round material = record { ends = λ s k. ground arith }

  -- The row says the ending, before it is announced.
  abbrev pub HasEnding : Ending → Scope Command ReviewVars → Type 0
  HasEnding ending s =
      IsKept s
      × (s.vars.row.ending ≡ some ending)
      × (s.vars.row.converged ≡ some (is_converged ending))
      × Reason ending

  announced-Triple :
      (ending : Ending) (v : ReviewVars) (n : Notification)
      → Triple
          (λ s. HasEnding ending s × (v ≡ s.vars))
          (notify_complete v.input.summary v.agent_ran v.input.work_dir n [] a.summarized)
          (λ _ s. HasEnding ending s × (v ≡ s.vars))
          Fails
  unfolding notify_complete
  announced-Triple ending v n = record { ends = λ s h. ground arith }

  pub end_with-Triple :
      (ending : Ending) (title text : Text)
      → Triple (HasEnding ending) (end_with a ending title text) Ends Fails
  unfolding end_with ended_by
  end_with-Triple ending title text = read-Triple (λ v.
      give-Triple (λ _. ended_by ending (with_token_total text v.total))
        (announced-Triple ending v (record {
          title = title;
          body = with_token_total text v.total;
          url = [];
          webhook_body = [];
        }))
        (λ _ s h. record {
          kept = h.0.0;
          row_ending = h.0.1;
          row_converged = h.0.2;
          is_its_ending = refl;
          reason = h.0.3;
          summary_total = (text, ap (λ w. with_token_total text w.total) h.1);
        }))

  -- No guidance means that the operator stopped the loop.
  abbrev GuidedBy : Option Text → Type 0
  GuidedBy none = (d : Decision) × Decides local_review d × (proceeds d ≡ false)
  GuidedBy (some guidance) = Unit {0}

  guidance_from-Outcome :
      (d : Decision) (s : Scope Command ReviewVars)
      → IsKept s
      → Decides local_review d
      → IsKept s × GuidedBy (if proceeds d then some d.guidance else none)
  guidance_from-Outcome d s k e = elim (Bool-cases (proceeds d)) [
    | inl yes_it_does ↦ rw yes_it_does (k, tt)
    | inr stops ↦ rw stops (k, (d, e, stops))
  ]

  guidance_of-Triple :
      (is_steered : Bool)
      → Triple IsKept (guidance_of a is_steered) (λ g s. IsKept s × GuidedBy g) Fails
  unfolding guidance_of
  guidance_of-Triple false = record { ends = λ s k. (k, tt) }
  guidance_of-Triple true = read-Triple (λ v.
      give-Triple (λ d. if proceeds d then some d.guidance else none)
        (Triple-strengthen (λ s h. h.0) (pause-Triple local_review v.input.payload))
        (λ d u h. guidance_from-Outcome d u h.0 h.1))

  unfoldable pub ImplementedWell : Implemented → Scope Command ReviewVars → Type 0
  ImplementedWell (ended o) s = Ends o s
  ImplementedWell (went_on cp) s = IsKept s

  -- A loop that ends: the row is set, and then the ending is announced.
  ended-Triple :
      (ending : Ending) (title text : Text) (reason : Reason ending)
      → Triple IsKept
          (do
            assign (set_ending ending (is_converged ending))
            o ← end_with a ending title text
            give (ended o))
          ImplementedWell
          Fails
  unfolding ImplementedWell
  ended-Triple ending title text reason =
      assign-Triple (set_ending ending (is_converged ending))
        (λ s k. (
          record {
            balance = k.balance;
            same_pass = k.same_pass;
            same_resets = k.same_resets;
            ran_under = k.ran_under;
            counted = k.counted;
          },
          refl,
          refl,
          reason,
        ))
        (give-Triple ended (end_with-Triple ending title text) (λ o s e. e))

  after_advance-Triple :
      (cp : Checkpoint) (r : Result Failure (List Text))
      → a.advanced ≡ r
      → Triple IsKept (after_advance a cp r) ImplementedWell Fails
  unfolding after_advance ImplementedWell is_converged
  after_advance-Triple cp (ok commits) same_answer = record { ends = λ s k. k }
  after_advance-Triple cp (err e) same_answer = elim (Bool-cases (is_type e (lit "NoCommits"))) [
    | inl none_left ↦ rw none_left (ended-Triple converged _ _ (e, same_answer, none_left))
    | inr other ↦ rw other (record { ends = λ s k. k })
  ]

  -- Commands do not change the variables.
  pub again :
      {s : Scope Command ReviewVars} {c : Command}
      → cost_of a c ≡ 0
      → IsKept s
      → IsKept (record s { log = c ∷ s.log })
  again free k = record {
    balance = k.balance;
    same_pass = k.same_pass;
    same_resets = k.same_resets;
    ran_under = k.ran_under;
    counted = omega (arith, free, k.counted);
  }

  -- The session of the agent that implements has ended, and is not counted yet.
  record IsPending (s : Scope Command ReviewVars) : Type 0 where
    balance : s.vars.total ≡ input.tokens_so_far + s.vars.row.tokens
    same_pass : s.vars.input.pass ≡ input.pass
    same_resets : s.vars.input.resets ≡ input.resets
    ran_under : RanUnder s.vars.input.settings
    pending : tokens_of a.implemented + s.vars.row.tokens ≡ session_tokens a s.log

  IsPending-from :
      {s : Scope Command ReviewVars} {c : Command}
      → cost_of a c ≡ tokens_of a.implemented
      → IsKept s
      → IsPending (record s { log = c ∷ s.log })
  IsPending-from costs k = record {
    balance = k.balance;
    same_pass = k.same_pass;
    same_resets = k.same_resets;
    ran_under = k.ran_under;
    pending = ap (λ n. tokens_of a.implemented + n) k.counted ∙ omega (arith, costs);
  }

  IsPending-failed :
      (f : Failure) (s : Scope Command ReviewVars) → a.implemented ≡ err f → IsPending s → IsKept s
  IsPending-failed f s got p = record {
    balance = p.balance;
    same_pass = p.same_pass;
    same_resets = p.same_resets;
    ran_under = p.ran_under;
    counted =
        zero_add s.vars.row.tokens
        ∙ ap (λ r. tokens_of r + s.vars.row.tokens) (sym got)
        ∙ p.pending;
  }

  after_agent-Triple :
      (cp : Checkpoint) (r : AgentResult)
      → a.implemented ≡ ok r
      → Triple IsPending (after_agent a cp r.tokens) ImplementedWell Fails
  unfolding after_agent
  after_agent-Triple cp r got = record {
    ends = λ s p. (after_advance-Triple cp a.advanced refl).ends _ (record {
      balance = ap (λ n. n + r.tokens) p.balance ∙ omega arith;
      same_pass = p.same_pass;
      same_resets = p.same_resets;
      ran_under = p.ran_under;
      counted =
          add_comm s.vars.row.tokens r.tokens
          ∙ ap (λ x. tokens_of x + s.vars.row.tokens) (sym got)
          ∙ p.pending
          ∙ zero_add (session_tokens a s.log);
    });
  }

  implement_from-Triple :
      (guidance : Text) (cp : Checkpoint)
      → Triple IsKept (implement_from a guidance cp) ImplementedWell Fails
  unfolding implement_from
  implement_from-Triple guidance cp = read-Triple (λ v.
      ask-Triple {P' = IsPending} {next = λ r. after_agent a cp r.tokens} _ a.implemented
        (λ s h. IsPending-from refl h.0) (λ f got s p. IsPending-failed f s got p)
        (λ r got. after_agent-Triple cp r got))

  implement_with-Triple :
      (g : Option Text)
      → Triple (λ s. IsKept s × GuidedBy g) (implement_with a g) ImplementedWell Fails
  unfolding implement_with is_converged
  implement_with-Triple none = record {
    ends = λ s h. (ended-Triple operator_stopped _ _ (inl h.1)).ends s h.0;
  }
  implement_with-Triple (some guidance) = read-Triple (λ v.
      ask-Triple {P' = IsKept} {next = implement_from a guidance} _ a.checkpoint
        (λ s h. again refl h.0.0) (λ f got s k. k) (λ cp got. implement_from-Triple guidance cp))

  pub implement_payload-Triple :
      (has_payload is_steered : Bool)
      → Triple IsKept (implement_payload a has_payload is_steered) ImplementedWell Fails
  unfolding implement_payload ImplementedWell
  implement_payload-Triple false is_steered = record { ends = λ s k. k }
  implement_payload-Triple true is_steered =
      >>=-Triple (guidance_of-Triple is_steered) implement_with-Triple
