-- ===== src/CodeReview/Loop/Untouched.antt =====
-- What the operator's stop leaves alone.
use mathlib.Core.Path.{◌≡◌, refl, ap, ◌∙◌}
use mathlib.Core.Bool.{Bool, true, false, not, ◌&&◌}
use mathlib.Core.List.{List, [], ◌∷◌}
use mathlib.Core.Option.{Option, none, some}
use native.Mathlib.Omega.{arith}
use temporal_agents.Prelude.{Text, lit, Result, ok, err, if◌then◌else◌, trim_space}
use temporal_agents.Runs.{Failure, Stop, failed, Scope, ◌>>=◌, read}
use temporal_agents.Runs.Laws.{Triple, Outcome, >>=-Triple, give-Triple}
use temporal_agents.Steering.Decision.{Decision, proceeds}
use temporal_agents.Steering.Rounds.{local_review}
use temporal_agents.CodeReview.Inputs.{Place, ReviewInput, ReviewOutcome, operator_stopped}
use temporal_agents.CodeReview.Commands.{
  Command, wrapped, probe_place, persist_review, resolve_instructions, resolve_settings,
  open_session, await_session, notify, terminal_write_failed, steered, is_nil, is_blank,
  notify_failure, probed, probe,
}
use temporal_agents.CodeReview.Local.{
  ReviewAnswers, ReviewVars, Implemented, ended, went_on, resolve_inputs, pause, guidance_of,
  implement_with, implement_payload, end_with, set_ending,
}
use temporal_agents.CodeReview.Budget.{after_implement, review_body}
use temporal_agents.CodeReview.Loop.{settle, run_started, review_workflow, first_scope, settled_row}

-- Every command but those that look a place or its instructions up, write a record, ask the operator or
-- send a notice: it may change the working tree, or let an agent work in it.
abbrev pub touches : Command → Bool
touches c = elim c [
  | probe_place dir ↦ false
  | persist_review row ↦ false
  | resolve_instructions scopes ↦ false
  | resolve_settings scopes ↦ false
  | open_session id round material ↦ false
  | await_session id round ↦ false
  | notify n ↦ false
  | _ ↦ true
]

-- None of the commands does so.
abbrev pub is_untouched : List Command → Bool
is_untouched [] = true
is_untouched (c ∷ log) = not (touches c) && is_untouched log

module _ (a : ReviewAnswers) (input : ReviewInput) where
  record Waits (s : Scope Command ReviewVars) : Type 0 where
    pub untouched : is_untouched s.log ≡ true
    pub not_ran : s.vars.agent_ran ≡ false
    pub same_payload : s.vars.input.payload ≡ input.payload
    pub same_settings : s.vars.input.settings ≡ input.settings

  abbrev Leaves : Stop ReviewInput → Scope Command ReviewVars → Type 0
  Leaves e s = (is_untouched s.log ≡ true) × (s.vars.agent_ran ≡ false)

  resolve_inputs-Waits :
      is_nil input.settings ≡ false → Triple Waits (resolve_inputs a) (λ _. Waits) Leaves
  unfolding resolve_inputs
  resolve_inputs-Waits carried = record { ends = λ s k. ground arith }

  pause-Waits :
      (material : Text)
      → Triple Waits
          (pause a local_review material)
          (λ d s. Waits s × (a.decided local_review ≡ ok d))
          Leaves
  unfolding pause
  pause-Waits material = record { ends = λ s k. ground arith }

  end_with-Waits :
      (ending : _) (title text : Text)
      → Triple Waits (end_with a ending title text) (λ _. Waits) Leaves
  unfolding end_with
  end_with-Waits ending title text = record { ends = λ s k. ground arith }

  -- The operator has not let the agent implement the findings.
  abbrev pub Stops : Type 0
  Stops = (d : Decision) × (a.decided local_review ≡ ok d) × (proceeds d ≡ false)

  no_guidance :
      (d : Decision)
      → Stops
      → a.decided local_review ≡ ok d
      → (if proceeds d then some d.guidance else none) ≡ none
  no_guidance d stops e = ground arith

  guidance_of-Waits : Stops → Triple Waits (guidance_of a true) (λ g s. Waits s × (g ≡ none)) Leaves
  unfolding guidance_of
  guidance_of-Waits stops = record {
    ends = λ s k.
        (give-Triple {Q' = λ g u. Waits u × (g ≡ none)}
            (λ d. if proceeds d then some d.guidance else none) (pause-Waits s.vars.input.payload)
            (λ d u h. (h.0, no_guidance d stops h.1))).ends
          s k;
  }

  abbrev IsEnded : Implemented → Type 0
  IsEnded (ended o) = Unit {0}
  IsEnded (went_on cp) = ⊥

  implement_with-Waits :
      (g : Option Text)
      → Triple (λ s. Waits s × (g ≡ none)) (implement_with a g) (λ i s. Waits s × IsEnded i) Leaves
  unfolding implement_with
  implement_with-Waits (some guidance) = record { ends = λ s h. cc }
  implement_with-Waits none = record {
    ends = λ s h.
        (give-Triple {Q' = λ i u. Waits u × IsEnded i} ended (end_with-Waits operator_stopped _ _)
            (λ o u k. (k, tt))).ends
          (record s { vars = set_ending operator_stopped false s.vars })
          (record {
            untouched = h.0.untouched;
            not_ran = h.0.not_ran;
            same_payload = h.0.same_payload;
            same_settings = h.0.same_settings;
          });
  }

  after_implement-Waits :
      (i : Implemented)
      → Triple (λ s. Waits s × IsEnded i) (after_implement a i) (λ _. Waits) Leaves
  unfolding after_implement
  after_implement-Waits (ended o) = record { ends = λ s h. h.0 }
  after_implement-Waits (went_on cp) = record { ends = λ s h. elim h.1 [ ] }

  implement_payload-Waits :
      Stops → Triple Waits (implement_payload a true true) (λ i s. Waits s × IsEnded i) Leaves
  unfolding implement_payload
  implement_payload-Waits stops = >>=-Triple (guidance_of-Waits stops) implement_with-Waits

  stops_there :
      (has_payload is_steered : Bool)
      → has_payload ≡ true
      → is_steered ≡ true
      → Stops
      → Triple Waits
          (implement_payload a has_payload is_steered >>= after_implement a)
          (λ _. Waits)
          Leaves
  stops_there true true p q stops =
      >>=-Triple {next = after_implement a} (implement_payload-Waits stops) after_implement-Waits
  stops_there true false p q stops = cc
  stops_there false is_steered p q stops = cc

  review_body-Waits :
      is_nil input.settings ≡ false
      → is_blank (trim_space input.payload) ≡ false
      → steered input.settings ≡ true
      → Stops
      → Triple Waits (review_body a) (λ _. Waits) Leaves
  unfolding review_body
  review_body-Waits carried has_payload steers stops =
      >>=-Triple
        {next = λ _. read >>= (λ v.
          implement_payload a (not (is_blank (trim_space v.input.payload)))
            (steered v.input.settings)
          >>= after_implement a)}
        (resolve_inputs-Waits carried)
        (λ _. record {
          ends = λ s k.
              (stops_there (not (is_blank (trim_space s.vars.input.payload)))
                  (steered s.vars.input.settings)
                  (ap (λ p. not (is_blank (trim_space p))) k.same_payload ∙ ap not has_payload)
                  (ap steered k.same_settings ∙ steers) stops).ends
                s k;
        })

either-Leaves :
    (a : ReviewAnswers) (input : ReviewInput) (s : Scope Command ReviewVars)
    (r : Result (Stop ReviewInput) ReviewOutcome)
    → Outcome (λ _. Waits a input) (Leaves a input) s r
    → (is_untouched s.log ≡ true) × (s.vars.agent_ran ≡ false)
either-Leaves a input s (ok o) h = (h.untouched, h.not_ran)
either-Leaves a input s (err e) h = h

settle-is_untouched :
    (a : ReviewAnswers) (s : Scope Command ReviewVars) (r : Result (Stop ReviewInput) ReviewOutcome)
    → (is_untouched s.log ≡ true) × (s.vars.agent_ran ≡ false)
    → is_untouched (settle a s r).log ≡ true
unfolding settle notify_failure terminal_write_failed settled_row
settle-is_untouched a s r h = ground arith

notified-is_untouched :
    (title dir : Text) (summary : Bool) (answer : Result Failure Text) (e : Failure)
    (log : List Command)
    → is_untouched log ≡ true
    → is_untouched (
        notify_failure {I = ReviewInput} {A = ReviewOutcome} title dir summary false answer
          (err (failed e))
          log)
      ≡ true
unfolding notify_failure
notified-is_untouched title dir summary answer e log h = ground arith

probe-is_untouched : (dir : Text) → is_untouched (probe dir []) ≡ true
probe-is_untouched [] = refl
probe-is_untouched (c ∷ dir) = refl

run_started-is_untouched :
    (a : ReviewAnswers) (input : ReviewInput) (place : Place) (r : Result Failure (Unit {0}))
    → is_nil input.settings ≡ false
    → is_blank (trim_space input.payload) ≡ false
    → steered input.settings ≡ true
    → Stops a input
    → is_untouched (run_started a input place r).log ≡ true
unfolding run_started
run_started-is_untouched a input place (err e) carried has_payload steers stops =
    notified-is_untouched _ input.work_dir input.summary a.summarized_failure
      (wrapped (lit "record the review pass as started") e) (first_scope input place).log
      (probe-is_untouched input.work_dir)
run_started-is_untouched a input place (ok _) carried has_payload steers stops =
    let s = first_scope input place in
    settle-is_untouched a (review_body a s).0 (review_body a s).1 (
      either-Leaves a input (review_body a s).0 (review_body a s).1 (
        (review_body-Waits a input carried has_payload steers stops).ends s (record {
          untouched = probe-is_untouched input.work_dir;
          not_ran = refl;
          same_payload = refl;
          same_settings = refl;
        })))

-- When the operator of a steered loop stops it before the findings are implemented, the pass gives no command but those that look up the place and its instructions, write the record, ask the operator and send notices: no command stashes, restores, commits or inspects the working tree, and no agent works in it, not even to summarize, whatever else the activities answer.
pub review_workflow-is_untouched :
    (a : ReviewAnswers) (input : ReviewInput) (d : Decision)
    → is_nil input.settings ≡ false
    → is_blank (trim_space input.payload) ≡ false
    → steered input.settings ≡ true
    → a.decided local_review ≡ ok d
    → proceeds d ≡ false
    → is_untouched (review_workflow a input).log ≡ true
unfolding review_workflow
review_workflow-is_untouched a input d carried has_payload steers decided stops =
    run_started-is_untouched a input (probed input.work_dir a.place) a.recorded carried has_payload
      steers (d, decided, stops)
