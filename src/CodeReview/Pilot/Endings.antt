-- ===== src/CodeReview/Pilot/Endings.antt =====
-- How a pass over the comments of a pull request ends.
use Prim.Native.Nat.{ℕ, ◌+◌}
use mathlib.Core.Path.{◌≡◌, refl, ap, ◌∙◌, sym, subst}
use mathlib.Core.Logic.{◌⊎◌, inl, inr}
use mathlib.Core.Bool.{Bool, true, false, ◌&&◌}
use mathlib.Core.List.{List, [], ◌∷◌}
use mathlib.Core.Option.{Option, none, some}
use native.Mathlib.Omega.{arith}
use temporal_agents.Prelude.{Result, err, Text, ok, if◌then◌else◌, Bool-cases}
use temporal_agents.Runs.{Failure, Stop, failed, continue_as_new, Scope, ask, ◌>>=◌}
use temporal_agents.Runs.Laws.{
  Triple, >>=-Triple, read-Triple, assign-Triple, give-Triple, ask-Triple, Triple-fails,
}
use temporal_agents.Steering.Decision.{Decision, proceeds}
use temporal_agents.CodeReview.Inputs.{
  AgentResult, PilotInput, operator_stopped, PullRequest, ReviewThread, Checkpoint,
  with_token_total,
}
use temporal_agents.CodeReview.Commands.{
  Command, run_agent, load_unresolved_comments, Notification, PilotRow, steered, notify_complete,
}
use temporal_agents.CodeReview.Pilot.{
  PilotAnswers, PilotVars, PilotRun, PilotPass, Polling, settled, check_failed, sleep_failed,
  still_ongoing, resolve_inputs, pause, guidance_of, await_review_end, publish, restore, sum_up,
  after_agent, address_from, address, with_threads, pilot_on, with_pass, record_pass,
  run_pilot_once, conclude, notify_pass, chain_on, after_pass, pilot_body, set_row,
}
use temporal_agents.CodeReview.Local.Endings.{tokens_of}
use temporal_agents.CodeReview.Comments.{format_comments}

-- The tokens of the agent's session, as often as a log starts it.
abbrev pub pilot_cost_of : PilotAnswers → Command → ℕ
pilot_cost_of a command = elim command [ run_agent pr threads guidance ↦ tokens_of a.agent | _ ↦ 0 ]

abbrev pub pilot_tokens : PilotAnswers → List Command → ℕ
pilot_tokens a [] = 0
pilot_tokens a (command ∷ log) = pilot_cost_of a command + pilot_tokens a log

module _ (a : PilotAnswers) (input : PilotInput) where
  -- What the steps of a pass keep.
  pub record IsKept (n : ℕ) (s : Scope Command PilotVars) : Type 0 where
    pub same_tokens : s.vars.input.tokens_so_far ≡ input.tokens_so_far
    pub same_chain : s.vars.input.chain ≡ input.chain
    pub no_ending : s.vars.row.ending ≡ none
    pub spent : pilot_tokens a s.log ≡ n

  -- The agent's commits are on the branch of the pull request, the threads are answered, and a review
  -- of the commits is requested.
  abbrev pub Published : Type 0
  Published =
      ((commits : List Text) × (a.advanced ≡ ok commits))
      × (a.pushed ≡ ok tt)
      × (a.replied ≡ ok tt)
      × (a.requested ≡ ok tt)

  -- The operator has not let the agent address the comments.
  abbrev pub Stopped : Type 0
  Stopped = (d : Decision) × (a.decided ≡ ok d) × (proceeds d ≡ false)

  -- What one pass has done.
  abbrev Passed : PilotPass → Type 0
  Passed pass =
      ((pass.stopped ≡ true) × (pass.addressed ≡ false) × Stopped)
      ⊎ ((pass.stopped ≡ false) × (pass.addressed ≡ false) × (a.loaded ≡ ok []))
      ⊎ ((pass.stopped ≡ false) × (pass.addressed ≡ true) × Published)

  -- What comes before the end of a pass does not continue as new.
  abbrev Fails : Stop PilotInput → Scope Command PilotVars → Type 0
  Fails (failed e) s = Unit {0}
  Fails (continue_as_new next) s = ⊥

  -- Commands do not change the variables.
  again :
      {n : ℕ} {s : Scope Command PilotVars} {c : Command}
      → pilot_cost_of a c ≡ 0
      → IsKept n s
      → IsKept n (record s { log = c ∷ s.log })
  again free k = record {
    same_tokens = k.same_tokens;
    same_chain = k.same_chain;
    no_ending = k.no_ending;
    spent = omega (arith, free, k.spent);
  }

  -- The agent's session.
  after_session :
      {s : Scope Command PilotVars} {c : Command} (r : AgentResult)
      → pilot_cost_of a c ≡ tokens_of a.agent
      → a.agent ≡ ok r
      → IsKept 0 s
      → IsKept r.tokens (record s { log = c ∷ s.log })
  after_session {s} r costs got k = record {
    same_tokens = k.same_tokens;
    same_chain = k.same_chain;
    no_ending = k.no_ending;
    spent = ap (λ n. n + pilot_tokens a s.log) (costs ∙ ap tokens_of got) ∙ omega (arith, k.spent);
  }

  resolve_inputs-Triple : Triple (IsKept 0) (resolve_inputs a) (λ _. IsKept 0) Fails
  unfolding resolve_inputs
  resolve_inputs-Triple = record { ends = λ s k. ground arith }

  await_review_end-Triple :
      (pr : PullRequest) (polling : Polling)
      → Triple (IsKept 0) (await_review_end pr polling) (λ _. IsKept 0) Fails
  unfolding await_review_end
  await_review_end-Triple pr settled = record { ends = λ s k. again refl k }
  await_review_end-Triple pr (check_failed e) = record { ends = λ s k. tt }
  await_review_end-Triple pr (sleep_failed e) = record { ends = λ s k. tt }
  await_review_end-Triple pr (still_ongoing later) = record {
    ends = λ s k. (await_review_end-Triple pr later).ends _ (again refl (again refl k));
  }

  pause-Triple :
      (material : Text)
      → Triple (IsKept 0) (pause a material) (λ d s. IsKept 0 s × (a.decided ≡ ok d)) Fails
  unfolding pause
  pause-Triple material = record { ends = λ s k. ground arith }

  -- No guidance means that the operator stopped the pass.
  abbrev GuidedBy : Option Text → Type 0
  GuidedBy none = Stopped
  GuidedBy (some guidance) = Unit {0}

  guidance_from-GuidedBy :
      (d : Decision) → a.decided ≡ ok d → GuidedBy (if proceeds d then some d.guidance else none)
  guidance_from-GuidedBy d e = elim (Bool-cases (proceeds d)) [
    | inl yes_it_does ↦ rw yes_it_does tt
    | inr stops ↦ rw stops (d, e, stops)
  ]

  guidance_of-Triple :
      (is_steered : Bool) (material : Text)
      → Triple (IsKept 0) (guidance_of a is_steered material) (λ g s. IsKept 0 s × GuidedBy g) Fails
  unfolding guidance_of
  guidance_of-Triple false material = record { ends = λ s k. (k, tt) }
  guidance_of-Triple true material =
      give-Triple (λ d. if proceeds d then some d.guidance else none) (pause-Triple material)
        (λ d s h. (h.0, guidance_from-GuidedBy d h.1))

  publish-Triple :
      (pr : PullRequest) (threads : List ReviewThread) (cp : Checkpoint) (n : ℕ)
      → Triple (IsKept n) (publish a pr threads cp) (λ _ s. IsKept n s × Published) Fails
  unfolding publish
  publish-Triple pr threads cp n = record { ends = λ s k. ground arith }

  sum_up-Triple :
      (pr : PullRequest) (threads : List ReviewThread) (cp : Checkpoint) (tokens : ℕ)
      (commits : List Text)
      → Published
      → Triple
          (IsKept tokens)
          (sum_up a pr threads cp tokens commits)
          (λ pass s. IsKept pass.tokens s × Passed pass)
          Fails
  unfolding sum_up restore
  sum_up-Triple pr threads cp tokens commits published = record {
    ends = λ s k. elim (Bool-cases cp.stashed) [
      | inl stashed ↦ rw stashed (again refl k, inr (inr (refl, refl, published)))
      | inr clean ↦ rw clean (k, inr (inr (refl, refl, published)))
    ];
  }

  after_agent-Triple :
      (pr : PullRequest) (threads : List ReviewThread) (cp : Checkpoint) (tokens : ℕ)
      → Triple
          (IsKept tokens)
          (after_agent a pr threads cp tokens)
          (λ pass s. IsKept pass.tokens s × Passed pass)
          Fails
  unfolding after_agent
  after_agent-Triple pr threads cp tokens =
      assign-Triple {P' = IsKept tokens} (λ w. record w { agent_ran = true })
        (λ s k. record {
          same_tokens = k.same_tokens;
          same_chain = k.same_chain;
          no_ending = k.no_ending;
          spent = k.spent;
        })
        (>>=-Triple {next = sum_up a pr threads cp tokens} (publish-Triple pr threads cp tokens)
          (λ commits. record {
            ends = λ s h. (sum_up-Triple pr threads cp tokens commits h.1).ends s h.0;
          }))

  agent_asked :
      {B : Type 0} {Q : B → Scope Command PilotVars → Type 0} (next : AgentResult → PilotRun B)
      (c : Command) (r : Result Failure AgentResult)
      → a.agent ≡ r
      → pilot_cost_of a c ≡ tokens_of a.agent
      → ((r : AgentResult) → a.agent ≡ ok r → Triple (IsKept r.tokens) (next r) Q Fails)
      → Triple (IsKept 0) (ask c r >>= next) Q Fails
  agent_asked next c (ok r) got costs later = record {
    ends = λ s k. (later r got).ends _ (after_session r costs got k);
  }
  agent_asked next c (err e) got costs later = record { ends = λ s k. tt }

  address_from-Triple :
      (pr : PullRequest) (threads : List ReviewThread) (guidance : Text) (cp : Checkpoint)
      → Triple
          (IsKept 0)
          (address_from a pr threads guidance cp)
          (λ pass s. IsKept pass.tokens s × Passed pass)
          Fails
  unfolding address_from
  address_from-Triple pr threads guidance cp =
      agent_asked (λ r. after_agent a pr threads cp r.tokens) (run_agent pr threads guidance)
        a.agent refl refl (λ r got. after_agent-Triple pr threads cp r.tokens)

  address-Triple :
      (pr : PullRequest) (threads : List ReviewThread) (g : Option Text)
      → Triple
          (λ s. IsKept 0 s × GuidedBy g)
          (address a pr threads g)
          (λ pass s. IsKept pass.tokens s × Passed pass)
          Fails
  unfolding address
  address-Triple pr threads none = record { ends = λ s h. (h.0, inl (refl, refl, h.1)) }
  address-Triple pr threads (some guidance) = read-Triple (λ v.
      ask-Triple {P' = IsKept 0} {next = address_from a pr threads guidance} _ a.checkpoint
        (λ s h. again refl h.0.0) (λ e got s k. tt)
        (λ cp got. address_from-Triple pr threads guidance cp))

  with_threads-Triple :
      (pr : PullRequest) (threads : List ReviewThread)
      → a.loaded ≡ ok threads
      → Triple
          (IsKept 0)
          (with_threads a pr threads)
          (λ pass s. IsKept pass.tokens s × Passed pass)
          Fails
  unfolding with_threads
  with_threads-Triple pr [] got = record { ends = λ s k. (k, inr (inl (refl, refl, got))) }
  with_threads-Triple pr (t ∷ ts) got = record {
    ends = λ s k.
        (>>=-Triple {next = address a pr (t ∷ ts)}
            (guidance_of-Triple (steered s.vars.input.settings) (format_comments pr.body (t ∷ ts)))
            (address-Triple pr (t ∷ ts))).ends
          s k;
  }

  pilot_on-Triple :
      (pr : PullRequest)
      → Triple (IsKept 0) (pilot_on a pr) (λ pass s. IsKept pass.tokens s × Passed pass) Fails
  unfolding pilot_on
  pilot_on-Triple pr =
      >>=-Triple {next = λ _. ask (load_unresolved_comments pr) a.loaded >>= with_threads a pr}
        (await_review_end-Triple pr a.polling)
        (λ _.
          ask-Triple {P' = IsKept 0} {next = with_threads a pr} _ a.loaded (λ s k. again refl k)
            (λ e got s k. tt) (with_threads-Triple pr))

  run_pilot_once-Triple :
      Triple (IsKept 0) (run_pilot_once a) (λ pass s. IsKept pass.tokens s × Passed pass) Fails
  unfolding run_pilot_once
  run_pilot_once-Triple = read-Triple (λ v.
      ask-Triple {P' = IsKept 0} {next = pilot_on a} _ a.pull_request (λ s h. again refl h.0)
        (λ e got s k. tt) (λ pr got. pilot_on-Triple pr))

  -- What the row of a pass with an outcome says of it.
  abbrev pub Recorded : PilotRow → Type 0
  Recorded row =
      ((row.ending ≡ some operator_stopped) × (row.addressed ≡ some false) × Stopped)
      ⊎ ((row.ending ≡ none) × (row.addressed ≡ some false) × (a.loaded ≡ ok []))
      ⊎ ((row.ending ≡ none) × (row.addressed ≡ some true) × (input.chain ≡ false) × Published)

  abbrev Total : Text → PilotRow → Type 0
  Total summary row =
      (text : Text) × (summary ≡ with_token_total text (input.tokens_so_far + row.tokens))

  -- The next pass, after one that has addressed the comments.
  abbrev pub Chains : PilotInput → PilotRow → Type 0
  Chains next row =
      (row.addressed ≡ some true)
      × (input.chain ≡ true)
      × Published
      × (next.tokens_so_far ≡ input.tokens_so_far + row.tokens)

  -- The row names the tokens of the sessions.
  abbrev pub IsCounted : Scope Command PilotVars → Type 0
  IsCounted s = s.vars.row.tokens ≡ pilot_tokens a s.log

  abbrev pub Concludes : Text → Scope Command PilotVars → Type 0
  Concludes summary s = Recorded s.vars.row × Total summary s.vars.row × IsCounted s

  abbrev pub Continues : Stop PilotInput → Scope Command PilotVars → Type 0
  Continues (failed e) s = Unit {0}
  Continues (continue_as_new next) s = Chains next s.vars.row × IsCounted s

  announced-Triple :
      (v : PilotVars) (n : Notification) (tokens : ℕ)
      → Triple
          (λ s. (s.vars ≡ v) × (tokens ≡ pilot_tokens a s.log))
          (notify_complete v.input.summary v.agent_ran v.input.work_dir n v.input.chain_summary
            a.summarized)
          (λ _ s. (s.vars ≡ v) × (tokens ≡ pilot_tokens a s.log))
          Continues
  unfolding notify_complete
  announced-Triple v n tokens = record { ends = λ s h. ground arith }

  concluded :
      (pass : PilotPass) (total : ℕ) (v w : PilotVars) (log : List Command)
      → w ≡ v
      → Recorded v.row
      → total ≡ input.tokens_so_far + v.row.tokens
      → v.row.tokens ≡ pilot_tokens a log
      → Concludes (with_token_total pass.summary total) (record { log = log; vars = w })
  concluded pass total v w log e says adds counted =
      subst (λ u. Concludes (with_token_total pass.summary total) (record { log = log; vars = u }))
        (sym e) (says, (pass.summary, ap (with_token_total pass.summary) adds), counted)

  conclude-Triple :
      (title : Text) (pass : PilotPass) (total : ℕ)
      → Triple
          (λ s.
            Recorded s.vars.row × (total ≡ input.tokens_so_far + s.vars.row.tokens) × IsCounted s)
          (conclude a title pass total)
          Concludes
          Continues
  unfolding conclude
  conclude-Triple title pass total = record {
    ends = λ s h.
        (give-Triple {Q' = Concludes} (λ _. with_token_total pass.summary total)
            (announced-Triple s.vars
              (record {
                title = title;
                body = with_token_total pass.summary total;
                url = pass.pr_url;
                webhook_body = [];
              })
              s.vars.row.tokens)
            (λ _ t e. concluded pass total s.vars t.vars t.log e.0 h.0 h.1 e.1)).ends
          s (refl, h.2);
  }

  chain_on-Triple :
      (pass : PilotPass) (total : ℕ)
      → input.chain ≡ true
      → Published
      → Triple
          (λ s.
            (s.vars.row.addressed ≡ some true)
            × (total ≡ input.tokens_so_far + s.vars.row.tokens)
            × IsCounted s)
          (chain_on a pass total)
          Concludes
          Continues
  unfolding chain_on notify_pass
  chain_on-Triple pass total chains published = record { ends = λ s h. ground arith }

  -- The row names what the pass has done.
  Ready : PilotPass → ℕ → Scope Command PilotVars → Type 0
  Ready pass total s =
      (s.vars.row.ending ≡ none)
      × (s.vars.row.addressed ≡ some pass.addressed)
      × (total ≡ input.tokens_so_far + s.vars.row.tokens)
      × IsCounted s

  after_pass-Triple :
      (pass : PilotPass) (total : ℕ) (is_stopped chains_on is_addressed : Bool)
      → pass.stopped ≡ is_stopped
      → pass.addressed ≡ is_addressed
      → chains_on ≡ input.chain && is_addressed
      → Passed pass
      → Triple (Ready pass total) (after_pass a is_stopped chains_on pass total) Concludes Continues
  unfolding after_pass Ready
  after_pass-Triple pass total true chains_on is_addressed stopped addressed chains passed =
      assign-Triple
        {P' = λ s.
          Recorded s.vars.row × (total ≡ input.tokens_so_far + s.vars.row.tokens) × IsCounted s}
        (set_row (λ row. record row { ending = some operator_stopped })) (λ s h. ground arith)
        (conclude-Triple _ pass total)
  after_pass-Triple pass total false true is_addressed stopped addressed chains passed = record {
    ends = λ s h. (chain_on-Triple pass total (ground arith) (ground arith)).ends s (ground arith);
  }
  after_pass-Triple pass total false false is_addressed stopped addressed chains passed = record {
    ends = λ s h. (conclude-Triple _ pass total).ends s (ground arith);
  }

  record_pass-Triple :
      (pass : PilotPass)
      → Passed pass
      → Triple (IsKept pass.tokens) (record_pass a pass) Concludes Continues
  unfolding record_pass Ready
  record_pass-Triple pass passed = record {
    ends = λ s k.
        (after_pass-Triple pass (s.vars.input.tokens_so_far + pass.tokens) pass.stopped
            (s.vars.input.chain && pass.addressed) pass.addressed refl refl
            (ap (λ b. b && pass.addressed) k.same_chain) passed).ends
          (record s { vars = with_pass a pass s.vars })
          (k.no_ending, refl, ap (λ n. n + pass.tokens) k.same_tokens, sym k.spent);
  }

  fails_within : (e : Stop PilotInput) (s : Scope Command PilotVars) → Fails e s → Continues e s
  fails_within (failed e) s h = tt
  fails_within (continue_as_new next) s h = elim h [ ]

  continues :
      {A : Type 0} {P : Scope Command PilotVars → Type 0} {Q : A → Scope Command PilotVars → Type 0}
      {m : PilotRun A}
      → Triple P m Q Fails
      → Triple P m Q Continues
  continues t = Triple-fails fails_within t

  pub pilot_body-Triple : Triple (IsKept 0) (pilot_body a) Concludes Continues
  unfolding pilot_body
  pilot_body-Triple =
      >>=-Triple {next = λ _. run_pilot_once a >>= record_pass a} (continues resolve_inputs-Triple)
        (λ _.
          >>=-Triple {next = record_pass a} (continues run_pilot_once-Triple)
            (λ pass. record { ends = λ s h. (record_pass-Triple pass h.1).ends s h.0 }))
