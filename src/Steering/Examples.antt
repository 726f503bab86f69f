-- ===== src/Steering/Examples.antt =====
-- Decisions of an operator, and the theorems at them.
use mathlib.Core.Path.{◌≡◌, refl}
use mathlib.Core.Logic.{◌↔◌, ◌≢◌}
use mathlib.Core.List.{List, [], ◌∷◌, Memᴰ}
use temporal_agents.Prelude.{Text, lit, ok, err, text_discrete, trim_space, has_prefix}
use temporal_agents.Steering.Decision.{
  Decision, guide, accept, stop, valid_string, validate, block, with_guidance,
}
use temporal_agents.Steering.Decision.Accepts.{IsAcceptable, validate-ok_iff, block-nil_iff}
use temporal_agents.Steering.Conversation.{Message, Conversation, contributors, tokens}
use temporal_agents.Steering.Conversation.Messages.{
  operator, validate_message, validate_message-ok_iff, IsTurn,
}
use temporal_agents.Steering.Conversation.Contributors.{
  IsDistinct, IsNamed, named, contributors-IsDistinct,
}
use mathlib.Core.Bool.{false}
use mathlib.Core.Option.{some}
use temporal_agents.Steering.Rounds.{local_review, pass_limit, validate_decision}
use temporal_agents.Steering.Session.{SessionEvent, sent, day_passed, is_decisive, await_decision}
use temporal_agents.Steering.Session.Contract.{
  open_round, reminds, passes_over, done, more, Steps, phase_of, await_decision-refines,
}
use temporal_agents.Steering.Session.Answers.{IsAnswer, is_decisive-IsAnswer, not_decisive-IsAnswer}
use temporal_agents.Steering.Session.Ending.{
  SessionAnswers, SessionEnd, end_session, session_workflow,
}
use temporal_agents.Steering.Session.Settled.{session_workflow-ends}
use temporal_agents.Steering.Store.{waiting, decided}
use temporal_agents.Steering.Service.{Session, Answers, no_such_session, decide}
use temporal_agents.Steering.Service.Delivery.{signal_of, IsDelivered, decide-signals}

abbrev advice : Decision
advice = record { choice = guide; guidance = lit " keep it small\n"; principal = lit "ana" }

advice_accepted : validate advice ≡ ok tt
unfolding validate text_discrete trim_space has_prefix valid_string
advice_accepted = refl

advice_in_place :
    with_guidance advice.guidance (lit "findings")
    ≡ lit "--- Operator guidance ---\nkeep it small\n--- End of operator guidance ---\nfindings"
unfolding with_guidance trim_space has_prefix
advice_in_place = refl

validate-ok_example : (validate advice ≡ ok tt) ↔ IsAcceptable advice
validate-ok_example = validate-ok_iff advice

block-nil_example : (block advice.guidance ≢ []) ↔ (advice.choice ≡ guide)
block-nil_example = block-nil_iff advice advice_accepted

abbrev message : Text → Message
message author = record {
  session_id = lit "s";
  sequence = 1;
  role = operator;
  author = author;
  text = lit "?";
  tokens = 21;
}

-- The agent's turn has no author.
abbrev talk : Conversation
talk = record {
  decision = advice;
  messages = message (lit "bo") ∷ message [] ∷ message (lit " ana") ∷ message (lit "bo") ∷ [];
}

who_took_part : contributors talk ≡ lit "bo" ∷ lit "ana" ∷ []
unfolding contributors trim_space has_prefix text_discrete
who_took_part = refl

talk_cost : tokens talk ≡ 84
unfolding tokens
talk_cost = refl

contributors-IsDistinct_example :
    IsDistinct (contributors talk)
    × ((name : Text) → Memᴰ name (contributors talk) ↔ IsNamed (named talk) name)
contributors-IsDistinct_example = contributors-IsDistinct talk

validate_message-ok_example :
    (validate_message (message (lit "bo")) ≡ ok tt) ↔ IsTurn (message (lit "bo"))
validate_message-ok_example = validate_message-ok_iff (message (lit "bo"))

-- A day passes, a decision of another vocabulary is refused, and then two tabs decide.
abbrev verdict : Text → Decision
verdict choice = record { choice = choice; guidance = []; principal = lit "ana" }

abbrev signals : List SessionEvent
signals = day_passed ∷ sent advice ∷ sent (verdict accept) ∷ sent (verdict stop) ∷ []

abbrev calm_session : SessionAnswers
calm_session = record {
  recorded = ok tt;
  query_set = ok tt;
  tokens = ok 12;
  settled = ok tt;
  closed = ok tt;
  session = record {
    state = waiting;
    decision = record { choice = []; guidance = []; principal = [] };
  };
}

abbrev accepted_end : SessionEnd
accepted_end = end_session calm_session pass_limit 12 (ok (verdict accept))

decisive : IsAnswer pass_limit (verdict accept)
unfolding is_decisive text_discrete trim_space has_prefix valid_string validate
decisive = is_decisive-IsAnswer pass_limit (verdict accept) refl

refuses_advice : ¬ IsAnswer pass_limit advice
unfolding is_decisive text_discrete trim_space has_prefix valid_string validate
refuses_advice = not_decisive-IsAnswer pass_limit advice refl

first_two : Steps pass_limit open_round (day_passed ∷ sent advice ∷ []) open_round
first_two = more reminds (more (passes_over advice refuses_advice) (done open_round))

await_decision-refines_example :
    phase_of (await_decision pass_limit 0 (day_passed ∷ sent advice ∷ [])) ≡ open_round
await_decision-refines_example =
    await_decision-refines pass_limit 0 (day_passed ∷ sent advice ∷ []) open_round first_two

session_workflow-ends_example :
    (e : SessionEnd) × (won : Decision) × (session_workflow calm_session pass_limit signals
      ≡ some e)
    × (e.result ≡ ok won)
session_workflow-ends_example =
    session_workflow-ends calm_session pass_limit signals (verdict accept) 12
      (Memᴰ.tail (Memᴰ.tail (Memᴰ.head refl))) decisive refl refl refl

-- The store has already recorded a decision of another tab.
abbrev stored_session : Session
stored_session = record {
  id = lit "steering-run";
  round = local_review;
  guidance = [];
  state = decided;
  decision = verdict stop;
}

abbrev store_answers : Answers
store_answers = record {
  session = ok stored_session;
  recorded = ok stored_session;
  signalled = ok tt;
  questions = false;
  appended = err no_such_session;
  answered = ok tt;
  session_after = ok stored_session;
  messages = ok [];
}

repeats : signal_of (decide store_answers (lit "steering-run") advice).0 ≡ some (verdict stop)
unfolding decide text_discrete trim_space has_prefix valid_string validate_decision validate
repeats = refl

decide-signals_example :
    IsDelivered store_answers
      (lit "steering-run")
      advice
      (verdict stop)
      (decide store_answers (lit "steering-run") advice).0
decide-signals_example =
    decide-signals store_answers (lit "steering-run") advice (verdict stop) repeats
