-- ===== src/Steering/Service.antt =====
-- internal/steering/service.go, `Service`: what is decided and asked in a session.
pub mod Delivery
use Prim.Native.Nat.{ℕ}
use mathlib.Core.Path.{◌≡◌, refl}
use mathlib.Core.Bool.{Bool, true, false, ◌||◌}
use mathlib.Core.List.{List, [], ◌∷◌, ◌++◌}
use mathlib.Core.Option.{Option, none, some}
use temporal_agents.Prelude.{Text, lit, Result, ok, err, trim_space, if◌then◌else◌}
use temporal_agents.Steering.Decision.{Decision}
use temporal_agents.Steering.Conversation.{Message, Conversation}
use temporal_agents.Steering.Store.{State, waiting, decided, abandoned}
use temporal_agents.Steering.Rounds.{Round, RoundError, validate_decision}

abbrev pub is_blank : Text → Bool
is_blank [] = true
is_blank (c ∷ s) = false

-- `Session`, less its place, its material and its times.
pub record Session : Type 0 where
  pub id : Text
  pub round : Round
  pub guidance : Text
  pub state : State
  pub decision : Decision

-- `Session.Waiting`.
unfoldable pub is_waiting : Session → Bool
is_waiting s = elim s.state [ State.waiting ↦ true | _ ↦ false ]

-- An error of the store: the session is unknown, or the store could not answer.
pub data StoreError : Type 0 where
  no_such_session : StoreError
  broken : Text → StoreError

-- The errors of the service.
pub data ServiceError : Type 0 where
  no_session_named no_question no_author not_waiting : ServiceError
  refused : RoundError → ServiceError
  unknown_session : ServiceError
  unavailable : (what cause : Text) → ServiceError
  not_resumed : (cause : Text) → ServiceError
  no_questioner : ServiceError
  not_answered : (cause : Text) → ServiceError

-- What the service does, in its order.
pub data Call : Type 0 where
  read_session : Text → Call
  record_decision : Text → Decision → Call
  signal_decision : Text → Decision → Call
  append_message : Text → (author text : Text) → Call
  run_turn : Text → (sequence : ℕ) → (finish : Bool) → Call
  read_messages : Text → Call

-- `unavailable`, which keeps that there is no such session.
unfoldable pub unavailable_as : Text → StoreError → ServiceError
unavailable_as what no_such_session = unknown_session
unavailable_as what (broken cause) = unavailable what cause

-- The store and the signals, as they answer in one call.
pub record Answers : Type 0 where
  pub session : Result StoreError Session
  pub recorded : Result StoreError Session
  pub signalled : Result Text (Unit {0})
  pub questions : Bool
  pub appended : Result StoreError Message
  pub answered : Result Text (Unit {0})
  pub session_after : Result StoreError Session
  pub messages : Result StoreError (List Message)

-- The calls of a method, in their order, and its result.
abbrev pub Service : Type 0 → Type 0
Service A = List Call × Result ServiceError A

abbrev pub signal_with : Answers → Text → Session → Result Text (Unit {0}) → Service Session
signal_with a id recorded (ok _) = (signal_decision id recorded.decision ∷ [], ok recorded)
signal_with a id recorded (err cause) =
    (signal_decision id recorded.decision ∷ [], err (not_resumed cause))

-- `Decide`, where the round accepts the decision.
unfoldable pub record_with : Answers → Text → Decision → Result StoreError Session → Service Session
unfolding unavailable_as
record_with a id d (err e) =
    (record_decision id d ∷ [], err (unavailable_as (lit "record the steering decision") e))
record_with a id d (ok recorded) =
    let (calls, result) = signal_with a id recorded a.signalled in
    (record_decision id d ∷ calls, result)

unfoldable pub decide_valid :
    Answers → Text → Decision → Result RoundError (Unit {0}) → Service Session
unfolding record_with
decide_valid a id d (err e) = ([], err (refused e))
decide_valid a id d (ok _) = record_with a id d a.recorded

unfoldable pub decide_in : Answers → Text → Decision → Result StoreError Session → Service Session
unfolding decide_valid unavailable_as
decide_in a id d (err e) =
    (read_session id ∷ [], err (unavailable_as (lit "read the steering session") e))
decide_in a id d (ok session) =
    let (calls, result) = decide_valid a id d (validate_decision session.round d) in
    (read_session id ∷ calls, result)

-- `Service.Decide`.
unfoldable pub decide : Answers → Text → Decision → Service Session
unfolding decide_in
decide a id d =
    if is_blank (trim_space id) then ([], err no_session_named) else decide_in a id d a.session

-- `Service.Conversation`.
unfoldable pub conversation_of :
    Text → Result StoreError Session → Result StoreError (List Message) → Service Conversation
unfolding unavailable_as
conversation_of id (err e) messages =
    (read_session id ∷ [], err (unavailable_as (lit "read the steering session") e))
conversation_of id (ok s) (err e) = (
  read_session id ∷ read_messages id ∷ [],
  err (unavailable_as (lit "read the steering conversation") e),
)
conversation_of id (ok s) (ok messages) = (
  read_session id ∷ read_messages id ∷ [],
  ok (record { decision = s.decision; messages = messages }),
)

-- The turn of the agent that is asked, and the conversation after it.
unfoldable pub answer_turn :
    Answers → Text → Message → Bool → Result Text (Unit {0}) → Service Conversation
unfolding conversation_of
answer_turn a id message finish (err cause) =
    (run_turn id message.sequence finish ∷ [], err (not_answered cause))
answer_turn a id message finish (ok _) =
    let (calls, result) = conversation_of id a.session_after a.messages in
    (run_turn id message.sequence finish ∷ calls, result)

unfoldable pub append_turn :
    Answers → (id principal text : Text) → Bool → Result StoreError Message → Service Conversation
unfolding answer_turn unavailable_as
append_turn a id principal text finish (err e) = (
  append_message id principal text ∷ [],
  err (unavailable_as (lit "record the operator's answer") e),
)
append_turn a id principal text finish (ok message) =
    let (calls, result) = answer_turn a id message finish a.answered in
    (append_message id principal text ∷ calls, result)

unfoldable pub question_in :
    Answers → (id principal text : Text) → Bool → Result StoreError Session → Service Conversation
unfolding append_turn unavailable_as is_waiting
question_in a id principal text finish (err e) =
    (read_session id ∷ [], err (unavailable_as (lit "read the steering session") e))
question_in a id principal text finish (ok session) =
    let (calls, result) = append_turn a id principal text finish a.appended in
    if is_waiting session
    then (read_session id ∷ calls, result)
    else (read_session id ∷ [], err not_waiting)

-- `Service.Question`.
unfoldable pub question : Answers → (id principal text : Text) → Bool → Service Conversation
unfolding question_in
question a id principal text finish =
    if is_blank (trim_space id) || is_blank (trim_space text)
    then ([], err no_question)
    else if is_blank (trim_space principal)
    then ([], err no_author)
    else if a.questions
    then question_in a id principal text finish a.session
    else ([], err no_questioner)
