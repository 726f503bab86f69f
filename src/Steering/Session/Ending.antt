-- ===== src/Steering/Session/Ending.antt =====
-- internal/steering/workflow.go, `SessionWorkflow` from its record to its result.
use Prim.Native.Nat.{ℕ}
use mathlib.Core.Bool.{Bool, true}
use mathlib.Core.List.{List, ◌++◌}
use mathlib.Core.Option.{Option, none, some}
use temporal_agents.Prelude.{Text, lit, Result, ok, err}
use temporal_agents.Runs.{Failure, Stored, no_row, stored_by}
use temporal_agents.Steering.Decision.{Decision}
use temporal_agents.Steering.Store.{StoredSession, close_session}
use temporal_agents.Steering.Rounds.{Round}
use temporal_agents.Steering.Session.{
  SessionEvent, Wait, still_waiting, decided, no_decision, await_decision,
}

-- `SessionRecord`, less the handles, the place and the times. One that has neither ended nor failed is
-- running.
pub record SessionRow : Type 0 where
  pub round : Round
  pub ended : Bool
  pub tokens : ℕ
  pub decision : Decision
  pub error : Option Failure

-- What the activities of a session answer, and what the store says of it by the time it is settled.
pub record SessionAnswers : Type 0 where
  pub recorded : Result Failure (Unit {0})
  pub query_set : Result Failure (Unit {0})
  pub tokens : Result Failure ℕ
  pub settled : Result Failure (Unit {0})
  pub closed : Result Failure (Unit {0})
  pub session : StoredSession

-- How a session ends: its result, its row, and what the store says of it then.
pub record SessionEnd : Type 0 where
  pub result : Result Failure Decision
  pub row : Stored SessionRow
  pub session : StoredSession

abbrev pub prefixed : Text → Failure → Failure
prefixed prefix e = record e { message = prefix ++ e.message }

-- The named result `decision`, which an error leaves at its zero value, and the error.
abbrev pub decision_of : Result Failure Decision → Decision
decision_of (ok d) = d
decision_of (err e) = no_decision

abbrev pub error_of : Result Failure Decision → Option Failure
error_of (ok d) = none
error_of (err e) = some e

-- The row that `finishSessionRecord` writes.
abbrev pub terminal_row : Round → ℕ → Result Failure Decision → SessionRow
terminal_row round tokens result = record {
  round = round;
  ended = true;
  tokens = tokens;
  decision = decision_of result;
  error = error_of result;
}

-- `closeSession`, whose error is only logged.
unfoldable pub closed_by : Result Failure (Unit {0}) → StoredSession → Decision → StoredSession
unfolding close_session
closed_by (ok _) session d = close_session session d
closed_by (err e) session d = session

-- The deferred function: the row tells of the result, and the stored session stops waiting.
unfoldable pub end_session : SessionAnswers → Round → ℕ → Result Failure Decision → SessionEnd
unfolding closed_by
end_session a round tokens result = record {
  result = result;
  row = stored_by a.settled (terminal_row round tokens result);
  session = closed_by a.closed a.session (decision_of result);
}

-- The tokens of the conversation, once the decision is in.
unfoldable pub after_wait : SessionAnswers → Round → Wait → Result Failure ℕ → Option SessionEnd
unfolding end_session
after_wait a round (still_waiting n) tokens = none
after_wait a round (decided d n queued) (ok tokens) = some (end_session a round tokens (ok d))
after_wait a round (decided d n queued) (err e) =
    some (end_session a round 0 (err (prefixed (lit "read the questioning token usage: ") e)))

unfoldable pub with_query :
    SessionAnswers → Round → List SessionEvent → Result Failure (Unit {0}) → Option SessionEnd
unfolding after_wait end_session
with_query a round events (err e) =
    some (end_session a round 0 (err (prefixed (lit "publish the steering session's state: ") e)))
with_query a round events (ok _) = after_wait a round (await_decision round 0 events) a.tokens

unfoldable pub with_record :
    SessionAnswers → Round → List SessionEvent → Result Failure (Unit {0}) → Option SessionEnd
unfolding with_query
with_record a round events (err e) = some (record {
  result = err (prefixed (lit "record the steering session as started: ") e);
  row = no_row;
  session = a.session;
})
with_record a round events (ok _) = with_query a round events a.query_set

-- `SessionWorkflow` over the events that it has received; `none` is a session that still waits.
unfoldable pub session_workflow : SessionAnswers → Round → List SessionEvent → Option SessionEnd
unfolding with_record
session_workflow a round events = with_record a round events a.recorded
