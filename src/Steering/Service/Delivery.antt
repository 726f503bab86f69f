-- ===== src/Steering/Service/Delivery.antt =====
-- A decision is recorded before the loop that waits for it is signalled.
use mathlib.Core.Path.{◌≡◌, refl, ap}
use mathlib.Core.Bool.{Bool, true, false}
use mathlib.Core.List.{List, [], ◌∷◌}
use mathlib.Core.Option.{Option, none, some}
use native.Mathlib.Omega.{arith}
use temporal_agents.Prelude.{Text, Result, ok, err, if◌then◌else◌, trim_space}
use temporal_agents.Steering.Decision.{Decision}
use temporal_agents.Steering.Rounds.{RoundError, validate_decision}
use temporal_agents.Steering.Service.{
  Session, Answers, no_session_named, Call, Service, StoreError, read_session, record_decision,
  signal_decision, append_message, run_turn, read_messages, is_blank, record_with, decide_valid,
  decide_in, decide,
}

-- The decision that the calls signal, if they signal one.
abbrev pub signal_of : List Call → Option Decision
signal_of [] = none
signal_of (read_session id ∷ calls) = signal_of calls
signal_of (record_decision id d ∷ calls) = signal_of calls
signal_of (signal_decision id d ∷ calls) = some d
signal_of (append_message id author text ∷ calls) = signal_of calls
signal_of (run_turn id sequence finish ∷ calls) = signal_of calls
signal_of (read_messages id ∷ calls) = signal_of calls

-- A decision is delivered as it was recorded, after the round accepted the one that was sent.
pub record IsDelivered (a : Answers) (id : Text) (d sent : Decision) (calls : List Call)
    : Type 0 where
  pub recorded : (s : Session) × (a.recorded ≡ ok s) × (sent ≡ s.decision)
  pub accepted : (s : Session) × (a.session ≡ ok s) × (validate_decision s.round d ≡ ok tt)
  pub in_order : calls ≡ read_session id ∷ record_decision id d ∷ signal_decision id sent ∷ []

record_with-signals :
    (a : Answers) (id : Text) (d sent : Decision) (r : Result StoreError Session)
    → signal_of (record_with a id d r).0 ≡ some sent
    → (s : Session) × (r ≡ ok s)
      × (sent ≡ s.decision)
      × ((record_with a id d r).0 ≡ record_decision id d ∷ signal_decision id sent ∷ [])
unfolding record_with
record_with-signals a id d sent r h = ground arith

decide_valid-signals :
    (a : Answers) (id : Text) (d sent : Decision) (v : Result RoundError (Unit {0}))
    → signal_of (decide_valid a id d v).0 ≡ some sent
    → (v ≡ ok tt)
      × ((s : Session) × (a.recorded ≡ ok s)
          × (sent ≡ s.decision)
          × ((decide_valid a id d v).0 ≡ record_decision id d ∷ signal_decision id sent ∷ []))
unfolding decide_valid
decide_valid-signals a id d sent (err e) h = cc
decide_valid-signals a id d sent (ok _) h = (refl, record_with-signals a id d sent a.recorded h)

decide_in-signals :
    (a : Answers) (id : Text) (d sent : Decision) (r : Result StoreError Session)
    → a.session ≡ r
    → signal_of (decide_in a id d r).0 ≡ some sent
    → IsDelivered a id d sent (decide_in a id d r).0
unfolding decide_in
decide_in-signals a id d sent (err e) same_session h = cc
decide_in-signals a id d sent (ok s) same_session h =
    let (accepted, (r, recorded, same_decision, calls)) =
      decide_valid-signals a id d sent (validate_decision s.round d) h in
    record {
      recorded = (r, recorded, same_decision);
      accepted = (s, same_session, accepted);
      in_order = ap (λ rest. read_session id ∷ rest) calls;
    }

decide_if-signals :
    (a : Answers) (id : Text) (d sent : Decision) (is_unnamed : Bool)
    → let out : Service Session =
        if is_unnamed then ([], err no_session_named) else decide_in a id d a.session in
      signal_of out.0 ≡ some sent → IsDelivered a id d sent out.0
decide_if-signals a id d sent true h = cc
decide_if-signals a id d sent false h = decide_in-signals a id d sent a.session refl h

-- A decision reaches a waiting loop only if the session's round accepts the decision that was sent and the store has recorded one before: the signal carries the recorded decision, and the calls are a read, the record and the signal, in this order.
pub decide-signals :
    (a : Answers) (id : Text) (d sent : Decision)
    → signal_of (decide a id d).0 ≡ some sent
    → IsDelivered a id d sent (decide a id d).0
unfolding decide
decide-signals a id d sent h = decide_if-signals a id d sent (is_blank (trim_space id)) h
