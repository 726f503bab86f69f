-- ===== src/Steering/Session.antt =====
-- internal/steering/workflow.go, `SessionWorkflow`: the session that waits for an operator's decision.
pub mod Answers
pub mod Contract
pub mod Ending
pub mod Settled
use Prim.Native.Nat.{ℕ, suc, zero}
use mathlib.Core.Path.{◌≡◌, refl}
use mathlib.Core.Bool.{Bool, true, false}
use mathlib.Core.List.{List, [], ◌∷◌, ◌++◌}
use mathlib.Core.Option.{Option, none, some}
use temporal_agents.Prelude.{Text, lit, Result, ok, err, itoa, if◌then◌else◌}
use temporal_agents.Steering.Decision.{Decision, made}
use temporal_agents.Steering.Rounds.{Round, RoundError, validate_decision}

-- What the selector receives: a signal, or the timer of a day.
pub data SessionEvent : Type 0 where
  sent : Decision → SessionEvent
  day_passed : SessionEvent

-- The decision of a session that has none, and the notice of a wait.
abbrev pub no_decision : Decision
no_decision = record { choice = []; guidance = []; principal = [] }

pub record WaitingNotice : Type 0 where
  pub id : Text
  pub title : Text
  pub body : Text

-- `notifyWaiting`.
unfoldable pub waiting_notice : Text → ℕ → WaitingNotice
waiting_notice id zero = record {
  id = id ++ lit ":waiting:0";
  title = lit "Review guidance is waiting";
  body = lit "A review round is waiting for an operator decision.";
}
waiting_notice id (suc n) = record {
  id = id ++ (lit ":waiting:" ++ itoa (suc n));
  title = lit "Review guidance is still waiting";
  body =
      lit "Reminder "
      ++ (itoa (suc n) ++ lit ": a review round is still waiting for an operator decision.");
}

-- What the wait has come to: the decision, the reminders and the signals behind the decision, or a
-- wait that goes on.
pub data Wait : Type 0 where
  still_waiting : (reminders : ℕ) → Wait
  decided : Decision → (reminders : ℕ) → (queued : List SessionEvent) → Wait

abbrev pub is_accepted : Result RoundError (Unit {0}) → Bool
is_accepted (ok _) = true
is_accepted (err e) = false

-- One turn of the loop ends the wait for a decision that is made and that the round offers.
unfoldable pub is_decisive : Round → Decision → Bool
unfolding made validate_decision
is_decisive round d = if made d then is_accepted (validate_decision round d) else false

-- The loop over the events, after so many reminders.
unfoldable pub await_decision : Round → ℕ → List SessionEvent → Wait
unfolding is_decisive
await_decision round reminders [] = still_waiting reminders
await_decision round reminders (day_passed ∷ events) = await_decision round (suc reminders) events
await_decision round reminders (sent d ∷ events) =
    let later = await_decision round reminders events in
    if is_decisive round d then decided d reminders events else later

-- The notices of a wait with so many reminders, the latest first.
unfoldable pub notices : Text → ℕ → List WaitingNotice
unfolding waiting_notice
notices id zero = waiting_notice id 0 ∷ []
notices id (suc n) = waiting_notice id (suc n) ∷ notices id n
