-- ===== src/Steering/Session/Settled.antt =====
-- What a session leaves behind, and that it ends: `SessionWorkflow` of internal/steering/workflow.go.
use Prim.Native.Nat.{ℕ, suc}
use mathlib.Core.Path.{◌≡◌, refl, ap, ◌∙◌}
use mathlib.Core.Logic.{◌⊎◌, ◌≢◌, inl, inr}
use mathlib.Core.Bool.{true, false}
use mathlib.Core.List.{List, Memᴰ, [], ◌∷◌}
use mathlib.Core.Option.{Option, none, some}
use temporal_agents.Prelude.{Bool-cases, ok, err}
use temporal_agents.Runs.{Failure, Stored, no_row, left_running, holds}
use temporal_agents.Steering.Decision.{Decision}
use temporal_agents.Steering.Store.{State, StoredSession, waiting}
use temporal_agents.Steering.Rounds.{Round}
use temporal_agents.Steering.Session.Answers.{IsAnswer, IsAnswer-is_decisive}
use temporal_agents.Steering.Session.{
  SessionEvent, sent, day_passed, decided, is_decisive, await_decision,
}
use temporal_agents.Steering.Session.Ending.{
  SessionRow, SessionAnswers, SessionEnd, end_session, after_wait, with_query, with_record,
  session_workflow,
}

abbrev end_or : SessionEnd → Option SessionEnd → SessionEnd
end_or e none = e
end_or e (some e') = e'

-- The row of the terminal write names the decision; one that could not be written still says running.
abbrev pub RowSays : SessionAnswers → Decision → Stored SessionRow → Type 0
RowSays a d no_row = ⊥
RowSays a d left_running = (f : Failure) × (a.settled ≡ err f)
RowSays a d (holds row) = (row.decision ≡ d) × (row.error ≡ none) × (a.settled ≡ ok tt)

-- The stored session, where its settlement failed, is as it was. Otherwise one that waited is decided,
-- with the choice that the store held, and only where it held none with that of the session.
abbrev pub StoreSays : SessionAnswers → Decision → StoredSession → Type 0
StoreSays a d s =
    (((f : Failure) × (a.closed ≡ err f)) × (s ≡ a.session))
    ⊎ ((a.session.state ≢ waiting) × (s ≡ a.session))
    ⊎ ((a.session.decision.choice ≢ [])
        × (s.state ≡ State.decided)
        × (s.decision ≡ a.session.decision))
    ⊎ ((a.session.decision.choice ≡ [])
        × (s.state ≡ State.decided)
        × (s.decision.choice ≡ d.choice)
        × (s.decision.principal ≡ d.principal)
        × ((d.guidance ≡ []) ⊎ (s.decision.guidance ≡ d.guidance)))

-- What a decision that a session returns is, in terms of what the session received, and what the row
-- says of it.
pub record IsSettled (a : SessionAnswers) (round : Round) (events : List SessionEvent)
    (d : Decision) (e : SessionEnd) : Type 0 where
  pub was_sent : Memᴰ (sent d) events
  pub answers : IsAnswer round d
  pub row_says : RowSays a d e.row
  pub store_says : StoreSays a d e.session

passed_over :
    (round : Round) (events : List SessionEvent) (d d' : Decision)
    → Memᴰ (sent d) (sent d' ∷ events)
    → is_decisive round d ≡ true
    → is_decisive round d' ≡ false
    → Memᴰ (sent d) events
passed_over round events d d' (Memᴰ.tail later) decisive other = later
passed_over round events d d' (Memᴰ.head e) decisive other = cc

-- A decisive decision among the events ends the wait.
decisive-decides :
    (round : Round) (n : ℕ) (events : List SessionEvent) (d : Decision)
    → Memᴰ (sent d) events
    → is_decisive round d ≡ true
    → (d' : Decision) × (m : ℕ) × (queued : List SessionEvent) × (await_decision round n events
        ≡ decided d' m queued)
unfolding await_decision
decisive-decides round n [] d member decisive = elim member [ ]
decisive-decides round n (day_passed ∷ events) d (Memᴰ.tail later) decisive =
    decisive-decides round (suc n) events d later decisive
decisive-decides round n (day_passed ∷ events) d (Memᴰ.head e) decisive = cc
decisive-decides round n (sent d' ∷ events) d member decisive =
    elim (Bool-cases (is_decisive round d')) [
      | inl yes_it_is ↦ rw yes_it_is (d', n, events, refl)
      | inr other ↦ rw other (
          decisive-decides round n events d (passed_over round events d d' member decisive other)
            decisive)
    ]

-- A session ends with a decision once any decision that answers its round is among the signals it receives, however many reminders and other decisions come before, when its first row is written, its state is published and its tokens can be read; it needs neither the terminal write nor the settlement of the stored session to succeed.
pub session_workflow-ends :
    (a : SessionAnswers) (round : Round) (events : List SessionEvent) (d : Decision) (tokens : ℕ)
    → Memᴰ (sent d) events
    → IsAnswer round d
    → a.recorded ≡ ok tt
    → a.query_set ≡ ok tt
    → a.tokens ≡ ok tokens
    → (e : SessionEnd) × (won : Decision) × (session_workflow a round events ≡ some e)
      × (e.result ≡ ok won)
unfolding session_workflow with_record with_query after_wait end_session
session_workflow-ends a round events d tokens member answer recorded query_set told =
    let (won, m, queued, waited) =
      decisive-decides round 0 events d member (IsAnswer-is_decisive round d answer) in
    (
      end_session a round tokens (ok won),
      won,
      ap (with_record a round events) recorded
          ∙ ap (with_query a round events) query_set
          ∙ ap (λ w. after_wait a round w a.tokens) waited
          ∙ ap (after_wait a round (decided won m queued)) told,
      refl,
    )
