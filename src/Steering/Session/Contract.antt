-- ===== src/Steering/Session/Contract.antt =====
-- What a session promises: the first decision that its round accepts wins, for good.
use Prim.Native.Nat.{ℕ, suc}
use mathlib.Core.Path.{◌≡◌, refl, subst, sym, ap, ◌∙◌}
use mathlib.Core.Logic.{inl, inr}
use mathlib.Core.List.{List, Memᴰ, [], ◌∷◌}
use temporal_agents.Prelude.{Bool-cases, if◌then◌else◌}
use temporal_agents.Steering.Decision.{Decision}
use temporal_agents.Steering.Rounds.{Round}
use temporal_agents.Steering.Session.Answers.{IsAnswer, is_decisive-IsAnswer, not_decisive-IsAnswer}
use temporal_agents.Steering.Session.{
  SessionEvent, sent, day_passed, no_decision, Wait, still_waiting, decided, is_decisive,
  await_decision,
}

-- The contract: a session waits, or it is decided.
pub data Phase : Type 0 where
  open_round : Phase
  closed_with : Decision → Phase

-- A decision that answers the round closes it. Nothing else does, and nothing reopens it.
pub data Step (round : Round) : Phase → SessionEvent → Phase → Type 0 where
  reminds : Step round open_round day_passed open_round
  passes_over : (d : Decision) → ¬ IsAnswer round d → Step round open_round (sent d) open_round
  decides : (d : Decision) → IsAnswer round d → Step round open_round (sent d) (closed_with d)
  ignores : (d : Decision) (e : SessionEvent) → Step round (closed_with d) e (closed_with d)

pub data Steps (round : Round) : Phase → List SessionEvent → Phase → Type 0 where
  done : (p : Phase) → Steps round p [] p
  more :
      {p q r : Phase} {e : SessionEvent} {es : List SessionEvent}
      → Step round p e q
      → Steps round q es r
      → Steps round p (e ∷ es) r

abbrev pub phase_of : Wait → Phase
phase_of (still_waiting n) = open_round
phase_of (decided d n queued) = closed_with d

stays_closed :
    (round : Round) (d : Decision) (es : List SessionEvent)
    → Steps round (closed_with d) es (closed_with d)
stays_closed round d [] = done (closed_with d)
stays_closed round d (e ∷ es) = more (ignores d e) (stays_closed round d es)

await_decision-Steps :
    (round : Round) (n : ℕ) (es : List SessionEvent)
    → Steps round open_round es (phase_of (await_decision round n es))
unfolding await_decision
await_decision-Steps round n [] = done open_round
await_decision-Steps round n (day_passed ∷ es) =
    more reminds (await_decision-Steps round (suc n) es)
await_decision-Steps round n (sent d ∷ es) = elim (Bool-cases (is_decisive round d)) [
  | inl yes_it_is ↦
      rw yes_it_is
        (more (decides d (is_decisive-IsAnswer round d yes_it_is)) (stays_closed round d es))
  | inr other ↦
      rw other (
        more (passes_over d (not_decisive-IsAnswer round d other))
          (await_decision-Steps round n es))
]

-- An event leads to one phase.
Step-unique :
    (round : Round) {p q r : Phase} {e : SessionEvent} → Step round p e q → Step round p e r → q ≡ r
Step-unique round reminds reminds = refl
Step-unique round (passes_over d a) (passes_over d' b) = refl
Step-unique round (passes_over d a) (decides d' b) = elim (a b) [ ]
Step-unique round (decides d a) (passes_over d' b) = elim (b a) [ ]
Step-unique round (decides d a) (decides d' b) = refl
Step-unique round (ignores d e) (ignores d' e') = refl

Steps-from :
    (round : Round) (es : List SessionEvent) {a b r : Phase}
    → a ≡ b
    → Steps round b es r
    → Steps round a es r
Steps-from round es {r} e steps = subst (λ c. Steps round c es r) (sym e) steps

Steps-unique :
    (round : Round) {p q r : Phase} (es : List SessionEvent)
    → Steps round p es q
    → Steps round p es r
    → q ≡ r
Steps-unique round [] (done p) (done p') = refl
Steps-unique round (e ∷ es) (more s rest) (more s' rest') =
    Steps-unique round es rest (Steps-from round es (Step-unique round s s') rest')

-- The loop of a session refines the contract of a round: whatever signals and timers it receives, in any order, it ends in the one phase that the contract's steps lead to. So the first decision that answers the round wins, that is an acceptable one whose choice the round offers; any other changes nothing, and what comes after the first changes nothing either.
pub await_decision-refines :
    (round : Round) (n : ℕ) (es : List SessionEvent) (p : Phase)
    → Steps round open_round es p
    → phase_of (await_decision round n es) ≡ p
await_decision-refines round n es p steps =
    Steps-unique round es (await_decision-Steps round n es) steps

abbrev decision_in : Wait → Decision
decision_in (still_waiting n) = no_decision
decision_in (decided d n queued) = d

-- What decides a session was sent to it, and answers its round.
pub await_decision-answers :
    (round : Round) (n : ℕ) (es : List SessionEvent) (d : Decision) (m : ℕ)
    (queued : List SessionEvent)
    → await_decision round n es ≡ decided d m queued
    → Memᴰ (sent d) es × IsAnswer round d
unfolding await_decision
await_decision-answers round n [] d m queued h = cc
await_decision-answers round n (day_passed ∷ es) d m queued h =
    let (member, answer) = await_decision-answers round (suc n) es d m queued h in
    (Memᴰ.tail member, answer)
await_decision-answers round n (sent d' ∷ es) d m queued h =
    elim (Bool-cases (is_decisive round d')) [
      | inl yes_it_is ↦
          let same_wait : decided d' n es ≡ decided d m queued =
            ap (λ b. if b then decided d' n es else await_decision round n es) (sym yes_it_is)
            ∙ h in
          let same_decision : d' ≡ d = ap decision_in same_wait in
          subst (λ x. Memᴰ (sent x) (sent d' ∷ es) × IsAnswer round x) same_decision
            (Memᴰ.head refl, is_decisive-IsAnswer round d' yes_it_is)
      | inr other ↦
          let later : await_decision round n es ≡ decided d m queued =
            ap (λ b. if b then decided d' n es else await_decision round n es) (sym other) ∙ h in
          let (member, answer) = await_decision-answers round n es d m queued later in
          (Memᴰ.tail member, answer)
    ]
