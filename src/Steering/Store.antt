-- ===== src/Steering/Store.antt =====
-- internal/steering/steeringpg/steeringpg.go: the stored row of a session, and how it is settled.
use mathlib.Core.Bool.{Bool, true, false}
use mathlib.Core.List.{[], ◌∷◌}
use temporal_agents.Prelude.{Text, if◌then◌else◌}
use temporal_agents.Steering.Decision.{Decision}

-- `State`.
pub data State : Type 0 where
  waiting decided abandoned : State

-- What a row says of the decision of a session.
pub record StoredSession : Type 0 where
  pub state : State
  pub decision : Decision

abbrev pub is_blank : Text → Bool
is_blank [] = true
is_blank (c ∷ s) = false

-- The `SET` of `closeSessionSQL`, which keeps a choice that is there.
unfoldable pub settled_with : (stored told : Decision) → StoredSession
settled_with stored told = record {
  state =
      if is_blank stored.choice
      then (if is_blank told.choice then abandoned else decided)
      else decided;
  decision = record {
    choice = if is_blank stored.choice then told.choice else stored.choice;
    guidance =
        if is_blank stored.choice
        then (if is_blank told.guidance then stored.guidance else told.guidance)
        else stored.guidance;
    principal = if is_blank stored.choice then told.principal else stored.principal;
  };
}

-- `Store.CloseSession` where it does not fail: only a waiting session changes.
unfoldable pub close_from : State → StoredSession → Decision → StoredSession
unfolding settled_with
close_from waiting s told = settled_with s.decision told
close_from decided s told = s
close_from abandoned s told = s

unfoldable pub close_session : StoredSession → Decision → StoredSession
unfolding close_from
close_session s told = close_from s.state s told
