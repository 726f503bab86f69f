-- ===== src/Steering/Rounds.antt =====
-- internal/steering/workflow.go: the rounds that pause, their sessions, and what may be decided in each.
use mathlib.Core.Bool.{Bool, ◌||◌}
use mathlib.Core.List.{◌++◌}
use temporal_agents.Prelude.{Text, lit, same, Result, ok, err, require}
use temporal_agents.Steering.Decision.{
  Decision, DecisionError, guide, skip, stop, continue, accept, validate,
}

-- `Round`.
pub data Round : Type 0 where
  local_review remote_comments pass_limit : Round

-- A round as it is written.
unfoldable pub round_text : Round → Text
round_text local_review = lit "local-review"
round_text remote_comments = lit "remote-comments"
round_text pass_limit = lit "pass-limit"

-- `wfid.SteeringWorkflowID`, which `SessionID` returns.
unfoldable pub session_id : Text → Text
session_id loop_run_id = lit "steering-" ++ loop_run_id

-- `SessionIDFor`.
unfoldable pub session_id_for : Text → Round → Text
unfolding session_id
session_id_for loop_run_id pass_limit = session_id loop_run_id ++ lit "-pass-limit"
session_id_for loop_run_id local_review = session_id loop_run_id
session_id_for loop_run_id remote_comments = session_id loop_run_id

-- The errors of `ValidateDecision`.
pub data RoundError : Type 0 where
  not_valid : DecisionError → RoundError
  not_for_pass_limit not_for_review : Text → RoundError

-- The vocabulary of a round.
unfoldable pub is_offered : Round → Text → Bool
is_offered pass_limit choice = same choice continue || same choice accept || same choice stop
is_offered local_review choice = same choice guide || same choice skip || same choice stop
is_offered remote_comments choice = same choice guide || same choice skip || same choice stop

unfoldable pub refused_by : Round → Text → RoundError
refused_by pass_limit choice = not_for_pass_limit choice
refused_by local_review choice = not_for_review choice
refused_by remote_comments choice = not_for_review choice

unfoldable pub check_offered :
    Round → Decision → Result DecisionError (Unit {0}) → Result RoundError (Unit {0})
unfolding is_offered refused_by
check_offered round d (err e) = err (not_valid e)
check_offered round d (ok _) = require (is_offered round d.choice) (refused_by round d.choice)

-- `Round.ValidateDecision`.
unfoldable pub validate_decision : Round → Decision → Result RoundError (Unit {0})
unfolding check_offered
validate_decision round d = check_offered round d (validate d)
