-- ===== src/Hub/Status.antt =====
-- internal/agenthub/domain.go: the statuses of the hub, and what is reduced from them.
pub mod Aggregate
use Prim.Native.Nat.{ℕ, suc, zero}
use mathlib.Core.Path.{◌≡◌, refl}
use mathlib.Core.Bool.{Bool, true, false, not}
use mathlib.Core.List.{List, [], ◌∷◌, ◌++◌}
use mathlib.Core.Option.{Option, none, some}
use temporal_agents.Prelude.{Text, ltb, length, if◌then◌else◌}

-- `WorkStatus`.
pub data WorkStatus : Type 0 where
  todo in_progress paused waiting_input waiting done failed : WorkStatus

-- `WorkStatuses`.
unfoldable pub work_statuses : List WorkStatus
work_statuses = todo ∷ in_progress ∷ paused ∷ waiting_input ∷ waiting ∷ done ∷ failed ∷ []

-- `ExecutionOutcome`. The last case is any other string.
pub data ExecutionOutcome : Type 0 where
  running succeeded failed blocked skipped : ExecutionOutcome
  unknown : Text → ExecutionOutcome

-- `ExecutionOutcome.WorkStatus`.
unfoldable pub work_status : ExecutionOutcome → WorkStatus
work_status ExecutionOutcome.running = in_progress
work_status ExecutionOutcome.succeeded = done
work_status ExecutionOutcome.blocked = waiting_input
work_status ExecutionOutcome.skipped = paused
work_status ExecutionOutcome.failed = WorkStatus.failed
work_status (unknown _) = WorkStatus.failed

-- `==` on statuses.
unfoldable pub is_status : WorkStatus → WorkStatus → Bool
is_status todo todo = true
is_status in_progress in_progress = true
is_status paused paused = true
is_status waiting_input waiting_input = true
is_status waiting waiting = true
is_status done done = true
is_status WorkStatus.failed WorkStatus.failed = true
is_status _ _ = false

-- `NodeExecution`, less its times.
pub record NodeExecution : Type 0 where
  pub workflow_id : Text
  pub run_id : Text
  pub tokens : ℕ

-- `FleetNode`, less its location.
pub record HubNode : Type 0 where
  pub id : Text
  pub prompt : Text
  pub depends_on : List Text
  pub status : WorkStatus
  pub execution : Option NodeExecution

-- `Progress`.
pub record Progress : Type 0 where
  pub done : ℕ
  pub total : ℕ

-- `counts[s]` after the loop of `AggregateStatus`.
unfoldable pub count_status : WorkStatus → List HubNode → ℕ
unfolding is_status
count_status s [] = 0
count_status s (n ∷ ns) =
    let rest = count_status s ns in if is_status s n.status then suc rest else rest

-- `anyDone` and `anyOther` after the loop.
unfoldable pub any_done : List HubNode → Bool
unfolding is_status
any_done [] = false
any_done (n ∷ ns) = let rest = any_done ns in if is_status done n.status then true else rest

unfoldable pub any_other : List HubNode → Bool
unfolding is_status
any_other [] = false
any_other (n ∷ ns) = let rest = any_other ns in if is_status done n.status then rest else true

-- The switch of `AggregateStatus`, on its tests in their order.
unfoldable pub precedence :
    (any_failed any_waiting_input any_in_progress any_paused has_other has_done : Bool) → WorkStatus
precedence any_failed any_waiting_input any_in_progress any_paused has_other has_done =
    if any_failed
    then WorkStatus.failed
    else if any_waiting_input
    then waiting_input
    else if any_in_progress
    then in_progress
    else if any_paused
    then paused
    else if not has_other
    then WorkStatus.done
    else if has_done
    then in_progress
    else todo

-- `AggregateStatus`.
unfoldable pub aggregate_status : List HubNode → WorkStatus
unfolding count_status any_done any_other precedence
aggregate_status [] = todo
aggregate_status (n ∷ ns) =
    let nodes = n ∷ ns in
    precedence (ltb 0 (count_status WorkStatus.failed nodes))
      (ltb 0 (count_status waiting_input nodes)) (ltb 0 (count_status in_progress nodes))
      (ltb 0 (count_status paused nodes)) (any_other nodes) (any_done nodes)

-- `NodeProgress`.
unfoldable pub node_progress : List HubNode → Progress
unfolding count_status
node_progress nodes = record { done = count_status WorkStatus.done nodes; total = length nodes }

-- The nodes of one status, in plan order.
unfoldable pub with_status : WorkStatus → List HubNode → List HubNode
unfolding is_status
with_status s [] = []
with_status s (n ∷ ns) =
    let rest = with_status s ns in if is_status s n.status then n ∷ rest else rest

-- `Fleet.UpNext`.
unfoldable pub up_next : List HubNode → List HubNode
unfolding with_status
up_next nodes = with_status todo nodes ++ with_status waiting nodes

-- `ScheduleStatus`. An action that never ran has no outcome.
unfoldable pub schedule_status : Bool → ℕ → Option ExecutionOutcome → WorkStatus
unfolding work_status
schedule_status true actions last = paused
schedule_status false (suc actions) last = in_progress
schedule_status false zero none = todo
schedule_status false zero (some outcome) = work_status outcome
