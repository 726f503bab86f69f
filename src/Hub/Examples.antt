-- ===== src/Hub/Examples.antt =====
-- Fleets and plans that a hub shows, and the theorems at them.
use Prim.Native.Nat.{suc, ◌<◌}
use mathlib.Core.Path.{◌≡◌, refl}
use mathlib.Core.Logic.{◌↔◌}
use mathlib.Core.List.{List, [], ◌∷◌, Memᴰ}
use mathlib.Core.Option.{none, some}
use temporal_agents.Prelude.{Text, lit, Map, lookup, sort, text_discrete, length}
use temporal_agents.Hub.Status.{
  WorkStatus, ExecutionOutcome, blocked, paused, waiting, done, waiting_input, HubNode,
  aggregate_status, node_progress,
}
use temporal_agents.Hub.Status.Aggregate.{
  Claims, aggregate_status-Claims, aggregate_status-done_iff,
}
use temporal_agents.Hub.Derive.{
  PlanNode, Plan, remaining, dependency_order, place_all, derive_node_statuses,
}
use temporal_agents.Hub.Derive.Placing.{
  IsPlaced, dependency_order-IsPlaced, place_all-dependency_order,
}
use temporal_agents.Hub.Derive.Outcomes.{IsExplained, derive_node_statuses-IsExplained}

abbrev node : Text → List Text → PlanNode
node id deps = record { id = id; prompt = lit "do it"; depends_on = deps }

-- `c` needs `b`, which needs `a`; `x` and `y` need one another.
abbrev chain : Plan
chain = record {
  goal = lit "ship";
  nodes =
      node (lit "c") (lit "b" ∷ [])
      ∷ node (lit "b") (lit "a" ∷ [])
      ∷ node (lit "a") []
      ∷ node (lit "x") (lit "y" ∷ [])
      ∷ node (lit "y") (lit "x" ∷ [])
      ∷ [];
}

-- `a` needs an operator.
abbrev outcomes : Map ExecutionOutcome
outcomes = (lit "a", blocked) ∷ []

abbrev shown : Text → WorkStatus → HubNode
shown id status = record {
  id = id;
  prompt = lit "do it";
  depends_on = [];
  status = status;
  execution = none;
}

abbrev fleet : List HubNode
fleet = shown (lit "a") done ∷ shown (lit "b") waiting_input ∷ shown (lit "c") paused ∷ []

chain_order : dependency_order chain ≡ lit "a" ∷ lit "b" ∷ lit "c" ∷ []
unfolding dependency_order text_discrete sort
chain_order = refl

chain_c : lookup (lit "c") (derive_node_statuses chain outcomes) ≡ some paused
unfolding derive_node_statuses text_discrete sort
chain_c = refl

chain_x : lookup (lit "x") (derive_node_statuses chain outcomes) ≡ some waiting
unfolding derive_node_statuses text_discrete sort
chain_x = refl

fleet_status : aggregate_status fleet ≡ waiting_input
unfolding aggregate_status
fleet_status = refl

derive_node_statuses-IsExplained_example :
    IsExplained chain (derive_node_statuses chain outcomes) (lit "c") (lookup (lit "c") outcomes)
derive_node_statuses-IsExplained_example =
    derive_node_statuses-IsExplained chain outcomes (node (lit "c") (lit "b" ∷ [])) (Memᴰ.head refl)

aggregate_status-Claims_example : Claims (aggregate_status fleet) fleet
aggregate_status-Claims_example = aggregate_status-Claims fleet

aggregate_status-done_iff_example : (aggregate_status fleet ≡ done) ↔ (
    (0 < (node_progress fleet).total) × ((node_progress fleet).done ≡ (node_progress fleet).total))
aggregate_status-done_iff_example = aggregate_status-done_iff fleet

dependency_order-IsPlaced_example : IsPlaced (remaining chain) [] (dependency_order chain)
dependency_order-IsPlaced_example = dependency_order-IsPlaced chain

place_all-dependency_order_example :
    place_all (remaining chain) (suc (length (remaining chain))) [] ≡ some (dependency_order chain)
place_all-dependency_order_example = place_all-dependency_order chain
