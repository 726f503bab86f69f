-- ===== src/Fleet/Examples.antt =====
-- Plans and runs of a fleet, and the theorems at them.
use Prim.Native.Nat.{ℕ}
use mathlib.Core.Path.{◌≡◌, refl}
use mathlib.Core.Logic.{◌↔◌, ◌≢◌}
use mathlib.Core.List.{List, [], ◌∷◌}
use mathlib.Core.Bool.{false}
use mathlib.Core.Option.{Option, none, some}
use native.Mathlib.Omega.{arith}
use temporal_agents.Prelude.{
  Map, Text, lit, has_prefix, ok, text_discrete, lookup, join, sort, trim_space, has,
}
use temporal_agents.Fleet.Search.{FleetNode, FleetPlan, find_cycle, search_plan, exhausted}
use temporal_agents.Fleet.Search.Verdict.{
  IsAcyclic, RendersCycle, find_cycle-nil_iff, find_cycle-RendersCycle, search_plan-ne-exhausted,
}
use temporal_agents.Fleet.Plan.{is_slug, validate_plan}
use temporal_agents.Fleet.Plan.WellFormed.{IsWellFormed}
use temporal_agents.Fleet.Plan.Accepts.{validate_plan-ok_iff}
use temporal_agents.Fleet.Layers.{topo_layers}
use temporal_agents.Fleet.Layers.Order.{
  IsLayering, IsTopological, topo_layers-IsLayering, topo_layers-IsTopological,
}
use temporal_agents.Fleet.Run.{
  NodeResult, FleetInput, ChildOutcome, DevelopInput, completed, failure,
}
use temporal_agents.Fleet.Workflow.{Environment, run_context, finish, fleet_workflow}
use temporal_agents.Fleet.Workflow.Outcome.{IsGated, reported, fleet_workflow-IsGated}
use temporal_agents.Fleet.Run.Ordering.{settling_order}

abbrev node : Text → List Text → FleetNode
node id deps = record { id = id; prompt = lit "do it"; depends_on = deps }

-- `c` needs `a` and `b`, and `b` needs `a`.
abbrev diamond : FleetPlan
diamond = record {
  goal = lit "ship";
  nodes =
      node (lit "c") (lit "b" ∷ lit "a" ∷ [])
      ∷ node (lit "b") (lit "a" ∷ [])
      ∷ node (lit "a") []
      ∷ [];
}

abbrev ring : FleetPlan
ring = record {
  goal = [];
  nodes =
      node (lit "a") (lit "b" ∷ [])
      ∷ node (lit "b") (lit "c" ∷ [])
      ∷ node (lit "c") (lit "b" ∷ [])
      ∷ [];
}

program : Unit {0}
unfolding find_cycle validate_plan topo_layers fleet_workflow is_slug has trim_space text_discrete
    lookup sort join has_prefix
program = tt

diamond_valid : validate_plan diamond ≡ ok tt
unfolding program
diamond_valid = refl

ring_found : find_cycle ring ≡ lit "b -> c -> b"
unfolding program
ring_found = refl

diamond_layers : topo_layers diamond ≡ ok ((lit "a" ∷ []) ∷ (lit "b" ∷ []) ∷ (lit "c" ∷ []) ∷ [])
unfolding program
diamond_layers = refl

find_cycle-nil_example : (find_cycle diamond ≡ []) ↔ IsAcyclic diamond
find_cycle-nil_example = find_cycle-nil_iff diamond

find_cycle-RendersCycle_example : RendersCycle ring (find_cycle ring)
find_cycle-RendersCycle_example = find_cycle-RendersCycle ring (λ h. unfold program in ground arith)

search_plan_example : search_plan ring ≢ exhausted
search_plan_example = search_plan-ne-exhausted ring

validate_plan-ok_example : (validate_plan diamond ≡ ok tt) ↔ IsWellFormed diamond.nodes
validate_plan-ok_example = validate_plan-ok_iff diamond

topo_layers-IsLayering_example :
    (rank : Text → ℕ) × (layers : List (List Text)) × (topo_layers diamond ≡ ok layers)
    × IsLayering diamond.nodes rank layers
topo_layers-IsLayering_example = topo_layers-IsLayering diamond diamond_valid

topo_layers-IsTopological_example :
    (layers : List (List Text)) × (topo_layers diamond ≡ ok layers)
    × IsTopological diamond.nodes layers
topo_layers-IsTopological_example = topo_layers-IsTopological diamond diamond_valid

-- The child of `b` fails to converge, and the others end well.
abbrev children : Text → DevelopInput → ChildOutcome
children id input = elim (text_discrete id (lit "fleet-1-b")) [
  | yes _ ↦ failure (some (lit "ReviewNotConverged")) (lit "not converged")
  | no _ ↦ completed (lit "done")
]

abbrev environment : Environment
environment = record {
  fleet_id = lit "fleet-1";
  record_error = none;
  base = ok (lit "abc123");
  children = children;
  cancelled = none;
}

abbrev input : FleetInput
input = record {
  plan = diamond;
  work_dir = lit "/repo";
  worktrees_dir = lit "/trees";
  summary = false;
}

fleet_workflow-IsGated_example :
    (layers : List (List Text)) × (topo_layers diamond ≡ ok layers)
    × ((results : Map NodeResult) × IsGated (run_context environment input (lit "abc123")) results
        × (fleet_workflow environment input
            ≡ finish none (reported results (settling_order results layers))))
fleet_workflow-IsGated_example =
    fleet_workflow-IsGated environment input (lit "abc123") refl (λ h. ground arith) refl
      diamond_valid

-- The same run without a worktrees directory.
abbrev homeless : FleetInput
homeless = record input { worktrees_dir = [] }
