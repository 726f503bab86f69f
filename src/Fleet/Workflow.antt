-- ===== src/Fleet/Workflow.antt =====
-- internal/fleet/workflow.go, `FleetWorkflow` from its first check to its result.
pub mod Outcome
pub mod Refusals
use mathlib.Core.Path.{◌≡◌, refl}
use mathlib.Core.List.{List, [], ◌∷◌, map}
use mathlib.Core.Option.{Option, none, some}
use temporal_agents.Prelude.{Text, Map, lookup, Result, ok, err, ◌>>=◌}
use temporal_agents.Fleet.Plan.{PlanError}
use temporal_agents.Fleet.Layers.{LayersError, topo_layers}
use temporal_agents.Fleet.Run.{
  NodeResult, failed, FleetInput, Children, RunContext, Progress, run_layers,
}

-- What the run meets outside itself: the record that it writes first, the base commit that
-- `ResolveBase` reads, the children, and whether it was cancelled by the time they have ended.
pub record Environment : Type 0 where
  pub fleet_id : Text
  pub record_error : Option Text
  pub base : Result Text Text
  pub children : Children
  pub cancelled : Option Text

-- The errors of `FleetWorkflow`.
pub data FleetError : Type 0 where
  not_recorded : Text → FleetError
  missing_worktrees_dir : FleetError
  invalid_plan : LayersError → FleetError
  no_base : Text → FleetError
  was_cancelled : Text → FleetError

-- `rec.Nodes`, and the result: the results that the summary is made of.
pub record FleetRun : Type 0 where
  pub nodes : List NodeResult
  pub result : Result FleetError (List NodeResult)

abbrev pub failed_early : FleetError → FleetRun
failed_early e = record { nodes = []; result = err e }

abbrev pub or_zero_result : Option NodeResult → NodeResult
or_zero_result none = record { id = []; status = failed; detail = []; tokens = 0 }
or_zero_result (some r) = r

-- The loop that fills `ordered`.
unfoldable pub ordered : Progress → List NodeResult
unfolding lookup
ordered p = map (λ id. or_zero_result (lookup id p.results)) p.order

abbrev pub no_progress : Progress
no_progress = record { results = []; order = [] }

abbrev pub run_context : Environment → FleetInput → Text → RunContext
run_context env input base = record {
  input = input;
  fleet_id = env.fleet_id;
  base = base;
  children = env.children;
}

unfoldable pub finish : Option Text → List NodeResult → FleetRun
finish none nodes = record { nodes = nodes; result = ok nodes }
finish (some e) nodes = record { nodes = nodes; result = err (was_cancelled e) }

unfoldable pub run_nodes : Environment → FleetInput → List (List Text) → Result Text Text → FleetRun
unfolding run_layers ordered finish
run_nodes env input layers (err e) = failed_early (no_base e)
run_nodes env input layers (ok base) =
    finish env.cancelled (ordered (run_layers (run_context env input base) layers no_progress))

unfoldable pub run_layered :
    Environment → FleetInput → Result LayersError (List (List Text)) → FleetRun
unfolding run_nodes
run_layered env input (err e) = failed_early (invalid_plan e)
run_layered env input (ok layers) = run_nodes env input layers env.base

unfoldable pub run_checked : Environment → FleetInput → Text → FleetRun
unfolding run_layered
run_checked env input [] = failed_early missing_worktrees_dir
run_checked env input (c ∷ dir) = run_layered env input (topo_layers input.plan)

unfoldable pub run_recorded : Environment → FleetInput → Option Text → FleetRun
unfolding run_checked
run_recorded env input (some e) = failed_early (not_recorded e)
run_recorded env input none = run_checked env input input.worktrees_dir

-- `FleetWorkflow`.
unfoldable pub fleet_workflow : Environment → FleetInput → FleetRun
unfolding run_recorded
fleet_workflow env input = run_recorded env input env.record_error
