-- ===== src/Fleet/Run.antt =====
-- internal/fleet/workflow.go, `FleetWorkflow`: the nodes of a plan, layer by layer.
pub mod Layer
pub mod Gating
pub mod Ordering
pub mod Reports
pub mod Blockers
use Prim.Native.Nat.{ℕ}
use mathlib.Core.Path.{◌≡◌, refl}
use mathlib.Core.Logic.{ite}
use mathlib.Core.Bool.{Bool, true, false, ◌||◌}
use mathlib.Core.List.{List, [], ◌∷◌, ◌++◌, map}
use mathlib.Core.Option.{Option, none, some}
use temporal_agents.Prelude.{
  Text, lit, ◌≟◌, same, Map, lookup, insert, Result, ok, err, if◌then◌else◌, sort,
}
use temporal_agents.Fleet.Search.{FleetNode, FleetPlan}
use temporal_agents.Fleet.Plan.{PlanError}
use temporal_agents.Fleet.Layers.{LayersError, topo_layers}
use temporal_agents.Fleet.Tokens.{parse_token_total}

-- `NodeBranch`, which is the child's workflow identity too.
unfoldable pub node_branch : Text → Text → Text
node_branch fleet_id node_id = fleet_id ++ lit "-" ++ node_id

-- `DependencyBranches`.
unfoldable pub dependency_branches : Text → FleetNode → List Text
unfolding node_branch
dependency_branches fleet_id node = map (node_branch fleet_id) (sort node.depends_on)

-- `NodeStatus`.
pub data NodeStatus : Type 0 where
  succeeded failed blocked skipped : NodeStatus

-- `NodeResult`.
pub record NodeResult : Type 0 where
  pub id : Text
  pub status : NodeStatus
  pub detail : Text
  pub tokens : ℕ

abbrev pub did_succeed : Option NodeResult → Bool
did_succeed none = false
did_succeed (some r) = elim r.status [ succeeded ↦ true | _ ↦ false ]

-- The first of the dependencies that did not succeed.
unfoldable pub first_unsuccessful : Map NodeResult → List Text → Option Text
first_unsuccessful results [] = none
first_unsuccessful results (dep ∷ deps) =
    if did_succeed (lookup dep results) then first_unsuccessful results deps else some dep

-- `blockingDependency`.
unfoldable pub blocking_dependency : FleetNode → Map NodeResult → Option Text
unfolding first_unsuccessful
blocking_dependency node results = first_unsuccessful results (sort node.depends_on)

-- `FleetInput`.
pub record FleetInput : Type 0 where
  pub plan : FleetPlan
  pub work_dir : Text
  pub worktrees_dir : Text
  pub summary : Bool

-- The fields of `codereview.DevelopInput` that a fleet gives its children.
pub record DevelopInput : Type 0 where
  pub work_dir : Text
  pub worktrees_dir : Text
  pub branch : Text
  pub start_point : Text
  pub merge_branches : List Text
  pub prompt : Text
  pub summary : Bool
  pub await_review : Bool

-- How a child workflow ends: its summary, or its error with the type of the application error in it.
pub data ChildOutcome : Type 0 where
  completed : Text → ChildOutcome
  failure : (type : Option Text) → (message : Text) → ChildOutcome

-- `codereview.SeedConflictBlockedErrType` and `codereview.ReviewNotConvergedErrType`.
abbrev pub is_recoverable : Option Text → Bool
is_recoverable none = false
is_recoverable (some type) =
    same type (lit "SeedConflictBlocked") || same type (lit "ReviewNotConverged")

-- The result of a node whose child ran.
unfoldable pub settled : Text → ChildOutcome → NodeResult
settled id (completed out) = record {
  id = id;
  status = succeeded;
  detail = out;
  tokens = parse_token_total out;
}
settled id (failure type message) = record {
  id = id;
  status = if is_recoverable type then blocked else failed;
  detail = message;
  tokens = 0;
}

-- The result of a node that was not started. A blocker is a slug, which %q only puts in quotes.
unfoldable pub skipped_result : Text → Text → NodeResult
skipped_result id blocker = record {
  id = id;
  status = skipped;
  detail = lit "skipped: dependency \"" ++ blocker ++ lit "\" did not succeed";
  tokens = 0;
}

-- `results` and `order`.
pub record Progress : Type 0 where
  pub results : Map NodeResult
  pub order : List Text

abbrev pub record_result : NodeResult → Progress → Progress
record_result r p = record { results = insert r.id r p.results; order = p.order ++ r.id ∷ [] }

-- `nodesByID[id]`, whose zero value stands for a key that is missing.
abbrev pub or_zero_node : Option FleetNode → FleetNode
or_zero_node none = record { id = []; prompt = []; depends_on = [] }
or_zero_node (some n) = n

unfoldable pub nodes_by_id : Map FleetNode → List FleetNode → Map FleetNode
nodes_by_id m [] = m
nodes_by_id m (n ∷ ns) = nodes_by_id (insert n.id n m) ns

-- How each started child will end, by its workflow identity and its input. The children of a layer
-- run at once: none of them reads what another leaves behind.
abbrev pub Children : Type 0
Children = Text → DevelopInput → ChildOutcome

-- What the loops of one run share.
pub record RunContext : Type 0 where
  pub input : FleetInput
  pub fleet_id : Text
  pub base : Text
  pub children : Children

unfoldable pub node_of : RunContext → Text → FleetNode
unfolding nodes_by_id lookup
node_of run id = or_zero_node (lookup id (nodes_by_id [] run.input.plan.nodes))

unfoldable pub child_input : RunContext → Text → FleetNode → DevelopInput
unfolding dependency_branches
child_input run id node = record {
  work_dir = run.input.work_dir;
  worktrees_dir = run.input.worktrees_dir;
  branch = node_branch run.fleet_id id;
  start_point = run.base;
  merge_branches = dependency_branches run.fleet_id node;
  prompt = node.prompt;
  summary = run.input.summary;
  await_review = true;
}

-- The future of a node's child.
unfoldable pub child_outcome : RunContext → Text → ChildOutcome
unfolding node_of child_input
child_outcome run id =
    run.children (node_branch run.fleet_id id) (child_input run id (node_of run id))

-- The first loop over a layer: a node with a blocker is skipped, any other is started.
unfoldable pub start_layer :
    RunContext → List Text → Progress → Progress × List (Text × ChildOutcome)
unfolding child_outcome blocking_dependency skipped_result
start_layer run [] p = (p, [])
start_layer run (id ∷ rest) p = elim (blocking_dependency (node_of run id) p.results) [
  | some blocker ↦ start_layer run rest (record_result (skipped_result id blocker) p)
  | none ↦ let (p', started) = start_layer run rest p in (p', (id, child_outcome run id) ∷ started)
]

-- The second loop: every child that was started is waited for.
unfoldable pub await_layer : List (Text × ChildOutcome) → Progress → Progress
unfolding settled
await_layer [] p = p
await_layer ((id, outcome) ∷ rest) p = await_layer rest (record_result (settled id outcome) p)

unfoldable pub run_layer : RunContext → List Text → Progress → Progress
unfolding start_layer await_layer
run_layer run layer p = let (p', started) = start_layer run layer p in await_layer started p'

unfoldable pub run_layers : RunContext → List (List Text) → Progress → Progress
unfolding run_layer
run_layers run [] p = p
run_layers run (layer ∷ layers) p = run_layers run layers (run_layer run layer p)
