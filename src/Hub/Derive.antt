-- ===== src/Hub/Derive.antt =====
-- internal/agenthub/domain.go, `DeriveNodeStatuses`: the status of every node of a plan.
pub mod Known
pub mod Placing
pub mod Stuck
pub mod Explained
pub mod Loops
pub mod Outcomes
pub mod Reasons
use Prim.Native.Nat.{ℕ, suc, zero}
use mathlib.Core.Path.{◌≡◌, refl}
use mathlib.Core.Logic.{ite}
use mathlib.Core.Bool.{Bool, true, false, not, ◌&&◌, ◌||◌}
use mathlib.Core.List.{List, [], ◌∷◌, ◌++◌}
use mathlib.Core.Option.{Option, none, some}
use temporal_agents.Prelude.{
  Text, ◌≟◌, Map, lookup, insert, has, all, ltb, length, if◌then◌else◌, sort,
}
use temporal_agents.Hub.Status.{
  WorkStatus, paused, waiting_input, waiting, done, todo, failed, ExecutionOutcome, work_status,
}

-- `PlanNode`.
pub record PlanNode : Type 0 where
  pub id : Text
  pub prompt : Text
  pub depends_on : List Text

-- `Plan`.
pub record Plan : Type 0 where
  pub goal : Text
  pub nodes : List PlanNode

abbrev pub is_known {ℓ} : {A : Type ℓ} → Option A → Bool
is_known none = false
is_known (some a) = true

-- The switch on the status of a dependency. A missing status is the empty one.
unfoldable pub after_dependency :
    Option WorkStatus → (satisfied unfinished : WorkStatus) → WorkStatus
after_dependency none satisfied unfinished = unfinished
after_dependency (some WorkStatus.failed) satisfied unfinished = paused
after_dependency (some WorkStatus.paused) satisfied unfinished = paused
after_dependency (some WorkStatus.waiting_input) satisfied unfinished = paused
after_dependency (some WorkStatus.done) satisfied unfinished = satisfied
after_dependency (some _) satisfied unfinished = unfinished

-- The loop of `statusFromDependencies`, with `ready`.
unfoldable pub explain : Map WorkStatus → List Text → Bool → WorkStatus
unfolding after_dependency lookup
explain statuses [] ready = if ready then todo else waiting
explain statuses (dep ∷ deps) ready =
    after_dependency (lookup dep statuses) (explain statuses deps ready)
      (explain statuses deps false)

-- `statusFromDependencies`.
unfoldable pub status_from_dependencies : List Text → Map WorkStatus → WorkStatus
unfolding explain
status_from_dependencies depends_on statuses = explain statuses depends_on true

-- An assignment to a map that is counted and ranged over: each key stands in it once.
unfoldable pub put {ℓ} : {A : Type ℓ} → Text → A → Map A → Map A
put k v [] = (k, v) ∷ []
put k v ((j, w) ∷ m) = let rest = put k v m in ite (j ≟ k) ((j, v) ∷ m) ((j, w) ∷ rest)

-- `remaining`: the dependencies of each node, those of the last one of an id.
unfoldable pub remaining_from : Map (List Text) → List PlanNode → Map (List Text)
unfolding put
remaining_from m [] = m
remaining_from m (n ∷ ns) = remaining_from (put n.id n.depends_on m) ns

unfoldable pub remaining : Plan → Map (List Text)
unfolding remaining_from
remaining plan = remaining_from [] plan.nodes

-- The test of one dependency. `placed` holds the ids that `order` lists, so it is that list here.
unfoldable pub is_free : Map (List Text) → List Text → Text → Bool
unfolding lookup has
is_free known placed dep = not (is_known (lookup dep known)) || has dep placed

-- The loop that gathers `ready`, over the entries of `remaining`.
unfoldable pub ready : Map (List Text) → List Text → Map (List Text) → List Text
unfolding is_free
ready known placed [] = []
ready known placed ((id, deps) ∷ entries) =
    let rest = ready known placed entries in
    if not (has id placed) && all (is_free known placed) deps then id ∷ rest else rest

-- The outer loop. It is out of fuel at `none`.
unfoldable pub place_all : Map (List Text) → ℕ → List Text → Option (List Text)
unfolding ready
place_all known zero order = none
place_all known (suc fuel) order =
    let batch = ready known order known in
    let next = place_all known fuel (order ++ sort batch) in
    if ltb (length order) (length known)
    then elim batch [ [] ↦ some order | _ ∷ _ ↦ next ]
    else some order

abbrev pub or_empty : Option (List Text) → List Text
or_empty none = []
or_empty (some order) = order

-- `dependencyOrder`.
unfoldable pub dependency_order : Plan → List Text
unfolding remaining place_all
dependency_order plan = or_empty (place_all (remaining plan) (suc (length (remaining plan))) [])

-- The first loop of `DeriveNodeStatuses`: the nodes that have an outcome.
unfoldable pub from_outcomes :
    Map ExecutionOutcome → List PlanNode → Map WorkStatus → Map WorkStatus
unfolding work_status lookup
from_outcomes outcomes [] statuses = statuses
from_outcomes outcomes (n ∷ ns) statuses = elim (lookup n.id outcomes) [
  | none ↦ from_outcomes outcomes ns statuses
  | some outcome ↦ from_outcomes outcomes ns (insert n.id (work_status outcome) statuses)
]

-- `nodes[id].DependsOn`, of the last node with the id.
unfoldable pub depends_on_of : Map (List Text) → Text → List Text
unfolding lookup
depends_on_of known id = or_empty (lookup id known)

-- The second loop: the nodes that their dependencies explain.
unfoldable pub from_dependencies : Map (List Text) → List Text → Map WorkStatus → Map WorkStatus
unfolding status_from_dependencies depends_on_of lookup
from_dependencies known [] statuses = statuses
from_dependencies known (id ∷ ids) statuses = elim (lookup id statuses) [
  | some _ ↦ from_dependencies known ids statuses
  | none ↦
      from_dependencies known ids
        (insert id (status_from_dependencies (depends_on_of known id) statuses) statuses)
]

-- The third loop: the nodes of a cycle.
unfoldable pub from_cycles : List PlanNode → Map WorkStatus → Map WorkStatus
unfolding lookup
from_cycles [] statuses = statuses
from_cycles (n ∷ ns) statuses = elim (lookup n.id statuses) [
  | some _ ↦ from_cycles ns statuses
  | none ↦ from_cycles ns (insert n.id waiting statuses)
]

-- `DeriveNodeStatuses`.
unfoldable pub derive_node_statuses : Plan → Map ExecutionOutcome → Map WorkStatus
unfolding dependency_order from_outcomes from_dependencies from_cycles
derive_node_statuses plan outcomes = from_cycles plan.nodes (
    from_dependencies (remaining plan) (dependency_order plan)
      (from_outcomes outcomes plan.nodes []))
