-- ===== src/Fleet/Search.antt =====
-- internal/fleet/domain.go, `findCycle`: the depth-first search for a dependency cycle.
pub mod Walks
pub mod Colors
pub mod Correct
pub mod Table
pub mod Verdict
use Prim.Native.Nat.{ℕ, zero, suc}
use mathlib.Core.Path.{◌≡◌, refl}
use mathlib.Core.Logic.{ite}
use mathlib.Core.List.{List, [], ◌∷◌, ◌++◌, map}
use mathlib.Core.Option.{Option, none, some}
use temporal_agents.Prelude.{Text, lit, ◌≟◌, Map, lookup, insert, length, join, text_discrete}

-- `FleetNode`.
pub record FleetNode : Type 0 where
  pub id : Text
  pub prompt : Text
  pub depends_on : List Text

-- `FleetPlan`.
pub record FleetPlan : Type 0 where
  pub goal : Text
  pub nodes : List FleetNode

-- `deps[n.ID] = n.DependsOn`, for each node in turn.
unfoldable pub deps_from : Map (List Text) → List FleetNode → Map (List Text)
deps_from m [] = m
deps_from m (n ∷ ns) = deps_from (insert n.id n.depends_on m) ns

abbrev pub or_nil : Option (List Text) → List Text
or_nil none = []
or_nil (some ds) = ds

-- `deps[id]`, which is nil for a key that is missing.
unfoldable pub deps_of : Map (List Text) → Text → List Text
deps_of m id = or_nil (lookup id m)

pub data Color : Type 0 where
  white gray black : Color

abbrev pub or_white : Option Color → Color
or_white none = white
or_white (some c) = c

-- What the closure `visit` shares: the colours, and the nodes on the current path.
pub record Search : Type 0 where
  pub color : Map Color
  pub stack : List Text

-- `color[id]`: a node that has no entry is white.
unfoldable pub color_of : Search → Text → Color
unfolding lookup
color_of s id = or_white (lookup id s.color)

-- How a call of `visit` ends. The last case is that of a model run with too little fuel.
pub data Visit : Type 0 where
  clear : Search → Visit
  cycle : List Text → Visit
  exhausted : Visit

-- `stack[i:]` for the first `i` with `stack[i] == dep`.
unfoldable pub from_first : Text → List Text → List Text
from_first dep [] = []
from_first dep (s ∷ rest) = ite (s ≟ dep) (s ∷ rest) (from_first dep rest)

-- `stack[:len(stack)-1]`.
unfoldable pub drop_last : List Text → List Text
drop_last [] = []
drop_last (s ∷ []) = []
drop_last (s ∷ t ∷ rest) = s ∷ drop_last (t ∷ rest)

unfoldable pub enter : Text → Search → Search
enter id s = record { color = insert id gray s.color; stack = s.stack ++ id ∷ [] }

unfoldable pub leave : Text → Search → Search
unfolding drop_last
leave id s = record { color = insert id black s.color; stack = drop_last s.stack }

abbrev pub if_clear : Visit → (Search → Visit) → Visit
if_clear (clear s) f = f s
if_clear (cycle path) f = cycle path
if_clear exhausted f = exhausted

-- The loop over a node's dependencies, with the recursive call of `visit` as an argument.
unfoldable pub visit_deps : (Text → Search → Visit) → List Text → Search → Visit
visit_deps visit [] s = clear s
visit_deps visit (dep ∷ rest) s =
    let go_on = visit_deps visit rest in
    elim (color_of s dep) [
      | white ↦ if_clear (visit dep s) go_on
      | gray ↦ elim (from_first dep s.stack) [
        | [] ↦ go_on s
        | x ∷ xs ↦ cycle ((x ∷ xs) ++ dep ∷ [])
      ]
      | black ↦ go_on s
    ]

-- `visit`. The fuel bounds the depth of the recursion.
unfoldable pub visit : (Text → List Text) → ℕ → Text → Search → Visit
unfolding visit_deps enter leave
visit deps zero id s = exhausted
visit deps (suc fuel) id s =
    if_clear (visit_deps (visit deps fuel) (deps id) (enter id s)) (λ s'. clear (leave id s'))

-- The loop over the plan's nodes.
unfoldable pub visit_all : (Text → List Text) → ℕ → List Text → Search → Visit
unfolding visit
visit_all deps fuel [] s = clear s
visit_all deps fuel (id ∷ ids) s =
    let go_on = visit_all deps fuel ids in
    elim (color_of s id) [ white ↦ if_clear (visit deps fuel id s) go_on | _ ↦ go_on s ]

abbrev pub ids : List FleetNode → List Text
ids nodes = map (λ n. n.id) nodes

-- Every identity that a plan names.
unfoldable pub universe : List FleetNode → List Text
universe [] = []
universe (n ∷ ns) = (n.id ∷ n.depends_on) ++ universe ns

-- The search of the whole plan, from a state with nothing visited.
unfoldable pub search_plan : FleetPlan → Visit
unfolding visit_all color_of from_first universe deps_from deps_of
search_plan plan =
    visit_all (deps_of (deps_from [] plan.nodes)) (length (universe plan.nodes)) (ids plan.nodes)
      (record { color = []; stack = [] })

abbrev pub rendered : Visit → Text
rendered (clear _) = []
rendered (cycle path) = join (lit " -> ") path
rendered exhausted = []

-- `findCycle`: the cycle as text, and "" where there is none.
unfoldable pub find_cycle : FleetPlan → Text
unfolding search_plan join
find_cycle plan = rendered (search_plan plan)
