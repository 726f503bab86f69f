-- ===== src/Fleet/Layers.antt =====
-- internal/fleet/domain.go, `TopoLayers`: the layers in which the nodes of a plan run.
pub mod Ranks
pub mod Depths
pub mod Filling
pub mod Order
use Prim.Native.Nat.{ℕ, zero, suc}
use mathlib.Core.Bool.{Bool}
use mathlib.Core.List.{List, [], ◌∷◌, ◌++◌, map}
use mathlib.Core.Option.{Option, none, some}
use temporal_agents.Prelude.{
  Text, Map, lookup, insert, length, ltb, if◌then◌else◌, Result, ok, err, ◌>>=◌, sort,
}
use temporal_agents.Fleet.Search.{FleetNode, FleetPlan, ids, deps_from, deps_of, universe}
use temporal_agents.Fleet.Plan.{PlanError, validate_plan}

abbrev pub and_then {ℓ κ} : {A : Type ℓ} {B : Type κ} → Option A → (A → Option B) → Option B
and_then none f = none
and_then (some a) f = f a

-- The loop of `compute` over a node's dependencies. `max` is one more than the variable of the
-- source, which starts at -1: it is the depth that the node has so far.
unfoldable pub compute_deps :
    (Text → Map ℕ → Option (ℕ × Map ℕ)) → List Text → ℕ → Map ℕ → Option (ℕ × Map ℕ)
compute_deps call [] max depth = some (max, depth)
compute_deps call (dep ∷ rest) max depth =
    and_then (call dep depth)
      (λ (d, depth'). compute_deps call rest (if ltb max (suc d) then suc d else max) depth')

-- `compute`, with the memo `depth`. The fuel bounds the depth of the recursion.
unfoldable pub compute : (Text → List Text) → ℕ → Text → Map ℕ → Option (ℕ × Map ℕ)
unfolding compute_deps
compute deps zero id depth = none
compute deps (suc fuel) id depth =
    let fresh =
      and_then (compute_deps (compute deps fuel) (deps id) 0 depth)
        (λ (d, depth'). some (d, insert id d depth')) in
    elim (lookup id depth) [ some d ↦ some (d, depth) | none ↦ fresh ]

-- The loop that computes each node's depth and the greatest of them.
unfoldable pub compute_all : (Text → List Text) → ℕ → List Text → ℕ → Map ℕ → Option (ℕ × Map ℕ)
unfolding compute
compute_all deps fuel [] max_depth depth = some (max_depth, depth)
compute_all deps fuel (id ∷ rest) max_depth depth =
    and_then (compute deps fuel id depth)
      (λ (d, depth'). compute_all deps fuel rest (if ltb max_depth d then d else max_depth) depth')

-- `make([][]string, n)`.
unfoldable pub empty_layers : ℕ → List (List Text)
empty_layers zero = []
empty_layers (suc n) = [] ∷ empty_layers n

-- `layers[d] = append(layers[d], id)`. Every `d` is an index of `layers`.
unfoldable pub append_at : ℕ → Text → List (List Text) → List (List Text)
append_at d id [] = []
append_at zero id (layer ∷ layers) = (layer ++ id ∷ []) ∷ layers
append_at (suc d) id (layer ∷ layers) = layer ∷ append_at d id layers

-- `depth[id]`, which is 0 for a key that is missing.
abbrev pub or_zero : Option ℕ → ℕ
or_zero none = 0
or_zero (some d) = d

unfoldable pub fill : Map ℕ → List Text → List (List Text) → List (List Text)
unfolding append_at
fill depth [] layers = layers
fill depth (id ∷ rest) layers = fill depth rest (append_at (or_zero (lookup id depth)) id layers)

-- Why there are no layers. The second is that of a model run with too little fuel.
pub data LayersError : Type 0 where
  invalid : PlanError → LayersError
  exhausted : LayersError

abbrev layers_of : List Text → Option (ℕ × Map ℕ) → Result LayersError (List (List Text))
layers_of ids none = err exhausted
layers_of ids (some (max_depth, depth)) =
    ok (map sort (fill depth ids (empty_layers (suc max_depth))))

abbrev if_valid :
    Result PlanError (Unit {0})
    → Result LayersError (List (List Text))
    → Result LayersError (List (List Text))
if_valid (ok _) layers = layers
if_valid (err e) layers = err (invalid e)

-- `TopoLayers`.
unfoldable pub topo_layers : FleetPlan → Result LayersError (List (List Text))
unfolding compute_all empty_layers fill validate_plan
topo_layers plan = if_valid (validate_plan plan) (
    layers_of (ids plan.nodes) (
      compute_all (deps_of (deps_from [] plan.nodes)) (length (universe plan.nodes))
        (ids plan.nodes) 0 []))
