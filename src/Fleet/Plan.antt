-- ===== src/Fleet/Plan.antt =====
-- internal/fleet/domain.go, `ValidatePlan`: the checks that a plan passes before anything runs.
pub mod WellFormed
pub mod NodeChecks
pub mod Accepts
use Prim.Native.Nat.{ℕ}
use mathlib.Core.Path.{◌≡◌, refl}
use mathlib.Core.Logic.{ite}
use mathlib.Core.Bool.{Bool, true, false, not, ◌&&◌, ◌||◌}
use mathlib.Core.List.{List, [], ◌∷◌}
use temporal_agents.Prelude.{
  Text, ◌≟◌, leb, ◌==◌, all, has, Result, ok, err, ◌>>=◌, ◌>>◌, require, trim_space,
}
use temporal_agents.Fleet.Search.{FleetNode, FleetPlan, find_cycle}

-- The errors of `ValidatePlan`, one for each `fmt.Errorf`.
pub data PlanError : Type 0 where
  no_nodes empty_id : PlanError
  bad_id duplicate_id empty_prompt self_dependency : Text → PlanError
  unknown_dependency : Text → Text → PlanError
  has_cycle : Text → PlanError

abbrev pub is_nil {ℓ} : {A : Type ℓ} → List A → Bool
is_nil [] = true
is_nil (x ∷ xs) = false

abbrev pub is_slug_byte : ℕ → Bool
is_slug_byte c =
    (leb b'A' c && leb c b'Z')
    || (leb b'a' c && leb c b'z')
    || (leb b'0' c && leb c b'9')
    || c == b'_'
    || c == b'-'

-- `nodeIDPattern`, which is ^[A-Za-z0-9_-]+$.
unfoldable pub is_slug : Text → Bool
is_slug id = not (is_nil id) && all is_slug_byte id

-- The body of the first loop, for one node.
unfoldable pub check_node : List Text → FleetNode → Result PlanError (Unit {0})
check_node seen n = do
  require (not (is_nil (trim_space n.id))) empty_id
  require (is_slug n.id) (bad_id n.id)
  require (not (has n.id seen)) (duplicate_id n.id)
  require (not (is_nil (trim_space n.prompt))) (empty_prompt n.id)

-- The first loop, which returns `seen`.
unfoldable pub check_nodes : List Text → List FleetNode → Result PlanError (List Text)
unfolding check_node
check_nodes seen [] = ok seen
check_nodes seen (n ∷ ns) = check_node seen n >> check_nodes (n.id ∷ seen) ns

-- The second loop, over the dependencies of one node.
unfoldable pub check_edges : List Text → Text → List Text → Result PlanError (Unit {0})
check_edges seen id [] = ok tt
check_edges seen id (dep ∷ deps) =
    ite (dep ≟ id) (err (self_dependency id))
      (require (has dep seen) (unknown_dependency id dep) >> check_edges seen id deps)

unfoldable pub check_deps : List Text → List FleetNode → Result PlanError (Unit {0})
unfolding check_edges
check_deps seen [] = ok tt
check_deps seen (n ∷ ns) = check_edges seen n.id n.depends_on >> check_deps seen ns

-- `ValidatePlan`. A nil error is `ok tt`.
unfoldable pub validate_plan : FleetPlan → Result PlanError (Unit {0})
unfolding check_nodes check_deps
validate_plan plan = do
  require (not (is_nil plan.nodes)) no_nodes
  seen ← check_nodes [] plan.nodes
  check_deps seen plan.nodes
  require (is_nil (find_cycle plan)) (has_cycle (find_cycle plan))
