-- ===== src/Fleet/Plan/WellFormed.antt =====
-- What a fleet relies on of its plan, stated on the nodes alone.
use mathlib.Core.Path.{◌≡◌}
use mathlib.Core.Logic.{◌≢◌}
use mathlib.Core.Bool.{true}
use mathlib.Core.List.{List, [], Memᴰ}
use temporal_agents.Prelude.{Text, trim_space}
use temporal_agents.Fleet.Search.{FleetNode, ids}
use temporal_agents.Fleet.Search.Table.{IsDistinct}
use temporal_agents.Fleet.Plan.{is_slug}

-- `b` is a direct or indirect prerequisite of `a` among the nodes.
pub data Follows (nodes : List FleetNode) : Text → Text → Type 0 where
  direct :
      (n : FleetNode) {a b : Text}
      → Memᴰ n nodes
      → n.id ≡ a
      → Memᴰ b n.depends_on
      → Follows nodes a b
  onward :
      (n : FleetNode) {a b c : Text}
      → Memᴰ n nodes
      → n.id ≡ a
      → Memᴰ b n.depends_on
      → Follows nodes b c
      → Follows nodes a c

-- What the fleet relies on of the plan that it runs.
pub record IsWellFormed (nodes : List FleetNode) : Type 0 where
  pub some_node : nodes ≢ []
  pub not_blank : (n : FleetNode) → Memᴰ n nodes → trim_space n.id ≢ []
  pub slugs : (n : FleetNode) → Memᴰ n nodes → is_slug n.id ≡ true
  pub prompted : (n : FleetNode) → Memᴰ n nodes → trim_space n.prompt ≢ []
  pub distinct : IsDistinct (ids nodes)
  pub known : (n : FleetNode) (d : Text) → Memᴰ n nodes → Memᴰ d n.depends_on → Memᴰ d (ids nodes)
  pub acyclic : (a : Text) → ¬ Follows nodes a a
