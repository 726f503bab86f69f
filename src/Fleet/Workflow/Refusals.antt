-- ===== src/Fleet/Workflow/Refusals.antt =====
-- The runs of a fleet that end before any of its children is asked for.
use mathlib.Core.Path.{◌≡◌}
use mathlib.Core.Logic.{◌⊎◌}
use mathlib.Core.List.{List, []}
use mathlib.Core.Option.{Option, some}
use temporal_agents.Prelude.{Text, err}
use temporal_agents.Fleet.Plan.WellFormed.{IsWellFormed}
use temporal_agents.Fleet.Run.{FleetInput, Children}
use temporal_agents.Fleet.Workflow.{Environment}

module _ (env : Environment) (input : FleetInput) where
  -- The same surroundings with other children.
  abbrev pub with_children : Children → Option Text → Environment
  with_children children cancelled = record env { children = children; cancelled = cancelled }

  -- The run cannot be carried out.
  abbrev pub CannotRun : Type 0
  CannotRun =
      ((e : Text) × (env.record_error ≡ some e))
      ⊎ (input.worktrees_dir ≡ [])
      ⊎ (¬ IsWellFormed input.plan.nodes)
      ⊎ ((e : Text) × (env.base ≡ err e))

  -- The same once it is recorded.
  abbrev Cannot : Text → Type 0
  Cannot dir = (dir ≡ []) ⊎ (¬ IsWellFormed input.plan.nodes) ⊎ ((e : Text) × (env.base ≡ err e))
