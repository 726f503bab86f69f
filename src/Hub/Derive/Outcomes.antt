-- ===== src/Hub/Derive/Outcomes.antt =====
-- `DeriveNodeStatuses` as a whole: what the status of a node is, in terms of the final statuses.
use mathlib.Core.Path.{◌≡◌, refl, sym, ap, subst}
use mathlib.Core.Logic.{◌⊎◌, inl, inr}
use mathlib.Core.List.{List, [], Memᴰ}
use mathlib.Core.Option.{Option, none, some}
use native.Mathlib.Omega.{arith}
use temporal_agents.Prelude.{Text, Map, lookup, has, has→Memᴰ, Memᴰ→has, Option-cases, Bool-cases}
use temporal_agents.Hub.Status.{WorkStatus, waiting, ExecutionOutcome, work_status}
use temporal_agents.Hub.Derive.{
  PlanNode, Plan, status_from_dependencies, remaining, dependency_order, from_outcomes,
  depends_on_of, or_empty, from_dependencies, from_cycles, derive_node_statuses,
}
use temporal_agents.Hub.Derive.Placing.{dependency_order-IsPlaced}
use temporal_agents.Hub.Derive.Stuck.{dependency_order-stuck}
use temporal_agents.Hub.Derive.Known.{IsKnown, remaining-IsKnown}
use temporal_agents.Hub.Derive.Explained.{
  IsWithin, AreDecided, Extends-lookup, Extends-trans, from_dependencies-Extends,
  from_cycles-Extends, from_dependencies-explained,
}
use temporal_agents.Hub.Derive.Reasons.{Because, status_from_dependencies-Because}
use temporal_agents.Hub.Derive.Loops.{
  from_outcomes-none, from_outcomes-finds, from_outcomes-IsWithin, from_dependencies-IsWithin,
  from_cycles-IsWithin, from_dependencies-none, from_cycles_waiting,
}

-- What the final status of a node rests on: its outcome; without one, the final statuses of the nodes
-- that it runs after, or a cycle that keeps it out of the order.
unfoldable pub IsExplained : Plan → Map WorkStatus → Text → Option ExecutionOutcome → Type 0
unfolding work_status Because
IsExplained plan final id (some outcome) = lookup id final ≡ some (work_status outcome)
IsExplained plan final id none =
    (Memᴰ id (dependency_order plan)
      × ((s : WorkStatus) × (lookup id final ≡ some s)
          × Because final (depends_on_of (remaining plan) id) s))
    ⊎ ((¬ Memᴰ id (dependency_order plan))
        × ((dep : Text) × Memᴰ dep (depends_on_of (remaining plan) id)
            × IsKnown (remaining plan) dep
            × (¬ Memᴰ dep (dependency_order plan)))
        × (lookup id final ≡ some waiting))

depends_on_of-some :
    (known : Map (List Text)) (id : Text) (deps : List Text)
    → lookup id known ≡ some deps
    → depends_on_of known id ≡ deps
unfolding depends_on_of
depends_on_of-some known id deps e = ap or_empty e

IsKnown-some :
    (known : Map (List Text)) (id : Text)
    → IsKnown known id
    → (deps : List Text) × (lookup id known ≡ some deps)
unfolding IsKnown
IsKnown-some known id h = h

nil-AreDecided : (statuses : Map WorkStatus) → AreDecided statuses []
unfolding AreDecided
nil-AreDecided statuses id m = elim m [ ]

lookup-nil : (id : Text) → lookup {V = WorkStatus} id [] ≡ none
unfolding lookup
lookup-nil id = refl

nil-IsWithin : (known : Map (List Text)) → IsWithin known []
unfolding IsWithin
nil-IsWithin known id e = lookup-nil id

module _ (plan : Plan) (outcomes : Map ExecutionOutcome) where
  abbrev first : Map WorkStatus
  first = from_outcomes outcomes plan.nodes []

  abbrev second : Map WorkStatus
  second = from_dependencies (remaining plan) (dependency_order plan) first

  first-IsWithin : IsWithin (remaining plan) first
  first-IsWithin =
      from_outcomes-IsWithin outcomes (remaining plan) plan.nodes [] (remaining-IsKnown plan)
        (nil-IsWithin (remaining plan))

  final-IsWithin : IsWithin (remaining plan) (from_cycles plan.nodes second)
  final-IsWithin =
      from_cycles-IsWithin (remaining plan) plan.nodes second (remaining-IsKnown plan) (
        from_dependencies-IsWithin (remaining plan) [] (dependency_order plan) first
          (dependency_order-IsPlaced plan) first-IsWithin)

  with_outcome :
      (n : PlanNode) (o : ExecutionOutcome)
      → Memᴰ n plan.nodes
      → lookup n.id outcomes ≡ some o
      → lookup n.id (from_cycles plan.nodes second) ≡ some (work_status o)
  with_outcome n o at e =
      Extends-lookup _ _ n.id _
        (Extends-trans _ _ first (from_cycles-Extends plan.nodes second)
          (from_dependencies-Extends (remaining plan) (dependency_order plan) first))
        (from_outcomes-finds outcomes n o plan.nodes [] at e)

  without_outcome :
      (n : PlanNode)
      → Memᴰ n plan.nodes
      → lookup n.id outcomes ≡ none
      → IsExplained plan (from_cycles plan.nodes second) n.id none
  unfolding IsExplained
  without_outcome n at e = elim (Bool-cases (has n.id (dependency_order plan))) [
    | inl placed ↦
        let here = has→Memᴰ n.id (dependency_order plan) placed in
        let (deps, known) = IsKnown-some (remaining plan) n.id (remaining-IsKnown plan n at) in
        let found =
          from_dependencies-explained (remaining plan) (from_cycles plan.nodes second)
            final-IsWithin [] (dependency_order plan) first n.id deps
            (dependency_order-IsPlaced plan) (nil-AreDecided first) first-IsWithin
            (from_cycles-Extends plan.nodes second) here known
            (from_outcomes-none outcomes n.id plan.nodes [] e (lookup-nil n.id)) in
        inl (
          here,
          (
            status_from_dependencies deps (from_cycles plan.nodes second),
            found,
            subst
                (λ d.
                  Because (from_cycles plan.nodes second) d
                    (status_from_dependencies deps (from_cycles plan.nodes second)))
                (sym (depends_on_of-some (remaining plan) n.id deps known))
                (status_from_dependencies-Because (from_cycles plan.nodes second) deps),
          ),
        )
    | inr out ↦
        let away : ¬ Memᴰ n.id (dependency_order plan) = λ m. ground (arith, Memᴰ→has n.id _ m) in
        let (deps, known) = IsKnown-some (remaining plan) n.id (remaining-IsKnown plan n at) in
        inr (
          away,
          subst
              (λ d.
                (dep : Text) × Memᴰ dep d
                × IsKnown (remaining plan) dep
                × (¬ Memᴰ dep (dependency_order plan)))
              (sym (depends_on_of-some (remaining plan) n.id deps known))
              (dependency_order-stuck plan n.id deps known away),
          from_cycles_waiting plan.nodes second n at (
              from_dependencies-none (remaining plan) (dependency_order plan) first n.id away
                (from_outcomes-none outcomes n.id plan.nodes [] e (lookup-nil n.id))),
        )
  ]

-- Every node of a plan has a status. It is that of its outcome, where it has one. Otherwise, where the order reaches the node, it is paused when one of its dependencies stopped, to do when all of them are done, and waiting when none stopped and one is not done, by the final statuses of the dependencies. Where the order does not reach it, it is waiting, whatever its other dependencies have come to, and the order leaves it out only because it leaves out one of its dependencies, which is a node of the plan too.
pub derive_node_statuses-IsExplained :
    (plan : Plan) (outcomes : Map ExecutionOutcome) (n : PlanNode)
    → Memᴰ n plan.nodes
    → IsExplained plan (derive_node_statuses plan outcomes) n.id (lookup n.id outcomes)
unfolding derive_node_statuses
derive_node_statuses-IsExplained plan outcomes n at = elim (Option-cases (lookup n.id outcomes)) [
  | inl e ↦
      subst (IsExplained plan (derive_node_statuses plan outcomes) n.id) (sym e)
        (without_outcome plan outcomes n at e)
  | inr (o, e) ↦
      subst (IsExplained plan (derive_node_statuses plan outcomes) n.id) (sym e)
        (unfold IsExplained in with_outcome plan outcomes n o at e)
]
