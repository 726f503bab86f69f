-- ===== src/Hub/Derive/Loops.antt =====
-- The three loops of `DeriveNodeStatuses`: what each of them leaves in the map of statuses.
use mathlib.Core.Path.{◌≡◌, refl, sym, ap, ◌∙◌, subst}
use mathlib.Core.Logic.{◌⊎◌, inl, inr}
use mathlib.Core.List.{List, [], ◌∷◌, Memᴰ}
use mathlib.Core.Option.{none, some, some-injective, none-ne-some}
use native.Mathlib.Omega.{arith}
use temporal_agents.Prelude.{Text, ◌≟◌, Map, lookup, insert, Option-cases}
use temporal_agents.Hub.Status.{WorkStatus, waiting, ExecutionOutcome, work_status}
use temporal_agents.Hub.Derive.{PlanNode, from_outcomes, from_dependencies, from_cycles}
use temporal_agents.Hub.Derive.Placing.{IsPlaced}
use temporal_agents.Hub.Derive.Known.{IsKnown}
use temporal_agents.Hub.Derive.Explained.{
  IsWithin, Extends-lookup, insert-IsWithin, insert-none, apart_of, from_dependencies-step,
  from_cycles-step, from_cycles-Extends, IsPlaceable-IsKnown,
}

-- One step of the first loop.
from_outcomes-step :
    (outcomes : Map ExecutionOutcome) (n : PlanNode) (ns : List PlanNode)
    (statuses : Map WorkStatus)
    → ((lookup n.id outcomes ≡ none)
        × (from_outcomes outcomes (n ∷ ns) statuses ≡ from_outcomes outcomes ns statuses))
      ⊎ ((o : ExecutionOutcome) × (lookup n.id outcomes ≡ some o)
          × (from_outcomes outcomes (n ∷ ns) statuses
              ≡ from_outcomes outcomes ns (insert n.id (work_status o) statuses)))
unfolding from_outcomes
from_outcomes-step outcomes n ns statuses = elim (Option-cases (lookup n.id outcomes)) [
  | inl e ↦ inl (e, rw (e, from_outcomes) refl)
  | inr (o, e) ↦ inr (o, e, rw (e, from_outcomes) refl)
]

the_newest :
    (id j : Text) (s : WorkStatus) (statuses : Map WorkStatus)
    → j ≡ id
    → lookup id (insert j s statuses) ≡ some s
unfolding lookup
the_newest id j s statuses same = ground (arith, same)

insert-again :
    (outcomes : Map ExecutionOutcome) (id j : Text) (o o' : ExecutionOutcome)
    (statuses : Map WorkStatus)
    → lookup id outcomes ≡ some o
    → lookup j outcomes ≡ some o'
    → lookup id statuses ≡ some (work_status o)
    → lookup id (insert j (work_status o') statuses) ≡ some (work_status o)
unfolding lookup
insert-again outcomes id j o o' statuses e e' h = elim (j ≟ id) [
  | yes same ↦
      let agree : some o' ≡ some o = sym e' ∙ ap (λ k. lookup k outcomes) same ∙ e in
      (the_newest id j (work_status o') statuses same
        ∙ ap (λ x. some (work_status x)) (some-injective o' o agree))
  | no apart ↦ ground (arith, apart, h)
]

module _ (outcomes : Map ExecutionOutcome) where
  pub from_outcomes-keeps :
      (id : Text) (o : ExecutionOutcome) (ns : List PlanNode) (statuses : Map WorkStatus)
      → lookup id outcomes ≡ some o
      → lookup id statuses ≡ some (work_status o)
      → lookup id (from_outcomes outcomes ns statuses) ≡ some (work_status o)
  unfolding from_outcomes
  from_outcomes-keeps id o [] statuses e h = h
  from_outcomes-keeps id o (n ∷ ns) statuses e h =
      elim (from_outcomes-step outcomes n ns statuses) [
        | inl (missing, step) ↦ ap (lookup id) step ∙ from_outcomes-keeps id o ns statuses e h
        | inr (o', e', step) ↦
            ap (lookup id) step
            ∙ from_outcomes-keeps id o ns _ e (insert-again outcomes id n.id o o' statuses e e' h)
      ]

  pub from_outcomes-none :
      (id : Text) (ns : List PlanNode) (statuses : Map WorkStatus)
      → lookup id outcomes ≡ none
      → lookup id statuses ≡ none
      → lookup id (from_outcomes outcomes ns statuses) ≡ none
  unfolding from_outcomes
  from_outcomes-none id [] statuses e h = h
  from_outcomes-none id (n ∷ ns) statuses e h = elim (from_outcomes-step outcomes n ns statuses) [
    | inl (missing, step) ↦ ap (lookup id) step ∙ from_outcomes-none id ns statuses e h
    | inr (o, e', step) ↦
        ap (lookup id) step
        ∙ from_outcomes-none id ns _ e
            (insert-none statuses n.id id _ (apart_of outcomes n.id id o e' e) h)
  ]

  pub from_outcomes-finds :
      (n : PlanNode) (o : ExecutionOutcome) (ns : List PlanNode) (statuses : Map WorkStatus)
      → Memᴰ n ns
      → lookup n.id outcomes ≡ some o
      → lookup n.id (from_outcomes outcomes ns statuses) ≡ some (work_status o)
  from_outcomes-finds n o [] statuses at e = elim at [ ]
  from_outcomes-finds n o (x ∷ ns) statuses (Memᴰ.tail at) e =
      elim (from_outcomes-step outcomes x ns statuses) [
        | inl (missing, step) ↦ ap (lookup n.id) step ∙ from_outcomes-finds n o ns statuses at e
        | inr (o', e', step) ↦ ap (lookup n.id) step ∙ from_outcomes-finds n o ns _ at e
      ]
  from_outcomes-finds n o (x ∷ ns) statuses (Memᴰ.head same) e =
      elim (from_outcomes-step outcomes x ns statuses) [
        | inl (missing, step) ↦
            absurd (none-ne-some o (sym missing ∙ ap (λ y. lookup y.id outcomes) (sym same) ∙ e))
        | inr (o', e', step) ↦
            let agree : some o' ≡ some o = sym e' ∙ ap (λ y. lookup y.id outcomes) (sym same) ∙ e in
            let equal = some-injective o' o agree in
            (ap (lookup n.id) step
              ∙ from_outcomes-keeps n.id o ns _ e (
                  the_newest n.id x.id (work_status o') statuses (ap (λ y. y.id) (sym same))
                  ∙ ap (λ y. some (work_status y)) equal))
      ]

  pub from_outcomes-IsWithin :
      (known : Map (List Text)) (ns : List PlanNode) (statuses : Map WorkStatus)
      → ((n : PlanNode) → Memᴰ n ns → IsKnown known n.id)
      → IsWithin known statuses
      → IsWithin known (from_outcomes outcomes ns statuses)
  unfolding from_outcomes
  from_outcomes-IsWithin known [] statuses all_known w = w
  from_outcomes-IsWithin known (n ∷ ns) statuses all_known w =
      elim (from_outcomes-step outcomes n ns statuses) [
        | inl (missing, step) ↦
            subst (IsWithin known) (sym step)
              (from_outcomes-IsWithin known ns statuses (λ x m. all_known x (Memᴰ.tail m)) w)
        | inr (o, e, step) ↦ subst (IsWithin known) (sym step) (
            from_outcomes-IsWithin known ns _ (λ x m. all_known x (Memᴰ.tail m))
              (insert-IsWithin known statuses n.id _ (all_known n (Memᴰ.head refl)) w))
      ]

pub from_dependencies-IsWithin :
    (known : Map (List Text)) (placed ids : List Text) (statuses : Map WorkStatus)
    → IsPlaced known placed ids
    → IsWithin known statuses
    → IsWithin known (from_dependencies known ids statuses)
unfolding from_dependencies IsPlaced
from_dependencies-IsWithin known placed [] statuses p w = w
from_dependencies-IsWithin known placed (id ∷ ids) statuses (can, p) w =
    elim (from_dependencies-step known id ids statuses) [
      | inl (fresh, step) ↦ subst (IsWithin known) (sym step) (
          from_dependencies-IsWithin known (id ∷ placed) ids _ p
            (insert-IsWithin known statuses id _ (IsPlaceable-IsKnown known placed id can) w))
      | inr (old, step) ↦
          subst (IsWithin known) (sym step)
            (from_dependencies-IsWithin known (id ∷ placed) ids statuses p w)
    ]

pub from_cycles-IsWithin :
    (known : Map (List Text)) (ns : List PlanNode) (statuses : Map WorkStatus)
    → ((n : PlanNode) → Memᴰ n ns → IsKnown known n.id)
    → IsWithin known statuses
    → IsWithin known (from_cycles ns statuses)
unfolding from_cycles
from_cycles-IsWithin known [] statuses all_known w = w
from_cycles-IsWithin known (n ∷ ns) statuses all_known w = elim (from_cycles-step n ns statuses) [
  | inl (fresh, step) ↦ subst (IsWithin known) (sym step) (
      from_cycles-IsWithin known ns _ (λ x m. all_known x (Memᴰ.tail m))
        (insert-IsWithin known statuses n.id _ (all_known n (Memᴰ.head refl)) w))
  | inr (old, step) ↦
      subst (IsWithin known) (sym step)
        (from_cycles-IsWithin known ns statuses (λ x m. all_known x (Memᴰ.tail m)) w)
]

-- A node that the order does not reach stays without a status in the second loop.
pub from_dependencies-none :
    (known : Map (List Text)) (ids : List Text) (statuses : Map WorkStatus) (id : Text)
    → ¬ Memᴰ id ids
    → lookup id statuses ≡ none
    → lookup id (from_dependencies known ids statuses) ≡ none
unfolding from_dependencies
from_dependencies-none known [] statuses id out e = e
from_dependencies-none known (j ∷ ids) statuses id out e =
    elim (from_dependencies-step known j ids statuses) [
      | inl (fresh, step) ↦
          ap (lookup id) step
          ∙ from_dependencies-none known ids _ id (λ m. out (Memᴰ.tail m))
              (insert-none statuses j id _ (λ same. out (Memᴰ.head (sym same))) e)
      | inr (old, step) ↦
          ap (lookup id) step
          ∙ from_dependencies-none known ids statuses id (λ m. out (Memᴰ.tail m)) e
    ]

tail_node : (x n : PlanNode) (ns : List PlanNode) → Memᴰ n (x ∷ ns) → ¬ (x.id ≡ n.id) → Memᴰ n ns
tail_node x n ns (Memᴰ.head e) apart = absurd (apart (ap (λ y. y.id) (sym e)))
tail_node x n ns (Memᴰ.tail m) apart = m

-- The third loop leaves such a node waiting.
pub from_cycles_waiting :
    (ns : List PlanNode) (statuses : Map WorkStatus) (n : PlanNode)
    → Memᴰ n ns
    → lookup n.id statuses ≡ none
    → lookup n.id (from_cycles ns statuses) ≡ some waiting
from_cycles_waiting [] statuses n at e = elim at [ ]
from_cycles_waiting (x ∷ ns) statuses n at e = elim (from_cycles-step x ns statuses) [
  | inl (fresh, step) ↦ ap (lookup n.id) step ∙ elim (x.id ≟ n.id) [
    | yes same ↦
        Extends-lookup _ _ n.id waiting (from_cycles-Extends ns (insert x.id waiting statuses))
          (the_newest n.id x.id waiting statuses same)
    | no apart ↦
        from_cycles_waiting ns _ n (tail_node x n ns at apart)
          (insert-none statuses x.id n.id waiting apart e)
  ]
  | inr ((s, old), step) ↦
      ap (lookup n.id) step
      ∙ from_cycles_waiting ns statuses n
          (tail_node x n ns at (apart_of statuses x.id n.id s old e)) e
]
