-- ===== src/Fleet/Run/Blockers.antt =====
-- When a node is blocked, and by what.
use mathlib.Core.Path.{◌≡◌, refl, sym, ap, ◌∙◌, subst}
use mathlib.Core.Logic.{◌⊎◌, inl, inr}
use mathlib.Core.Bool.{true, false}
use mathlib.Core.List.{List, [], ◌∷◌, Memᴰ}
use mathlib.Core.Option.{none, some}
use native.Mathlib.Omega.{arith}
use temporal_agents.Prelude.{
  Text, Map, lookup, insert, sort, sort-mem, mem-sort, Bool-cases, Option-cases, ◌≟◌,
}
use temporal_agents.Fleet.Search.{FleetNode, ids}
use temporal_agents.Fleet.Search.Table.{IsDistinct}
use temporal_agents.Fleet.Run.{
  NodeResult, did_succeed, first_unsuccessful, blocking_dependency, RunContext, node_of,
  nodes_by_id, or_zero_node,
}

-- The node has a result, and it succeeded.
abbrev pub Succeeded : Map NodeResult → Text → Type 0
Succeeded results id = did_succeed (lookup id results) ≡ true

first_unsuccessful-none :
    (m : Map NodeResult) (ds : List Text)
    → ((d : Text) → Memᴰ d ds → Succeeded m d)
    → first_unsuccessful m ds ≡ none
unfolding first_unsuccessful
first_unsuccessful-none m [] h = refl
first_unsuccessful-none m (d ∷ ds) h =
    rw (h d (Memᴰ.head refl)) (first_unsuccessful-none m ds (λ x k. h x (Memᴰ.tail k)))

first_unsuccessful-some :
    (m : Map NodeResult) (ds : List Text) (d : Text)
    → Memᴰ d ds
    → ¬ Succeeded m d
    → (b : Text) × (first_unsuccessful m ds ≡ some b) × Memᴰ b ds × ¬ Succeeded m b
unfolding first_unsuccessful
first_unsuccessful-some m [] d at h = elim at [ ]
first_unsuccessful-some m (x ∷ ds) d at h = elim (Bool-cases (did_succeed (lookup x m))) [
  | inr e ↦ (x, rw e, Memᴰ.head refl, λ s. absurd (clash (sym e ∙ s)))
  | inl e ↦
      let (b, f, k, n) = first_unsuccessful-some m ds d (behind e at) h in
      (b, rw e f, Memᴰ.tail k, n)
]
  where
    clash : false ≡ true → ⊥
    clash h = cc

    behind : did_succeed (lookup x m) ≡ true → Memᴰ d (x ∷ ds) → Memᴰ d ds
    behind e (Memᴰ.head q) = absurd (h (subst (Succeeded m) (sym q) e))
    behind e (Memᴰ.tail k) = k

pub blocking_dependency-none :
    (node : FleetNode) (m : Map NodeResult)
    → ((d : Text) → Memᴰ d node.depends_on → Succeeded m d)
    → blocking_dependency node m ≡ none
unfolding blocking_dependency
blocking_dependency-none node m h =
    first_unsuccessful-none m (sort node.depends_on) (λ d k. h d (sort-mem d node.depends_on k))

pub blocking_dependency-some :
    (node : FleetNode) (m : Map NodeResult) (d : Text)
    → Memᴰ d node.depends_on
    → ¬ Succeeded m d
    → (b : Text) × (blocking_dependency node m ≡ some b) × Memᴰ b node.depends_on × ¬ Succeeded m b
unfolding blocking_dependency
blocking_dependency-some node m d at h =
    let (b, e, k, n) =
      first_unsuccessful-some m (sort node.depends_on) d (mem-sort d node.depends_on at) h in
    (b, e, sort-mem b node.depends_on k, n)

lookup-nodes_other :
    (k : Text) (m : Map FleetNode) (ns : List FleetNode)
    → ¬ Memᴰ k (ids ns)
    → lookup k (nodes_by_id m ns) ≡ lookup k m
unfolding nodes_by_id lookup
lookup-nodes_other k m [] absent = refl
lookup-nodes_other k m (n ∷ ns) absent =
    lookup-nodes_other k (insert n.id n m) ns (λ h. absent (Memᴰ.tail h))
    ∙ elim (n.id ≟ k) [ yes e ↦ absurd (absent (Memᴰ.head (sym e))) | no d ↦ ground arith ]

lookup-nodes_self :
    (n : FleetNode) (m : Map FleetNode) (ns : List FleetNode)
    → IsDistinct (ids ns)
    → Memᴰ n ns
    → lookup n.id (nodes_by_id m ns) ≡ some n
unfolding nodes_by_id lookup
lookup-nodes_self n m [] d h = elim h [ ]
lookup-nodes_self n m (x ∷ ns) d (Memᴰ.head e) =
    lookup-nodes_other n.id (insert x.id x m) ns
      (λ h. d.0 (subst (λ z. Memᴰ z (ids ns)) (ap (λ (y : FleetNode). y.id) e) h))
    ∙ ground arith
lookup-nodes_self n m (x ∷ ns) d (Memᴰ.tail h) = lookup-nodes_self n (insert x.id x m) ns d.1 h

-- The table by identity has every node of a plan with distinct identities.
pub node_of-id :
    (run : RunContext) (n : FleetNode)
    → IsDistinct (ids run.input.plan.nodes)
    → Memᴰ n run.input.plan.nodes
    → node_of run n.id ≡ n
unfolding node_of
node_of-id run n distinct at =
    ap or_zero_node (lookup-nodes_self n [] run.input.plan.nodes distinct at)

found :
    (k : Text) (n : FleetNode) (m : Map FleetNode) (ns : List FleetNode)
    → lookup k (nodes_by_id m ns) ≡ some n
    → (lookup k m ≡ some n) ⊎ (Memᴰ n ns × (n.id ≡ k))
unfolding nodes_by_id lookup
found k n m [] h = inl h
found k n m (x ∷ ns) h = elim (found k n (insert x.id x m) ns h) [
  | inr (at, e) ↦ inr (Memᴰ.tail at, e)
  | inl old ↦ elim (x.id ≟ k) [ yes e ↦ here e (ground arith) | no d ↦ inl (ground arith) ]
]
  where
    here : x.id ≡ k → x ≡ n → (lookup k m ≡ some n) ⊎ (Memᴰ n (x ∷ ns) × (n.id ≡ k))
    here e q = inr (Memᴰ.head (sym q), ap (λ (z : FleetNode). z.id) (sym q) ∙ e)

-- The table holds nothing else: a missing identity has the zero node, which depends on nothing.
pub node_of-depends :
    (run : RunContext) (k d : Text)
    → Memᴰ d (node_of run k).depends_on
    → (n : FleetNode) × Memᴰ n run.input.plan.nodes × (n.id ≡ k) × Memᴰ d n.depends_on
unfolding node_of
node_of-depends run k d h = elim (Option-cases (lookup k (nodes_by_id [] run.input.plan.nodes))) [
  | inl e ↦ absurd (nothing (subst (λ o. Memᴰ d (or_zero_node o).depends_on) e h))
  | inr (n, e) ↦ elim (found k n [] run.input.plan.nodes e) [
    | inl old ↦ absurd (unfold lookup in ground arith)
    | inr (at, i) ↦ (n, at, i, subst (λ o. Memᴰ d (or_zero_node o).depends_on) e h)
  ]
]
  where
    nothing : Memᴰ d [] → ⊥
    nothing m = elim m [ ]
