-- ===== src/Fleet/Search/Table.antt =====
-- The table of dependencies against the nodes that it was filled from.
use mathlib.Core.Path.{◌≡◌, refl, sym, ap, ◌∙◌, subst}
use mathlib.Core.Logic.{◌⊎◌, inl, inr}
use mathlib.Core.List.Memᴰ
use mathlib.Core.List.{List, [], ◌∷◌, Memᴰ}
use mathlib.Core.Option.{some}
use native.Mathlib.Omega.{arith}
use temporal_agents.Prelude.{Text, ◌≟◌, Map, insert, lookup, Option-cases}
use temporal_agents.Fleet.Search.{FleetNode, FleetPlan, ids, deps_from, deps_of, or_nil, universe}

-- Each member stands in the list once.
abbrev pub IsDistinct {ℓ} : {A : Type ℓ} → List A → Type ℓ
IsDistinct [] = Unit
IsDistinct (x ∷ xs) = (¬ Memᴰ x xs) × IsDistinct xs

-- The dependencies that the search follows.
abbrev pub depends : FleetPlan → Text → List Text
depends plan = deps_of (deps_from [] plan.nodes)

pub lookup-deps_from_other :
    (k : Text) (m : Map (List Text)) (ns : List FleetNode)
    → ¬ Memᴰ k (ids ns)
    → lookup k (deps_from m ns) ≡ lookup k m
unfolding deps_from lookup
lookup-deps_from_other k m [] absent = refl
lookup-deps_from_other k m (n ∷ ns) absent =
    lookup-deps_from_other k (insert n.id n.depends_on m) ns (λ h. absent (Memᴰ.tail h))
    ∙ elim (n.id ≟ k) [ yes e ↦ absurd (absent (Memᴰ.head (sym e))) | no d ↦ ground arith ]

pub lookup-deps_from_self :
    (n : FleetNode) (m : Map (List Text)) (ns : List FleetNode)
    → IsDistinct (ids ns)
    → Memᴰ n ns
    → lookup n.id (deps_from m ns) ≡ some n.depends_on
unfolding deps_from lookup
lookup-deps_from_self n m [] d h = elim h [ ]
lookup-deps_from_self n m (x ∷ ns) d (Memᴰ.head e) =
    lookup-deps_from_other n.id (insert x.id x.depends_on m) ns
      (λ h. d.0 (subst (λ z. Memᴰ z (ids ns)) (ap (λ (y : FleetNode). y.id) e) h))
    ∙ ground arith
lookup-deps_from_self n m (x ∷ ns) d (Memᴰ.tail h) =
    lookup-deps_from_self n (insert x.id x.depends_on m) ns d.1 h

-- A node of the list with this identity and these dependencies.
abbrev pub Source : Text → List Text → List FleetNode → Type 0
Source k ds ns = (n : FleetNode) × Memᴰ n ns × (n.id ≡ k) × (n.depends_on ≡ ds)

pub deps_from-Source :
    (k : Text) (ds : List Text) (m : Map (List Text)) (ns : List FleetNode)
    → lookup k (deps_from m ns) ≡ some ds
    → (lookup k m ≡ some ds) ⊎ Source k ds ns
unfolding deps_from lookup
deps_from-Source k ds m [] h = inl h
deps_from-Source k ds m (n ∷ ns) h =
    elim (deps_from-Source k ds (insert n.id n.depends_on m) ns h) [
      | inr (x, at, e, f) ↦ inr (x, Memᴰ.tail at, e, f)
      | inl old ↦ elim (n.id ≟ k) [
        | yes e ↦ inr (n, Memᴰ.head refl, e, ground arith)
        | no d ↦ inl (ground arith)
      ]
    ]

-- What the search follows from a node is a dependency that the plan states.
pub depends-Source :
    (plan : FleetPlan) (a b : Text)
    → Memᴰ b (depends plan a)
    → (n : FleetNode) × Memᴰ n plan.nodes × (n.id ≡ a) × Memᴰ b n.depends_on
unfolding deps_of
depends-Source plan a b h = elim (Option-cases (lookup a (deps_from [] plan.nodes))) [
  | inl e ↦ absurd (nothing (subst (λ o. Memᴰ b (or_nil o)) e h))
  | inr (ds, e) ↦ elim (deps_from-Source a ds [] plan.nodes e) [
    | inl old ↦ absurd (unfold lookup in ground arith)
    | inr (n, at, i, f) ↦ (n, at, i, subst (Memᴰ b) (sym f) (subst (λ o. Memᴰ b (or_nil o)) e h))
  ]
]
  where
    nothing : Memᴰ b [] → ⊥
    nothing m = elim m [ ]

pub ids-universe : (ns : List FleetNode) (k : Text) → Memᴰ k (ids ns) → Memᴰ k (universe ns)
unfolding universe
ids-universe [] k h = h
ids-universe (n ∷ ns) k (Memᴰ.head e) = Memᴰ.head e
ids-universe (n ∷ ns) k (Memᴰ.tail h) =
    Memᴰ.append_right (n.id ∷ n.depends_on) (ids-universe ns k h)

pub deps-universe :
    (ns : List FleetNode) (n : FleetNode) (k : Text)
    → Memᴰ n ns
    → Memᴰ k n.depends_on
    → Memᴰ k (universe ns)
unfolding universe
deps-universe [] n k at h = elim at [ ]
deps-universe (x ∷ ns) n k (Memᴰ.head e) h =
    Memᴰ.append_left (universe ns)
      (Memᴰ.tail (subst (Memᴰ k) (ap (λ (y : FleetNode). y.depends_on) e) h))
deps-universe (x ∷ ns) n k (Memᴰ.tail at) h =
    Memᴰ.append_right (x.id ∷ x.depends_on) (deps-universe ns n k at h)
