-- ===== src/Hub/Derive/Known.antt =====
-- `remaining`: the map from the nodes of a plan to their dependencies.
use mathlib.Core.Path.{◌≡◌, refl, sym, ap, ◌∙◌}
use mathlib.Core.Logic.{ite}
use mathlib.Core.List.{List, [], ◌∷◌, Memᴰ}
use mathlib.Core.Option.{none, some}
use native.Mathlib.Omega.{arith}
use temporal_agents.Prelude.{Text, ◌≟◌, Map, lookup}
use temporal_agents.Hub.Derive.{PlanNode, Plan, put, remaining_from, remaining}

-- No key stands twice in a map.
unfoldable pub HasUniqueKeys {ℓ} : {A : Type ℓ} → Map A → Type ℓ
HasUniqueKeys [] = Unit
HasUniqueKeys ((k, v) ∷ m) = (lookup k m ≡ none) × HasUniqueKeys m

module _ {ℓ} {A : Type ℓ} where
  pub lookup-put :
      (k j : Text) (v : A) (m : Map A) → lookup j (put k v m) ≡ ite (k ≟ j) (some v) (lookup j m)
  unfolding lookup put
  lookup-put k j v [] = refl
  lookup-put k j v ((i, w) ∷ m) = ground (arith, lookup-put k j v m)

  put_step-HasUniqueKeys :
      (k i : Text) (v w : A) (m : Map A) (d : Dec (i ≡ k))
      → lookup i m ≡ none
      → HasUniqueKeys m
      → HasUniqueKeys (put k v m)
      → HasUniqueKeys (ite d ((i, v) ∷ m) ((i, w) ∷ put k v m))
  unfolding HasUniqueKeys
  put_step-HasUniqueKeys k i v w m (yes e) fresh u rest = (fresh, u)
  put_step-HasUniqueKeys k i v w m (no n) fresh u rest =
      (lookup-put k i v m ∙ ground (arith, fresh, λ (e : k ≡ i). n (sym e)), rest)

  put-HasUniqueKeys : (k : Text) (v : A) (m : Map A) → HasUniqueKeys m → HasUniqueKeys (put k v m)
  unfolding put HasUniqueKeys lookup
  put-HasUniqueKeys k v [] u = (refl, tt)
  put-HasUniqueKeys k v ((i, w) ∷ m) (fresh, u) =
      put_step-HasUniqueKeys k i v w m (i ≟ k) fresh u (put-HasUniqueKeys k v m u)

  pub Memᴰ-lookup :
      (k : Text) (v : A) (m : Map A) → HasUniqueKeys m → Memᴰ (k, v) m → lookup k m ≡ some v
  unfolding HasUniqueKeys lookup
  Memᴰ-lookup k v [] u m = elim m [ ]
  Memᴰ-lookup k v ((j, w) ∷ m) (fresh, u) (Memᴰ.head e) =
      ground (arith, ap (λ p. p.0) e, ap (λ p. p.1) e)
  Memᴰ-lookup k v ((j, w) ∷ m) (fresh, u) (Memᴰ.tail at) = ground (arith, Memᴰ-lookup k v m u at)

remaining_from-HasUniqueKeys :
    (ns : List PlanNode) (m : Map (List Text))
    → HasUniqueKeys m
    → HasUniqueKeys (remaining_from m ns)
unfolding remaining_from
remaining_from-HasUniqueKeys [] m u = u
remaining_from-HasUniqueKeys (n ∷ ns) m u =
    remaining_from-HasUniqueKeys ns (put n.id n.depends_on m)
      (put-HasUniqueKeys n.id n.depends_on m u)

pub remaining-HasUniqueKeys : (plan : Plan) → HasUniqueKeys (remaining plan)
unfolding remaining HasUniqueKeys
remaining-HasUniqueKeys plan = remaining_from-HasUniqueKeys plan.nodes [] tt

-- The map has the nodes of the plan as its keys.
unfoldable pub IsKnown : Map (List Text) → Text → Type 0
IsKnown known id = (deps : List Text) × (lookup id known ≡ some deps)

put-IsKnown :
    (k j : Text) (v : List Text) (m : Map (List Text)) → IsKnown m j → IsKnown (put k v m) j
unfolding IsKnown
put-IsKnown k j v m (deps, e) = elim (k ≟ j) [
  | yes same ↦ (v, lookup-put k j v m ∙ ground (arith, same))
  | no apart ↦ (deps, lookup-put k j v m ∙ ground (arith, apart, e))
]

remaining_from-IsKnown :
    (j : Text) (ns : List PlanNode) (m : Map (List Text))
    → IsKnown m j
    → IsKnown (remaining_from m ns) j
unfolding remaining_from
remaining_from-IsKnown j [] m h = h
remaining_from-IsKnown j (n ∷ ns) m h =
    remaining_from-IsKnown j ns (put n.id n.depends_on m) (put-IsKnown n.id j n.depends_on m h)

node-IsKnown :
    (n : PlanNode) (ns : List PlanNode) (m : Map (List Text))
    → Memᴰ n ns
    → IsKnown (remaining_from m ns) n.id
unfolding remaining_from IsKnown
node-IsKnown n [] m at = elim at [ ]
node-IsKnown n (x ∷ ns) m (Memᴰ.head e) = rw e (
    remaining_from-IsKnown x.id ns (put x.id x.depends_on m)
      (x.depends_on, lookup-put x.id x.id x.depends_on m ∙ ground arith))
node-IsKnown n (x ∷ ns) m (Memᴰ.tail at) = node-IsKnown n ns (put x.id x.depends_on m) at

pub remaining-IsKnown :
    (plan : Plan) (n : PlanNode) → Memᴰ n plan.nodes → IsKnown (remaining plan) n.id
unfolding remaining
remaining-IsKnown plan n at = node-IsKnown n plan.nodes [] at
