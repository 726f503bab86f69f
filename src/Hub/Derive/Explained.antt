-- ===== src/Hub/Derive/Explained.antt =====
-- `DeriveNodeStatuses`: each status is the outcome's, or is explained by the other statuses.
use mathlib.Core.Path.{◌≡◌, refl, sym, ap, ◌∙◌, subst}
use mathlib.Core.Logic.{◌⊎◌, inl, inr}
use mathlib.Core.Bool.{Bool, true, false}
use mathlib.Core.List.{List, [], ◌∷◌, Memᴰ}
use mathlib.Core.Option.{none, some, some-injective, none-ne-some}
use native.Mathlib.Omega.{arith}
use temporal_agents.Prelude.{Text, ◌≟◌, Map, lookup, insert, Option-cases}
use temporal_agents.Hub.Status.{WorkStatus, waiting}
use temporal_agents.Hub.Derive.{
  PlanNode, explain, status_from_dependencies, or_empty, depends_on_of, from_dependencies,
  from_cycles,
}
use temporal_agents.Hub.Derive.Placing.{IsPlaceable, IsPlaced}
use temporal_agents.Hub.Derive.Known.{IsKnown}

-- What is decided in one map of statuses stays in the other.
unfoldable pub Extends : Map WorkStatus → Map WorkStatus → Type 0
Extends final statuses =
    (id : Text) (s : WorkStatus) → lookup id statuses ≡ some s → lookup id final ≡ some s

-- Only nodes of the plan have a status.
unfoldable pub IsWithin : Map (List Text) → Map WorkStatus → Type 0
IsWithin known statuses = (id : Text) → lookup id known ≡ none → lookup id statuses ≡ none

pub Extends-refl : (statuses : Map WorkStatus) → Extends statuses statuses
unfolding Extends
Extends-refl statuses id s e = e

pub Extends-lookup :
    (final statuses : Map WorkStatus) (id : Text) (s : WorkStatus)
    → Extends final statuses
    → lookup id statuses ≡ some s
    → lookup id final ≡ some s
unfolding Extends
Extends-lookup final statuses id s h e = h id s e

pub insert-Extends :
    (final statuses : Map WorkStatus) (id : Text) (s : WorkStatus)
    → lookup id statuses ≡ none
    → Extends final (insert id s statuses)
    → Extends final statuses
unfolding Extends lookup
insert-Extends final statuses id s fresh h j t e = h j t (ground (arith, fresh, e))

pub insert-IsWithin :
    (known : Map (List Text)) (statuses : Map WorkStatus) (id : Text) (s : WorkStatus)
    → IsKnown known id
    → IsWithin known statuses
    → IsWithin known (insert id s statuses)
unfolding IsWithin IsKnown lookup
insert-IsWithin known statuses id s (deps, e) h j missing = ground (arith, e, missing, h j missing)

-- One step of the second loop, and one of the third.
pub from_dependencies-step :
    (known : Map (List Text)) (id : Text) (ids : List Text) (statuses : Map WorkStatus)
    → ((lookup id statuses ≡ none)
        × (from_dependencies known (id ∷ ids) statuses
            ≡ from_dependencies known ids
                (insert id (status_from_dependencies (depends_on_of known id) statuses) statuses)))
      ⊎ (((s : WorkStatus) × (lookup id statuses ≡ some s))
          × (from_dependencies known (id ∷ ids) statuses ≡ from_dependencies known ids statuses))
unfolding from_dependencies
from_dependencies-step known id ids statuses = elim (Option-cases (lookup id statuses)) [
  | inl e ↦ inl (e, rw (e, from_dependencies) refl)
  | inr (s, e) ↦ inr ((s, e), rw (e, from_dependencies) refl)
]

pub from_cycles-step :
    (n : PlanNode) (ns : List PlanNode) (statuses : Map WorkStatus)
    → ((lookup n.id statuses ≡ none)
        × (from_cycles (n ∷ ns) statuses ≡ from_cycles ns (insert n.id waiting statuses)))
      ⊎ (((s : WorkStatus) × (lookup n.id statuses ≡ some s))
          × (from_cycles (n ∷ ns) statuses ≡ from_cycles ns statuses))
unfolding from_cycles
from_cycles-step n ns statuses = elim (Option-cases (lookup n.id statuses)) [
  | inl e ↦ inl (e, rw (e, from_cycles) refl)
  | inr (s, e) ↦ inr ((s, e), rw (e, from_cycles) refl)
]

-- Both loops keep what has been decided.
pub from_dependencies-Extends :
    (known : Map (List Text)) (ids : List Text) (statuses : Map WorkStatus)
    → Extends (from_dependencies known ids statuses) statuses
unfolding from_dependencies
from_dependencies-Extends known [] statuses = Extends-refl statuses
from_dependencies-Extends known (id ∷ ids) statuses =
    elim (from_dependencies-step known id ids statuses) [
      | inl (fresh, e) ↦
          subst (λ x. Extends x statuses) (sym e)
            (insert-Extends _ statuses id _ fresh (from_dependencies-Extends known ids _))
      | inr (old, e) ↦
          subst (λ x. Extends x statuses) (sym e) (from_dependencies-Extends known ids statuses)
    ]

pub from_cycles-Extends :
    (ns : List PlanNode) (statuses : Map WorkStatus) → Extends (from_cycles ns statuses) statuses
unfolding from_cycles
from_cycles-Extends [] statuses = Extends-refl statuses
from_cycles-Extends (n ∷ ns) statuses = elim (from_cycles-step n ns statuses) [
  | inl (fresh, e) ↦
      subst (λ x. Extends x statuses) (sym e)
        (insert-Extends _ statuses n.id _ fresh (from_cycles-Extends ns _))
  | inr (old, e) ↦ subst (λ x. Extends x statuses) (sym e) (from_cycles-Extends ns statuses)
]

-- The loop over dependencies reads their statuses only.
explain-ext :
    (deps : List Text) (a b : Map WorkStatus) (ready : Bool)
    → ((dep : Text) → Memᴰ dep deps → lookup dep a ≡ lookup dep b)
    → explain a deps ready ≡ explain b deps ready
unfolding explain
explain-ext [] a b ready h = refl
explain-ext (dep ∷ deps) a b ready h =
    rw
      (
        h dep (Memᴰ.head refl),
        explain-ext deps a b ready (λ d m. h d (Memᴰ.tail m)),
        explain-ext deps a b false (λ d m. h d (Memᴰ.tail m)),
      )
      refl

-- Every member of a list has a status.
unfoldable pub AreDecided : Map WorkStatus → List Text → Type 0
AreDecided statuses ids =
    (id : Text) → Memᴰ id ids → (s : WorkStatus) × (lookup id statuses ≡ some s)

insert-AreDecided :
    (statuses : Map WorkStatus) (placed : List Text) (id : Text) (s : WorkStatus)
    → AreDecided statuses placed
    → AreDecided (insert id s statuses) (id ∷ placed)
unfolding AreDecided lookup
insert-AreDecided statuses placed id s h j (Memᴰ.head e) = (s, ground (arith, e))
insert-AreDecided statuses placed id s h j (Memᴰ.tail m) =
    let (t, e) = h j m in elim (id ≟ j) [ yes same ↦ (s, ground arith) | no n ↦ (t, ground arith) ]

cons-AreDecided :
    (statuses : Map WorkStatus) (placed : List Text) (id : Text) (s : WorkStatus)
    → lookup id statuses ≡ some s
    → AreDecided statuses placed
    → AreDecided statuses (id ∷ placed)
unfolding AreDecided
cons-AreDecided statuses placed id s e h j (Memᴰ.head same) =
    (s, ap (λ k. lookup k statuses) same ∙ e)
cons-AreDecided statuses placed id s e h j (Memᴰ.tail m) = h j m

pub Extends-trans : (a b c : Map WorkStatus) → Extends a b → Extends b c → Extends a c
unfolding Extends
Extends-trans a b c f g id s e = f id s (g id s e)

pub inserted-Extends :
    (final statuses : Map WorkStatus) (id : Text) (s : WorkStatus)
    → Extends final (insert id s statuses)
    → lookup id final ≡ some s
unfolding Extends lookup
inserted-Extends final statuses id s h = h id s (ground arith)

pub insert-none :
    (statuses : Map WorkStatus) (j id : Text) (s : WorkStatus)
    → ¬ (j ≡ id)
    → lookup id statuses ≡ none
    → lookup id (insert j s statuses) ≡ none
unfolding lookup
insert-none statuses j id s apart e = ground (arith, apart, e)

tail_of : (j id : Text) (ids : List Text) → Memᴰ id (j ∷ ids) → ¬ (j ≡ id) → Memᴰ id ids
tail_of j id ids (Memᴰ.head e) apart = absurd (apart (sym e))
tail_of j id ids (Memᴰ.tail m) apart = m

pub apart_of {ℓ} :
    {A : Type ℓ} (statuses : Map A) (j id : Text) (s : A)
    → lookup j statuses ≡ some s
    → lookup id statuses ≡ none
    → ¬ (j ≡ id)
apart_of statuses j id s old fresh same =
    none-ne-some s (sym fresh ∙ ap (λ k. lookup k statuses) (sym same) ∙ old)

pub IsPlaceable-IsKnown :
    (known : Map (List Text)) (placed : List Text) (id : Text)
    → IsPlaceable known placed id
    → IsKnown known id
unfolding IsPlaceable IsKnown
IsPlaceable-IsKnown known placed id (deps, e, free) = (deps, e)

module _ (known : Map (List Text)) (final : Map WorkStatus) (within : IsWithin known final) where
  -- The statuses that explain a node when it is reached are the final ones.
  explained_finally :
      (placed : List Text) (statuses : Map WorkStatus) (id : Text) (deps : List Text)
      → IsPlaceable known placed id
      → lookup id known ≡ some deps
      → AreDecided statuses placed
      → IsWithin known statuses
      → Extends final statuses
      → status_from_dependencies (depends_on_of known id) statuses
        ≡ status_from_dependencies deps final
  unfolding status_from_dependencies depends_on_of IsPlaceable AreDecided IsWithin Extends
  explained_finally placed statuses id deps (deps', e', free) e decided w more =
      ap (λ d. explain statuses (or_empty d) true) e
      ∙ explain-ext deps statuses final true (λ dep m.
        elim (free dep (subst (Memᴰ dep) (some-injective _ _ (sym e ∙ e')) m)) [
          | inl missing ↦ w dep missing ∙ sym (within dep missing)
          | inr at ↦ let (s, has_s) = decided dep at in has_s ∙ sym (more dep s has_s)
        ])

  -- Every node of the order that has no outcome is explained by the final statuses.
  pub from_dependencies-explained :
      (placed ids : List Text) (statuses : Map WorkStatus) (id : Text) (deps : List Text)
      → IsPlaced known placed ids
      → AreDecided statuses placed
      → IsWithin known statuses
      → Extends final (from_dependencies known ids statuses)
      → Memᴰ id ids
      → lookup id known ≡ some deps
      → lookup id statuses ≡ none
      → lookup id final ≡ some (status_from_dependencies deps final)
  unfolding IsPlaced
  from_dependencies-explained placed [] statuses id deps p decided w more m e fresh = elim m [ ]
  from_dependencies-explained placed (j ∷ ids) statuses id deps (can, p) decided w more m e fresh =
      elim (from_dependencies-step known j ids statuses) [
        | inl (new, step) ↦ elim (j ≟ id) [
          | yes same ↦
              let kept =
                Extends-trans final _ _ (subst (Extends final) step more)
                  (from_dependencies-Extends known ids _) in
              ap (λ k. lookup k final) (sym same)
              ∙ inserted-Extends final statuses j _ kept
              ∙ ap some (
                  explained_finally placed statuses j deps can (ap (λ k. lookup k known) same ∙ e)
                    decided w (insert-Extends final statuses j _ new kept))
          | no apart ↦
              from_dependencies-explained (j ∷ placed) ids (insert j _ statuses) id deps p
                (insert-AreDecided statuses placed j _ decided)
                (insert-IsWithin known statuses j _ (IsPlaceable-IsKnown known placed j can) w)
                (subst (Extends final) step more) (tail_of j id ids m apart) e
                (insert-none statuses j id _ apart fresh)
        ]
        | inr ((s, old), step) ↦
            from_dependencies-explained (j ∷ placed) ids statuses id deps p
              (cons-AreDecided statuses placed j s old decided) w (subst (Extends final) step more)
              (tail_of j id ids m (apart_of statuses j id s old fresh)) e fresh
      ]
