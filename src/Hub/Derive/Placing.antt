-- ===== src/Hub/Derive/Placing.antt =====
-- `dependencyOrder`: what its loop keeps true of the order that it builds, and that it ends.
use Prim.Native.Nat.{ℕ, suc, zero, ◌+◌, ◌<◌, ◌≤◌}
use mathlib.Core.Path.{◌≡◌, refl, sym, ap, ◌∙◌, subst}
use mathlib.Core.Logic.{◌⊎◌, inl, inr}
use mathlib.Core.Bool.{Bool, true, false, not, ◌&&◌}
use mathlib.Core.List.{List, [], ◌∷◌, ◌++◌, Memᴰ}
use mathlib.Core.Option.{Option, none, some}
use native.Mathlib.Omega.{arith}
use temporal_agents.Prelude.{
  Text, Map, lookup, has, has→Memᴰ, all, ltb, length, length-append, if◌then◌else◌, sort,
  insert_sorted, sort-mem, Option-cases, Bool-cases,
}
use temporal_agents.Hub.Derive.{
  Plan, remaining, is_free, ready, place_all, or_empty, dependency_order,
}
use temporal_agents.Hub.Derive.Known.{HasUniqueKeys, Memᴰ-lookup, remaining-HasUniqueKeys}

-- Each dependency of a node that the plan knows has been placed.
unfoldable pub IsPlaceable : Map (List Text) → List Text → Text → Type 0
IsPlaceable known placed id =
    (deps : List Text) × (lookup id known ≡ some deps)
    × ((dep : Text) → Memᴰ dep deps → (lookup dep known ≡ none) ⊎ Memᴰ dep placed)

-- Each member of an order is placeable after the ones before it.
unfoldable pub IsPlaced : Map (List Text) → List Text → List Text → Type 0
unfolding IsPlaceable
IsPlaced known placed [] = Unit {0}
IsPlaced known placed (id ∷ ids) = IsPlaceable known placed id × IsPlaced known (id ∷ placed) ids

also_Memᴰ :
    (o o' : List Text) (id : Text)
    → ((x : Text) → Memᴰ x o → Memᴰ x o')
    → (x : Text) → Memᴰ x (id ∷ o)
    → Memᴰ x (id ∷ o')
also_Memᴰ o o' id more x (Memᴰ.head e) = Memᴰ.head e
also_Memᴰ o o' id more x (Memᴰ.tail m) = Memᴰ.tail (more x m)

move_Memᴰ :
    (o xs : List Text) (x y : Text) → Memᴰ y o ⊎ Memᴰ y (x ∷ xs) → Memᴰ y (x ∷ o) ⊎ Memᴰ y xs
move_Memᴰ o xs x y (inl m) = inl (Memᴰ.tail m)
move_Memᴰ o xs x y (inr (Memᴰ.head e)) = inl (Memᴰ.head e)
move_Memᴰ o xs x y (inr (Memᴰ.tail m)) = inr m

if_cons-Memᴰ :
    (b : Bool) (x : Text) (xs : List Text) (y : Text)
    → Memᴰ y (if b then x ∷ xs else xs)
    → ((y ≡ x) × (b ≡ true)) ⊎ Memᴰ y xs
if_cons-Memᴰ true x xs y (Memᴰ.head e) = inl (e, refl)
if_cons-Memᴰ true x xs y (Memᴰ.tail m) = inr m
if_cons-Memᴰ false x xs y m = inr m

and_right : (a b : Bool) → (a && b) ≡ true → b ≡ true
and_right a b h = ground arith

round-cases :
    (m n : ℕ) (batch : List Text) (stop go_on : Option (List Text))
    → let round = if ltb m n then elim batch [ [] ↦ stop | _ ∷ _ ↦ go_on ] else stop in
      ((round ≡ stop) × ((batch ≡ []) ⊎ (n ≤ m))) ⊎ ((0 < length batch) × (m < n) × (round ≡ go_on))
round-cases m n [] stop go_on = inl (ground arith, inl refl)
round-cases m n (x ∷ xs) stop go_on = elim (Bool-cases (ltb m n)) [
  | inl e ↦ inr (omega arith, ground arith, ground arith)
  | inr e ↦ inl (ground arith, inr (ground arith))
]

length-insert_sorted : (x : Text) (xs : List Text) → length (insert_sorted x xs) ≡ suc (length xs)
unfolding insert_sorted
length-insert_sorted x [] = refl
length-insert_sorted x (y ∷ ys) = ground (arith, length-insert_sorted x ys)

pub length-sort : (xs : List Text) → length (sort xs) ≡ length xs
unfolding sort
length-sort [] = refl
length-sort (x ∷ xs) = length-insert_sorted x (sort xs) ∙ ap suc (length-sort xs)

module _ (known : Map (List Text)) where
  IsPlaceable-mono :
      (o o' : List Text) (id : Text)
      → ((x : Text) → Memᴰ x o → Memᴰ x o')
      → IsPlaceable known o id
      → IsPlaceable known o' id
  unfolding IsPlaceable
  IsPlaceable-mono o o' id more (deps, e, free) =
      (deps, e, λ dep m. elim (free dep m) [ inl n ↦ inl n | inr at ↦ inr (more dep at) ])

  batch-IsPlaced :
      (o ids : List Text)
      → ((id : Text) → Memᴰ id ids → IsPlaceable known o id)
      → IsPlaced known o ids
  unfolding IsPlaced
  batch-IsPlaced o [] h = tt
  batch-IsPlaced o (id ∷ ids) h = (
    h id (Memᴰ.head refl),
    batch-IsPlaced (id ∷ o) ids
        (λ j m. IsPlaceable-mono o (id ∷ o) j (λ x at. Memᴰ.tail at) (h j (Memᴰ.tail m))),
  )

  IsPlaced-mono :
      (o o' ids : List Text)
      → ((x : Text) → Memᴰ x o → Memᴰ x o')
      → IsPlaced known o ids
      → IsPlaced known o' ids
  unfolding IsPlaced
  IsPlaced-mono o o' [] more p = tt
  IsPlaced-mono o o' (id ∷ ids) more (q, p) = (
    IsPlaceable-mono o o' id more q,
    IsPlaced-mono (id ∷ o) (id ∷ o') ids (also_Memᴰ o o' id more) p,
  )

  append-IsPlaced :
      (o xs o' ys : List Text)
      → ((x : Text) → Memᴰ x o' → Memᴰ x o ⊎ Memᴰ x xs)
      → IsPlaced known o xs
      → IsPlaced known o' ys
      → IsPlaced known o (xs ++ ys)
  unfolding IsPlaced
  append-IsPlaced o [] o' ys within p q =
      IsPlaced-mono o' o ys (λ x m. elim (within x m) [ inl at ↦ at | inr at ↦ elim at [ ] ]) q
  append-IsPlaced o (x ∷ xs) o' ys within (h, p) q =
      (h, append-IsPlaced (x ∷ o) xs o' ys (λ y m. move_Memᴰ o xs x y (within y m)) p q)

  pub all-Memᴰ :
      (p : Text → Bool) (xs : List Text) → all p xs ≡ true → (x : Text) → Memᴰ x xs → p x ≡ true
  all-Memᴰ p [] h x m = elim m [ ]
  all-Memᴰ p (y ∷ xs) h x (Memᴰ.head e) = ground (arith, ap p e)
  all-Memᴰ p (y ∷ xs) h x (Memᴰ.tail m) = all-Memᴰ p xs (ground arith) x m

  is_free-cases :
      (o : List Text) (dep : Text)
      → is_free known o dep ≡ true
      → (lookup dep known ≡ none) ⊎ Memᴰ dep o
  unfolding is_free
  is_free-cases o dep h = elim (Option-cases (lookup dep known)) [
    | inl e ↦ inl e
    | inr (deps, e) ↦ inr (has→Memᴰ dep o (ground (arith, e, h)))
  ]

  -- What an entry of `remaining` that is gathered satisfies.
  pub ready-Memᴰ :
      (o : List Text) (entries : Map (List Text)) (id : Text)
      → Memᴰ id (ready known o entries)
      → (deps : List Text) × Memᴰ (id, deps) entries × (all (is_free known o) deps ≡ true)
  unfolding ready
  ready-Memᴰ o [] id m = elim m [ ]
  ready-Memᴰ o ((j, deps) ∷ entries) id m =
      let test = not (has j o) && all (is_free known o) deps in
      elim (if_cons-Memᴰ test j (ready known o entries) id m) [
        | inl (same, holds) ↦
            (deps, Memᴰ.head (ap (λ k. (k, deps)) same), and_right (not (has j o)) _ holds)
        | inr at ↦ let (ds, here, free) = ready-Memᴰ o entries id at in (ds, Memᴰ.tail here, free)
      ]

  ready-IsPlaceable :
      (o : List Text) (id : Text)
      → HasUniqueKeys known
      → Memᴰ id (ready known o known)
      → IsPlaceable known o id
  unfolding IsPlaceable
  ready-IsPlaceable o id u m =
      let (deps, at, free) = ready-Memᴰ o known id m in
      (
        deps,
        Memᴰ-lookup id deps known u at,
        λ dep d. is_free-cases o dep (all-Memᴰ (is_free known o) deps free dep d),
      )

  -- A round leaves the loop, or it places a node and goes on.
  pub place_all-step :
      (fuel : ℕ) (o : List Text)
      → ((place_all known (suc fuel) o ≡ some o)
          × ((ready known o known ≡ []) ⊎ (length known ≤ length o)))
        ⊎ ((0 < length (ready known o known))
            × (length o < length known)
            × (place_all known (suc fuel) o
                ≡ place_all known fuel (o ++ sort (ready known o known))))
  unfolding place_all
  place_all-step fuel o =
      round-cases (length o) (length known) (ready known o known) (some o)
        (place_all known fuel (o ++ sort (ready known o known)))

  extend-IsPlaced :
      (o : List Text)
      → HasUniqueKeys known
      → IsPlaced known [] o
      → IsPlaced known [] (o ++ sort (ready known o known))
  extend-IsPlaced o u p =
      let batch = ready known o known in
      append-IsPlaced [] o o (sort batch) (λ x m. inr m) p
        (batch-IsPlaced o (sort batch) (λ id m. ready-IsPlaceable o id u (sort-mem id batch m)))

  place_all-IsPlaced :
      (fuel : ℕ) (o r : List Text)
      → HasUniqueKeys known
      → IsPlaced known [] o
      → place_all known fuel o ≡ some r
      → IsPlaced known [] r
  unfolding place_all
  place_all-IsPlaced zero o r u p h = ground arith
  place_all-IsPlaced (suc fuel) o r u p h = elim (place_all-step fuel o) [
    | inl (e, stop) ↦ subst (IsPlaced known []) (ground (arith, sym e ∙ h)) p
    | inr (more, below, e) ↦
        place_all-IsPlaced fuel (o ++ sort (ready known o known)) r u (extend-IsPlaced o u p)
          (sym e ∙ h)
  ]

  place_all-some :
      (fuel : ℕ) (o : List Text)
      → length known ≤ length o + fuel
      → (r : List Text) × (place_all known (suc fuel) o ≡ some r)
  place_all-some zero o h = elim (place_all-step zero o) [
    | inl (e, stop) ↦ (o, e)
    | inr (more, below, e) ↦ ground arith
  ]
  place_all-some (suc fuel) o h = elim (place_all-step (suc fuel) o) [
    | inl (e, stop) ↦ (o, e)
    | inr (more, below, e) ↦
        let batch = ready known o known in
        let (r, found) =
          place_all-some fuel (o ++ sort batch)
            (omega (arith, length-append o (sort batch), length-sort batch)) in
        (r, e ∙ found)
  ]

-- The loop of `dependencyOrder` ends within as many rounds as there are nodes, and one.
pub place_all-dependency_order :
    (plan : Plan)
    → place_all (remaining plan) (suc (length (remaining plan))) [] ≡ some (dependency_order plan)
unfolding dependency_order
place_all-dependency_order plan =
    let (r, e) = place_all-some (remaining plan) (length (remaining plan)) [] (omega arith) in
    e ∙ ap (λ o. some (or_empty o)) (sym e)

-- Each member of `dependencyOrder` is a node of the plan, and those of its dependencies that the plan
-- knows stand before it.
pub dependency_order-IsPlaced : (plan : Plan) → IsPlaced (remaining plan) [] (dependency_order plan)
dependency_order-IsPlaced plan =
    place_all-IsPlaced (remaining plan) (suc (length (remaining plan))) [] (dependency_order plan)
      (remaining-HasUniqueKeys plan) (unfold IsPlaced in tt) (place_all-dependency_order plan)
