-- ===== src/Hub/Derive/Stuck.antt =====
-- `dependencyOrder` leaves out only what a cycle keeps out.
use Prim.Native.Nat.{ℕ, suc, zero, ◌+◌}
use mathlib.Core.Path.{◌≡◌, refl, sym, ap, ◌∙◌, subst}
use mathlib.Core.Logic.{◌⊎◌, inl, inr}
use mathlib.Core.Bool.{Bool, true, false, not, ◌&&◌}
use mathlib.Core.List.{List, [], ◌∷◌, ◌++◌, Memᴰ}
use mathlib.Core.List.Memᴰ
use mathlib.Core.Option.{some}
use native.Mathlib.Omega.{arith}
use temporal_agents.Prelude.{
  Text, Map, lookup, has, has→Memᴰ, Memᴰ→has, all, length, length-append, if◌then◌else◌, sort,
  sort-mem, mem-sort, Option-cases, Bool-cases, ◌≟◌,
}
use temporal_agents.Hub.Derive.{Plan, remaining, is_free, ready, place_all, dependency_order}
use temporal_agents.Hub.Derive.Known.{HasUniqueKeys, Memᴰ-lookup, remaining-HasUniqueKeys, IsKnown}
use temporal_agents.Hub.Derive.Placing.{
  ready-Memᴰ, place_all-step, length-sort, place_all-dependency_order,
}

-- How many entries an order does not list.
unfoldable missing : List Text → Map (List Text) → ℕ
missing o [] = 0
missing o ((id, deps) ∷ entries) =
    let rest = missing o entries in if has id o then rest else suc rest

missing-nil : (entries : Map (List Text)) → missing [] entries ≡ length entries
unfolding missing has
missing-nil [] = refl
missing-nil ((id, deps) ∷ entries) = ap suc (missing-nil entries)

missing-zero :
    (o : List Text) (entries : Map (List Text)) (id : Text) (deps : List Text)
    → missing o entries ≡ 0
    → Memᴰ (id, deps) entries
    → has id o ≡ true
unfolding missing
missing-zero o [] id deps h m = elim m [ ]
missing-zero o ((j, ds) ∷ entries) id deps h (Memᴰ.head e) =
    ground (arith, ap (λ (p : Text × List Text). has p.0 o) e)
missing-zero o ((j, ds) ∷ entries) id deps h (Memᴰ.tail m) =
    missing-zero o entries id deps (ground arith) m

lookup-Memᴰ :
    (entries : Map (List Text)) (id : Text) (deps : List Text)
    → lookup id entries ≡ some deps
    → Memᴰ (id, deps) entries
unfolding lookup
lookup-Memᴰ [] id deps h = cc
lookup-Memᴰ ((j, ds) ∷ entries) id deps h = elim (j ≟ id) [
  | yes e ↦ Memᴰ.head (ground arith)
  | no n ↦ Memᴰ.tail (lookup-Memᴰ entries id deps (ground arith))
]

-- A test that fails for one of a list.
not_all :
    (p : Text → Bool) (xs : List Text) → all p xs ≡ false → (x : Text) × Memᴰ x xs × (p x ≡ false)
not_all p [] h = ground arith
not_all p (x ∷ xs) h = elim (Bool-cases (p x)) [
  | inl e ↦ let (y, m, f) = not_all p xs (ground arith) in (y, Memᴰ.tail m, f)
  | inr e ↦ (x, Memᴰ.head refl, e)
]

clash : (b : Bool) → b ≡ true → b ≡ false → ⊥
clash b t f = ground arith

module _ (known : Map (List Text)) where
  Memᴰ-ready :
      (o : List Text) (entries : Map (List Text)) (id : Text) (deps : List Text)
      → Memᴰ (id, deps) entries
      → has id o ≡ false
      → all (is_free known o) deps ≡ true
      → Memᴰ id (ready known o entries)
  unfolding ready
  Memᴰ-ready o [] id deps m away free = elim m [ ]
  Memᴰ-ready o ((j, ds) ∷ entries) id deps (Memᴰ.head e) away free =
      rw
        (
          ap (λ (p : Text × List Text). has p.0 o) (sym e) ∙ away,
          ap (λ (p : Text × List Text). all (is_free known o) p.1) (sym e) ∙ free,
        )
        (Memᴰ.head (ap (λ (p : Text × List Text). p.0) e))
  Memᴰ-ready o ((j, ds) ∷ entries) id deps (Memᴰ.tail m) away free =
      later (not (has j o) && all (is_free known o) ds) (Memᴰ-ready o entries id deps m away free)
    where
      later :
          (b : Bool)
          → Memᴰ id (ready known o entries)
          → Memᴰ id (if b then j ∷ ready known o entries else ready known o entries)
      later true at = Memᴰ.tail at
      later false at = at

  abbrev after : List Text → List Text
  after o = o ++ sort (ready known o known)

  -- What a round does to one entry.
  abbrev Places : List Text → Map (List Text) → Type 0
  Places o entries =
      (id : Text) (deps : List Text)
      → Memᴰ (id, deps) entries
      → (has id o ≡ true → has id (after o) ≡ true)
        × (has id o ≡ false → has id (after o) ≡ all (is_free known o) deps)

  known-Places : (o : List Text) → HasUniqueKeys known → Places o known
  known-Places o u id deps m = (
    λ at. Memᴰ→has id (after o) (Memᴰ.append_left (sort (ready known o known)) (has→Memᴰ id o at)),
    λ away. elim (Bool-cases (all (is_free known o) deps)) [
      | inl free ↦
          Memᴰ→has id (after o) (
            Memᴰ.append_right o
              (mem-sort id (ready known o known) (Memᴰ-ready o known id deps m away free)))
          ∙ sym free
      | inr bound ↦ elim (Bool-cases (has id (after o))) [
        | inr out ↦ out ∙ sym bound
        | inl placed ↦ elim (Memᴰ.append_cases o (has→Memᴰ id (after o) placed)) [
          | inl at ↦ absurd (clash (has id o) (Memᴰ→has id o at) away)
          | inr at ↦
              let (ds, here, free) =
                ready-Memᴰ known o known id (sort-mem id (ready known o known) at) in
              let same : some ds ≡ some deps =
                sym (Memᴰ-lookup id ds known u here) ∙ Memᴰ-lookup id deps known u m in
              absurd (clash (all (is_free known o) deps) (ground arith) bound)
        ]
      ]
    ],
  )

  one_more :
      (b : Bool) (id : Text) (batch : List Text) (m m' : ℕ)
      → m ≡ length batch + m'
      → suc m ≡ length (if b then id ∷ batch else batch) + (if b then m' else suc m')
  one_more true id batch m m' h = omega arith
  one_more false id batch m m' h = omega arith

  missing-step :
      (o : List Text) (entries : Map (List Text))
      → Places o entries
      → missing o entries ≡ length (ready known o entries) + missing (after o) entries
  unfolding missing ready
  missing-step o [] places = refl
  missing-step o ((id, deps) ∷ entries) places =
      let rest = missing-step o entries (λ j ds m. places j ds (Memᴰ.tail m)) in
      let here = places id deps (Memᴰ.head refl) in
      elim (Bool-cases (has id o)) [
        | inl e ↦ rw (e, here.0 e) rest
        | inr e ↦
            rw (e, here.1 e)
              (one_more (all (is_free known o) deps) id (ready known o entries) (missing o entries)
                (missing (after o) entries) rest)
      ]

  -- An order lists each key once at most.
  abbrev Counts : List Text → Type 0
  Counts o = length o + missing o known ≡ length known

  Counts-step : (o : List Text) → HasUniqueKeys known → Counts o → Counts (after o)
  Counts-step o u counts = omega (
    arith,
    missing-step o known (known-Places o u),
    length-append o (sort (ready known o known)),
    length-sort (ready known o known),
    counts,
  )

  -- At its end the loop has listed every key, or no entry is ready.
  place_all-ends :
      (fuel : ℕ) (o r : List Text)
      → HasUniqueKeys known
      → Counts o
      → place_all known fuel o ≡ some r
      → (ready known r known ≡ []) ⊎ (missing r known ≡ 0)
  unfolding place_all
  place_all-ends zero o r u counts h = ground arith
  place_all-ends (suc fuel) o r u counts h = elim (place_all-step known fuel o) [
    | inl (e, stop) ↦
        subst (λ x. (ready known x known ≡ []) ⊎ (missing x known ≡ 0)) (ground (arith, sym e ∙ h))
          (elim stop [ inl empty ↦ inl empty | inr full ↦ inr (omega (arith, counts)) ])
    | inr (more, below, e) ↦ place_all-ends fuel (after o) r u (Counts-step o u counts) (sym e ∙ h)
  ]

not_free :
    (known : Map (List Text)) (o : List Text) (dep : Text)
    → is_free known o dep ≡ false
    → IsKnown known dep × (has dep o ≡ false)
unfolding is_free IsKnown
not_free known o dep h = elim (Option-cases (lookup dep known)) [
  | inl e ↦ ground (arith, e, h)
  | inr (deps, e) ↦ ((deps, e), ground (arith, e, h))
]

bound_by :
    (known : Map (List Text)) (o : List Text) (id : Text) (deps : List Text)
    → Memᴰ (id, deps) known
    → has id o ≡ false
    → ready known o known ≡ []
    → (dep : Text) × Memᴰ dep deps × IsKnown known dep × (has dep o ≡ false)
bound_by known o id deps m away empty = elim (Bool-cases (all (is_free known o) deps)) [
  | inl free ↦
      elim (subst (λ l. Memᴰ id l) empty (Memᴰ-ready known o known id deps m away free)) [ ]
  | inr bound ↦
      let (dep, at, f) = not_all (is_free known o) deps bound in
      let (is_there, out) = not_free known o dep f in (dep, at, is_there, out)
]

has-not : (id : Text) (o : List Text) → ¬ Memᴰ id o → has id o ≡ false
has-not id o away = elim (Bool-cases (has id o)) [
  | inl at ↦ absurd (away (has→Memᴰ id o at))
  | inr out ↦ out
]

-- A node that `dependencyOrder` leaves out runs after another that it leaves out.
pub dependency_order-stuck :
    (plan : Plan) (id : Text) (deps : List Text)
    → lookup id (remaining plan) ≡ some deps
    → ¬ Memᴰ id (dependency_order plan)
    → (dep : Text) × Memᴰ dep deps
      × IsKnown (remaining plan) dep
      × (¬ Memᴰ dep (dependency_order plan))
dependency_order-stuck plan id deps h away =
    let known = remaining plan in
    let o = dependency_order plan in
    let m = lookup-Memᴰ known id deps h in
    elim (place_all-ends known (suc (length known)) [] o (remaining-HasUniqueKeys plan)
      (omega (arith, missing-nil known)) (place_all-dependency_order plan)) [
        | inl empty ↦
            let (dep, at, is_there, out) = bound_by known o id deps m (has-not id o away) empty in
            (dep, at, is_there, λ placed. clash (has dep o) (Memᴰ→has dep o placed) out)
        | inr full ↦ absurd (away (has→Memᴰ id o (missing-zero o known id deps full m)))
      ]
