-- ===== src/Fleet/Layers/Depths.antt =====
-- The memoised recursion computes the rank of every node, within its fuel.
use Prim.Native.Nat.{ℕ, zero, suc, max, ◌≤◌, ◌<◌}
use mathlib.Core.Path.{◌≡◌, refl, sym, ap, ◌∙◌, subst}
use mathlib.Core.Logic.{◌⊎◌, inl, inr}
use mathlib.Core.Bool.{true, false, not}
use mathlib.Core.List.{List, [], ◌∷◌, Memᴰ}
use mathlib.Core.Option.{Option, none, some}
use mathlib.Core.WellFounded.{WellFounded}
use native.Mathlib.Omega.{arith}
use temporal_agents.Prelude.{
  Text, ◌≟◌, Map, lookup, insert, has, has→Memᴰ, count_if, count_if-lt, Option-cases, ltb,
  if◌then◌else◌, Bool-cases, length,
}
use temporal_agents.Fleet.Search.Walks.{Reaches, NeededBy, Acc-acyclic, Reaches-snoc}
use temporal_agents.Fleet.Layers.{compute_deps, compute, compute_all}
use temporal_agents.Fleet.Layers.Ranks.{above, rank, rank-above}

-- The nodes of `everything` that are not among the callers of a call: what its fuel has to pay for.
pub cost : List Text → List Text → ℕ
cost everything path = count_if (λ k. not (has k path)) everything

cost-cons :
    (everything path : List Text) (id : Text)
    → Memᴰ id everything
    → ¬ Memᴰ id path
    → cost everything (id ∷ path) < cost everything path
unfolding cost has
cost-cons everything path id at new =
    count_if-lt _ _ (λ k h. ground arith) id everything at (ground arith)
      (absent (Bool-cases (has id path)))
  where
    absent : (has id path ≡ true) ⊎ (has id path ≡ false) → not (has id path) ≡ true
    absent (inl e) = absurd (new (has→Memᴰ id path e))
    absent (inr e) = ap not e

-- A node that the memo lacks gets the depth that its dependencies give it.
compute_miss :
    (deps : Text → List Text) (fuel : ℕ) (id : Text) (memo memo' : Map ℕ) (d : ℕ)
    → lookup id memo ≡ none
    → compute_deps (compute deps fuel) (deps id) 0 memo ≡ some (d, memo')
    → compute deps (suc fuel) id memo ≡ some (d, insert id d memo')
unfolding compute
compute_miss deps fuel id memo memo' d e f = ground arith

module _ (deps : Text → List Text) (everything : List Text) (wf : WellFounded (NeededBy deps)) where
  abbrev R : Text → ℕ
  R = rank deps wf

  -- The memo holds ranks.
  abbrev pub HoldsRanks : Map ℕ → Type 0
  HoldsRanks memo = (k : Text) (d : ℕ) → lookup k memo ≡ some d → d ≡ rank deps wf k

  abbrev pub Keeps : Map ℕ → Map ℕ → Type 0
  Keeps memo memo' =
      (k : Text) → lookup k memo ≡ some (rank deps wf k) → lookup k memo' ≡ some (rank deps wf k)

  -- Every caller needs the node.
  abbrev Callers : List Text → Text → Type 0
  Callers path id = (x : Text) → Memᴰ x path → Reaches deps x id

  -- What a call promises, when the fuel covers the nodes that are not callers.
  abbrev Computes : ℕ → (Text → Map ℕ → Option (ℕ × Map ℕ)) → Type 0
  Computes fuel call =
      (id : Text) (memo : Map ℕ) (path : List Text)
      → Callers path id
      → Memᴰ id everything
      → cost everything path ≤ fuel
      → HoldsRanks memo
      → (memo' : Map ℕ) × (call id memo ≡ some (rank deps wf id, memo'))
        × HoldsRanks memo'
        × Keeps memo memo'
        × (lookup id memo' ≡ some (rank deps wf id))

  compute_deps-above :
      (fuel : ℕ) (call : Text → Map ℕ → Option (ℕ × Map ℕ)) (good : Computes fuel call)
      (path : List Text) (paid : cost everything path ≤ fuel) (ds : List Text) (best : ℕ)
      (memo : Map ℕ)
      → ((d : Text) → Memᴰ d ds → Callers path d × Memᴰ d everything)
      → HoldsRanks memo
      → (memo' : Map ℕ) × (compute_deps call ds best memo
          ≡ some (max best (above (rank deps wf) ds), memo'))
        × HoldsRanks memo'
        × Keeps memo memo'
  unfolding compute_deps
  compute_deps-above fuel call good path paid [] best memo fits h =
      (memo, ap (λ (n : ℕ). some (n, memo)) (omega arith), h, λ k e. e)
  compute_deps-above fuel call good path paid (d ∷ ds) best memo fits h =
      let (callers, within) = fits d (Memᴰ.head refl) in
      let (memo₁, e₁, h₁, keeps₁, at₁) = good d memo path callers within paid h in
      let (memo₂, e₂, h₂, keeps₂) =
        compute_deps-above fuel call good path paid ds
          (if ltb best (suc (R d)) then suc (R d) else best) memo₁ (λ x m. fits x (Memᴰ.tail m))
          h₁ in
      (
        memo₂,
        rw e₁ (e₂ ∙ ap (λ (n : ℕ). some (n, memo₂)) (ground arith)),
        h₂,
        λ k e. keeps₂ k (keeps₁ k e),
      )

  insert-HoldsRanks :
      (id : Text) (memo : Map ℕ) → HoldsRanks memo → HoldsRanks (insert id (R id) memo)
  unfolding lookup
  insert-HoldsRanks id memo h k d e = elim (id ≟ k) [
    | yes q ↦ subst (λ z. d ≡ R z) q (ground arith)
    | no n ↦ h k d (ground arith)
  ]

  insert-Keeps : (id : Text) (memo : Map ℕ) → Keeps memo (insert id (R id) memo)
  unfolding lookup
  insert-Keeps id memo k e = elim (id ≟ k) [
    | yes q ↦ subst (λ z. lookup z (insert id (R id) memo) ≡ some (R z)) q (ground arith)
    | no n ↦ ground arith
  ]

  lookup-insert_self : (id : Text) (memo : Map ℕ) → lookup id (insert id (R id) memo) ≡ some (R id)
  unfolding lookup
  lookup-insert_self id memo = ground arith

  module _ (closed : (a d : Text) → Memᴰ d (deps a) → Memᴰ d everything) where
    not_caller : (id : Text) (path : List Text) → Callers path id → ¬ Memᴰ id path
    not_caller id path c m = Acc-acyclic deps id (wf.apply id) (c id m)

    compute-Computes : (fuel : ℕ) → Computes fuel (compute deps fuel)
    unfolding compute
    compute-Computes zero id memo path callers within paid h =
        absurd (omega (arith, cost-cons everything path id within (not_caller id path callers)))
    compute-Computes (suc fuel) id memo path callers within paid h =
        elim (Option-cases (lookup id memo)) [
          | inr (d, e) ↦ (
            memo,
            rw (e, compute) (ap (λ (n : ℕ). some (n, memo)) (h id d e)),
            h,
            λ k q. q,
            e ∙ ap some (h id d e),
          )
          | inl e ↦
              let (memo', computed, h', keeps) =
                compute_deps-above fuel (compute deps fuel) (compute-Computes fuel) (id ∷ path)
                  (omega (arith, cost-cons everything path id within (not_caller id path callers)))
                  (deps id) 0 memo (λ d m. (extend d m, closed id d m)) h in
              let depth : max 0 (above R (deps id)) ≡ R id = omega (arith, rank-above deps wf id) in
              (
                insert id (R id) memo',
                compute_miss deps fuel id memo memo' _ e computed
                    ∙ ap (λ (n : ℕ). some (n, insert id n memo')) depth,
                insert-HoldsRanks id memo' h',
                λ k q. insert-Keeps id memo' k (keeps k q),
                lookup-insert_self id memo',
              )
        ]
      where
        extend : (d : Text) → Memᴰ d (deps id) → Callers (id ∷ path) d
        extend d m x (Memᴰ.head q) = subst (λ z. Reaches deps z d) (sym q) (Reaches.direct m)
        extend d m x (Memᴰ.tail k) = Reaches-snoc deps (callers x k) m

    -- The greatest rank of the list, and `best` if that is greater.
    abbrev pub greatest : ℕ → List Text → ℕ
    greatest best [] = best
    greatest best (x ∷ xs) = greatest (max best (rank deps wf x)) xs

    pub compute_all-ranks :
        (fuel : ℕ) (xs : List Text) (best : ℕ) (memo : Map ℕ)
        → ((x : Text) → Memᴰ x xs → Memᴰ x everything)
        → cost everything [] ≤ fuel
        → HoldsRanks memo
        → (memo' : Map ℕ) × (compute_all deps fuel xs best memo ≡ some (greatest best xs, memo'))
          × Keeps memo memo'
          × ((x : Text) → Memᴰ x xs → lookup x memo' ≡ some (rank deps wf x))
    unfolding compute_all
    compute_all-ranks fuel [] best memo within paid h = (memo, refl, λ k e. e, λ x m. elim m [ ])
    compute_all-ranks fuel (x ∷ xs) best memo within paid h =
        let (memo₁, e₁, h₁, keeps₁, at₁) =
          compute-Computes fuel x memo [] (λ y m. elim m [ ]) (within x (Memᴰ.head refl)) paid h in
        let (memo₂, e₂, keeps₂, at₂) =
          compute_all-ranks fuel xs (max best (R x)) memo₁ (λ y m. within y (Memᴰ.tail m)) paid
            h₁ in
        let larger : (if ltb best (R x) then R x else best) ≡ max best (R x) = ground arith in
        (memo₂, rw (e₁, larger) e₂, λ k e. keeps₂ k (keeps₁ k e), both memo₂ (keeps₂ x at₁) at₂)
      where
        both :
            (m : Map ℕ)
            → lookup x m ≡ some (R x)
            → ((y : Text) → Memᴰ y xs → lookup y m ≡ some (R y))
            → (y : Text) → Memᴰ y (x ∷ xs)
            → lookup y m ≡ some (R y)
        both m here there y (Memᴰ.head q) = subst (λ z. lookup z m ≡ some (R z)) (sym q) here
        both m here there y (Memᴰ.tail k) = there y k

pub cost-nil-le : (everything : List Text) → cost everything [] ≤ length everything
unfolding cost has count_if
cost-nil-le [] = omega arith
cost-nil-le (x ∷ xs) = ground (arith, cost-nil-le xs)

module _ (deps : Text → List Text) (everything : List Text) (wf : WellFounded (NeededBy deps))
    (closed : (a d : Text) → Memᴰ d (deps a) → Memᴰ d everything) where
  best-le-greatest : (best : ℕ) (xs : List Text) → best ≤ greatest deps everything wf closed best xs
  best-le-greatest best [] = omega arith
  best-le-greatest best (x ∷ xs) = omega (arith, best-le-greatest (max best (rank deps wf x)) xs)

  pub rank-le-greatest :
      (best : ℕ) (xs : List Text) (x : Text)
      → Memᴰ x xs
      → rank deps wf x ≤ greatest deps everything wf closed best xs
  rank-le-greatest best [] x m = elim m [ ]
  rank-le-greatest best (y ∷ xs) x (Memᴰ.head e) =
      subst (λ z. rank deps wf z ≤ greatest deps everything wf closed best (y ∷ xs)) (sym e)
        (omega (arith, best-le-greatest (max best (rank deps wf y)) xs))
  rank-le-greatest best (y ∷ xs) x (Memᴰ.tail m) =
      rank-le-greatest (max best (rank deps wf y)) xs x m
