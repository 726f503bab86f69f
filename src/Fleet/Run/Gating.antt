-- ===== src/Fleet/Run/Gating.antt =====
-- A whole run: how the results of the nodes hang together.
use Prim.Native.Nat.{ℕ, zero, suc, ◌≤◌, ◌<◌, ◌+◌}
use mathlib.Core.Path.{◌≡◌, refl, sym, ap, ◌∙◌}
use mathlib.Core.List.{List, [], ◌∷◌, Memᴰ}
use mathlib.Core.Option.{some}
use native.Mathlib.Omega.{arith}
use temporal_agents.Prelude.{Text, Map, lookup}
use temporal_agents.Fleet.Run.{NodeResult, Progress, RunContext, node_of, run_layer, run_layers}
use temporal_agents.Fleet.Run.Layer.{verdict, blocking_dependency-ext, decided, run_layer-settles}
use temporal_agents.Fleet.Layers.Filling.{layer}

module _ (run : RunContext) (rank : Text → ℕ)
    (below : (k d : Text) → Memᴰ d (node_of run k).depends_on → rank d < rank k) where
  -- Every node of the layers has the rank of its layer, counted from `i`.
  abbrev pub Ranked : ℕ → List (List Text) → Type 0
  Ranked i [] = Unit {0}
  Ranked i (l ∷ ls) = ((k : Text) → Memᴰ k l → rank k ≡ i) × Ranked (suc i) ls

  -- The result of a node is what the results decide.
  abbrev pub IsDecided : Map NodeResult → Text → Type 0
  IsDecided m k = lookup k m ≡ some (verdict run m k)

  -- A decided node stays so when only results of its rank or more change.
  IsDecided-ext :
      (m m' : Map NodeResult) (k : Text) (i : ℕ)
      → rank k ≤ i
      → ((x : Text) → rank x < i → lookup x m' ≡ lookup x m)
      → lookup k m' ≡ some (verdict run m k)
      → IsDecided m' k
  IsDecided-ext m m' k i small same h =
      h
      ∙ ap (λ o. some (decided run o k))
          (blocking_dependency-ext (node_of run k) m m'
            (λ d e. sym (same d (omega (arith, below k d e)))))

  -- What holds of the results `m` before layer `i` and `m'` after the layers `ls` from there.
  pub record Decides (i : ℕ) (ls : List (List Text)) (m m' : Map NodeResult) : Type 0 where
    pub keeps : (k : Text) → rank k < i → lookup k m' ≡ lookup k m
    pub decides : (j : ℕ) (k : Text) → Memᴰ k (layer j ls) → IsDecided m' k

  Decides-cons :
      (i : ℕ) (l : List Text) (ls : List (List Text)) (p : Progress) (m' : Map NodeResult)
      → ((k : Text) → Memᴰ k l → rank k ≡ i)
      → Decides (suc i) ls (run_layer run l p).results m'
      → Decides i (l ∷ ls) p.results m'
  Decides-cons i l ls p m' ranked rest = record { keeps = keeps; decides = decides }
    where
      settles :
          ((x : Text) → ¬ Memᴰ x l → lookup x (run_layer run l p).results ≡ lookup x p.results)
          × ((k : Text)
              → Memᴰ k l
              → lookup k (run_layer run l p).results ≡ some (verdict run p.results k))
      settles =
          run_layer-settles run l p.results
            (λ k d at h there. absurd (omega (arith, below k d h, ranked k at, ranked d there))) p
            refl

      keeps : (k : Text) → rank k < i → lookup k m' ≡ lookup k p.results
      keeps k h = rest.keeps k (omega arith) ∙ settles.0 k (λ m. absurd (omega (arith, ranked k m)))

      decides : (j : ℕ) (k : Text) → Memᴰ k (layer j (l ∷ ls)) → IsDecided m' k
      decides zero k m =
          IsDecided-ext p.results m' k i (omega (arith, ranked k m)) keeps
            (rest.keeps k (omega (arith, ranked k m)) ∙ settles.1 k m)
      decides (suc j) k m = rest.decides j k m

  pub run_layers-Decides :
      (i : ℕ) (ls : List (List Text)) (p : Progress)
      → Ranked i ls
      → Decides i ls p.results (run_layers run ls p).results
  unfolding run_layers
  run_layers-Decides i [] p ranked = record { keeps = λ k h. refl; decides = λ j k m. elim m [ ] }
  run_layers-Decides i (l ∷ ls) p ranked =
      Decides-cons i l ls p (run_layers run ls (run_layer run l p)).results ranked.0
        (run_layers-Decides (suc i) ls (run_layer run l p) ranked.1)

  pub Ranked-of :
      (i : ℕ) (ls : List (List Text))
      → ((j : ℕ) (k : Text) → Memᴰ k (layer j ls) → rank k ≡ i + j)
      → Ranked i ls
  Ranked-of i [] h = tt
  Ranked-of i (l ∷ ls) h = (
    λ k m. omega (arith, h zero k m),
    Ranked-of (suc i) ls (λ j k m. omega (arith, h (suc j) k m)),
  )

  pub run_layers-decides :
      (ls : List (List Text)) (p : Progress)
      → ((j : ℕ) (k : Text) → Memᴰ k (layer j ls) → rank k ≡ j)
      → (j : ℕ) (k : Text) → Memᴰ k (layer j ls)
      → lookup k (run_layers run ls p).results ≡ some (verdict run (run_layers run ls p).results k)
  run_layers-decides ls p h j k m =
      (run_layers-Decides 0 ls p (Ranked-of 0 ls (λ j k m. omega (arith, h j k m)))).decides j k m
