-- ===== src/Fleet/Layers/Order.antt =====
-- The layers of a valid plan: their existence, their content and their order.
use Prim.Native.Nat.{ℕ, suc, ◌≤◌, ◌<◌}
use mathlib.Core.Path.{◌≡◌, sym, ap, ◌∙◌, subst}
use mathlib.Core.Logic.{inl, inr}
use mathlib.Core.Bool.{true}
use mathlib.Core.List.Memᴰ
use mathlib.Core.List.{List, [], ◌∷◌, ◌++◌, Memᴰ, map}
use mathlib.Core.Option.{some}
use mathlib.Core.WellFounded.Acc
use mathlib.Core.WellFounded.{Acc, WellFounded}
use native.Mathlib.Omega.{arith}
use temporal_agents.Prelude.{
  Text, Map, lookup, length, ok, sort, sort-mem, mem-sort, IsSorted, sort-IsSorted, length-map,
  Bool-cases, ==_iff, ◌==◌,
}
use temporal_agents.Fleet.Search.{FleetNode, FleetPlan, ids, universe}
use temporal_agents.Fleet.Search.Walks.{NeededBy}
use temporal_agents.Fleet.Search.Table.{depends, depends-Source, ids-universe, deps-universe}
use temporal_agents.Fleet.Search.Verdict.{IsGrounded}
use temporal_agents.Fleet.Plan.{validate_plan}
use temporal_agents.Fleet.Plan.WellFormed.{IsWellFormed}
use temporal_agents.Fleet.Plan.Accepts.{validate_plan-ok_iff, accepted-IsGrounded, depends-of_node}
use temporal_agents.Fleet.Layers.{topo_layers, empty_layers, fill}
use temporal_agents.Fleet.Layers.Ranks.{above, rank, rank-above}
use temporal_agents.Fleet.Layers.Depths.{greatest, compute_all-ranks, cost-nil-le, rank-le-greatest}
use temporal_agents.Fleet.Layers.Filling.{
  layer, of_rank, length-fill, layer-fill, layer-empty, length-empty, layer-map-sort,
}

-- Layer `i` holds, sorted, the nodes whose longest chain of prerequisites has length `i`.
pub record IsLayering (nodes : List FleetNode) (rank : Text → ℕ) (layers : List (List Text))
    : Type 0 where
  pub ranks : (n : FleetNode) → Memᴰ n nodes → rank n.id ≡ above rank n.depends_on
  pub content : (i : ℕ) → layer i layers ≡ sort (of_rank rank i (ids nodes))
  pub enough : (k : Text) → Memᴰ k (ids nodes) → rank k < length layers

module _ (plan : FleetPlan) (g : IsGrounded plan) where
  grounded_wf : WellFounded (NeededBy (depends plan))
  grounded_wf = record {
    apply = λ a. Acc.intro a (λ y m.
        let (n, at, e, d) = depends-Source plan a y m in
        Acc.inv (g a (subst (λ k. Memᴰ k (ids plan.nodes)) e (Memᴰ.map (λ n. n.id) at))) m);
  }

  closed : (a d : Text) → Memᴰ d (depends plan a) → Memᴰ d (universe plan.nodes)
  closed a d m = let (n, at, e, h) = depends-Source plan a d m in deps-universe plan.nodes n d at h

  plan_rank : Text → ℕ
  plan_rank = rank (depends plan) grounded_wf

  layered : (max_depth : ℕ) → Map ℕ → List (List Text)
  layered max_depth depth = map sort (fill depth (ids plan.nodes) (empty_layers (suc max_depth)))

  layered-IsLayering :
      (w : IsWellFormed plan.nodes) (max_depth : ℕ) (depth : Map ℕ)
      → ((x : Text) → Memᴰ x (ids plan.nodes) → lookup x depth ≡ some (plan_rank x))
      → ((x : Text) → Memᴰ x (ids plan.nodes) → plan_rank x ≤ max_depth)
      → IsLayering plan.nodes plan_rank (layered max_depth depth)
  unfolding plan_rank layered
  layered-IsLayering w max_depth depth known small = record {
    ranks = λ n at.
        rank-above (depends plan) grounded_wf n.id
        ∙ ap (above plan_rank) (depends-of_node plan n w.distinct at);
    content = λ i.
        layer-map-sort i (fill depth (ids plan.nodes) (empty_layers (suc max_depth)))
        ∙ ap sort (
            layer-fill plan_rank depth i (ids plan.nodes) (empty_layers (suc max_depth))
              (λ x m. (known x m, within x m))
            ∙ ap (λ l. l ++ of_rank plan_rank i (ids plan.nodes)) (layer-empty i (suc max_depth)));
    enough = λ k m. subst (λ n. plan_rank k < n) (sym size) (within' k m);
  }
    where
      within :
          (x : Text) → Memᴰ x (ids plan.nodes) → plan_rank x < length (empty_layers (suc max_depth))
      within x m =
          subst (λ n. plan_rank x < n) (sym (length-empty (suc max_depth)))
            (omega (arith, small x m))

      within' : (x : Text) → Memᴰ x (ids plan.nodes) → plan_rank x < suc max_depth
      within' x m = omega (arith, small x m)

      size : length (layered max_depth depth) ≡ suc max_depth
      size =
          length-map (fill depth (ids plan.nodes) (empty_layers (suc max_depth))) sort
          ∙ length-fill plan_rank depth (ids plan.nodes) (empty_layers (suc max_depth))
          ∙ length-empty (suc max_depth)

-- A valid plan has layers: TopoLayers returns no error and its recursion ends. Each layer `i` holds,
-- sorted, exactly the nodes whose longest chain of prerequisites has length `i`.
pub topo_layers-IsLayering :
    (plan : FleetPlan)
    → validate_plan plan ≡ ok tt
    → (rank : Text → ℕ) × (layers : List (List Text)) × (topo_layers plan ≡ ok layers)
      × IsLayering plan.nodes rank layers
unfolding topo_layers layered plan_rank
topo_layers-IsLayering plan h =
    let g = accepted-IsGrounded plan h in
    let wf = grounded_wf plan g in
    let (depth, e, keeps, known) =
      compute_all-ranks (depends plan) (universe plan.nodes) wf (closed plan g)
        (length (universe plan.nodes)) (ids plan.nodes) 0 [] (ids-universe plan.nodes)
        (cost-nil-le (universe plan.nodes)) (λ k d q. absurd (unfold lookup in ground arith)) in
    let deepest =
      greatest (depends plan) (universe plan.nodes) wf (closed plan g) 0 (ids plan.nodes) in
    (
      plan_rank plan g,
      layered plan g deepest depth,
      rw (h, e),
      layered-IsLayering plan g ((validate_plan-ok_iff plan).0 h) deepest depth known (λ x m.
          rank-le-greatest (depends plan) (universe plan.nodes) wf (closed plan g) 0
            (ids plan.nodes) x m),
    )

-- A rank is below that of each node that needs it.
above-lt : (rank : Text → ℕ) (ds : List Text) (d : Text) → Memᴰ d ds → rank d < above rank ds
above-lt rank [] d m = elim m [ ]
above-lt rank (x ∷ ds) d (Memᴰ.head e) =
    subst (λ z. rank z < above rank (x ∷ ds)) (sym e) (omega arith)
above-lt rank (x ∷ ds) d (Memᴰ.tail m) = omega (arith, above-lt rank ds d m)

of_rank-mem :
    (rank : Text → ℕ) (i : ℕ) (xs : List Text) (k : Text)
    → Memᴰ k (of_rank rank i xs)
    → Memᴰ k xs × (rank k ≡ i)
unfolding of_rank
of_rank-mem rank i [] k m = elim m [ ]
of_rank-mem rank i (x ∷ xs) k m = elim (Bool-cases (rank x == i)) [
  | inl e ↦ split e (of_rank-mem rank i xs k) (rw e at m)
  | inr e ↦ let (at, r) = of_rank-mem rank i xs k (rw e at m) in (Memᴰ.tail at, r)
]
  where
    split :
        (rank x == i) ≡ true
        → (Memᴰ k (of_rank rank i xs) → Memᴰ k xs × (rank k ≡ i))
        → Memᴰ k (x ∷ of_rank rank i xs)
        → Memᴰ k (x ∷ xs) × (rank k ≡ i)
    split e ih (Memᴰ.head q) = (Memᴰ.head q, ap rank q ∙ (==_iff _ _).0 e)
    split e ih (Memᴰ.tail m) = let (at, r) = ih m in (Memᴰ.tail at, r)

mem-of_rank :
    (rank : Text → ℕ) (xs : List Text) (k : Text) → Memᴰ k xs → Memᴰ k (of_rank rank (rank k) xs)
unfolding of_rank
mem-of_rank rank [] k m = elim m [ ]
mem-of_rank rank (x ∷ xs) k (Memᴰ.head e) =
    rw ((==_iff (rank x) (rank k)).1 (ap rank (sym e)), of_rank) (Memᴰ.head e)
mem-of_rank rank (x ∷ xs) k (Memᴰ.tail m) = elim (Bool-cases (rank x == rank k)) [
  | inl e ↦ rw e (Memᴰ.tail (mem-of_rank rank xs k m))
  | inr e ↦ rw e (mem-of_rank rank xs k m)
]

module _ {nodes : List FleetNode} {rank : Text → ℕ} {layers : List (List Text)}
    (l : IsLayering nodes rank layers) where
  pub layer-rank : (i : ℕ) (k : Text) → Memᴰ k (layer i layers) → Memᴰ k (ids nodes) × (rank k ≡ i)
  layer-rank i k m =
      of_rank-mem rank i (ids nodes) k (sort-mem k _ (subst (Memᴰ k) (l.content i) m))

  pub rank-layer : (k : Text) → Memᴰ k (ids nodes) → Memᴰ k (layer (rank k) layers)
  rank-layer k m =
      subst (Memᴰ k) (sym (l.content (rank k))) (mem-sort k _ (mem-of_rank rank (ids nodes) k m))

  pub rank-lt : (n : FleetNode) (d : Text) → Memᴰ n nodes → Memᴰ d n.depends_on → rank d < rank n.id
  rank-lt n d at m = subst (λ r. rank d < r) (sym (l.ranks n at)) (above-lt rank n.depends_on d m)

-- What a run may rely on of the layers.
pub record IsTopological (nodes : List FleetNode) (layers : List (List Text)) : Type 0 where
  pub placed : (k : Text) → Memᴰ k (ids nodes) → (i : ℕ) × Memᴰ k (layer i layers)
  pub known : (i : ℕ) (k : Text) → Memᴰ k (layer i layers) → Memᴰ k (ids nodes)
  pub once : (i j : ℕ) (k : Text) → Memᴰ k (layer i layers) → Memᴰ k (layer j layers) → i ≡ j
  pub earlier :
      (n : FleetNode) (d : Text) (i : ℕ)
      → Memᴰ n nodes
      → Memᴰ d n.depends_on
      → Memᴰ n.id (layer i layers)
      → (j : ℕ) × (j < i) × Memᴰ d (layer j layers)
  pub sorted : (i : ℕ) → IsSorted (layer i layers)

-- Every plan that ValidatePlan accepts has layers such that each node stands in exactly one of
-- them, each of its dependencies in an earlier one, and each layer is in the order of sort.Strings.
pub topo_layers-IsTopological :
    (plan : FleetPlan)
    → validate_plan plan ≡ ok tt
    → (layers : List (List Text)) × (topo_layers plan ≡ ok layers) × IsTopological plan.nodes layers
topo_layers-IsTopological plan h =
    let (rank, layers, e, l) = topo_layers-IsLayering plan h in
    let w = (validate_plan-ok_iff plan).0 h in
    (
      layers,
      e,
      record {
        placed = λ k m. (rank k, rank-layer l k m);
        known = λ i k m. (layer-rank l i k m).0;
        once = λ i j k m m'. sym (layer-rank l i k m).1 ∙ (layer-rank l j k m').1;
        earlier = λ n d i at m here. (
          rank d,
          omega (arith, rank-lt l n d at m, (layer-rank l i n.id here).1),
          rank-layer l d (w.known n d at m),
        );
        sorted = λ i.
            subst IsSorted (sym (l.content i)) (sort-IsSorted (of_rank rank i (ids plan.nodes)));
      },
    )
