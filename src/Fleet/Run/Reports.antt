-- ===== src/Fleet/Run/Reports.antt =====
-- A whole run: the order in which its nodes have settled, by what has become of them.
use Prim.Native.Nat.{ℕ, suc, zero, ◌<◌}
use mathlib.Core.Path.{◌≡◌, refl, sym, ap, ◌∙◌}
use mathlib.Core.Bool.{Bool, true, false, not}
use mathlib.Core.List.{List, [], ◌∷◌, ◌++◌, Memᴰ}
use mathlib.Core.Option.{Option, none, some}
use native.Mathlib.Omega.{arith}
use temporal_agents.Prelude.{Text, Map, if◌then◌else◌}
use temporal_agents.Fleet.Layers.Filling.{layer}
use temporal_agents.Fleet.Run.{
  NodeResult, NodeStatus, skipped, ChildOutcome, completed, failure, is_recoverable, Progress,
  RunContext, node_of, blocking_dependency, child_outcome, settled, skipped_result, run_layer,
  run_layers,
}
use temporal_agents.Fleet.Run.Layer.{blocking_dependency-ext, decided}
use temporal_agents.Fleet.Run.Gating.{Ranked, Decides, run_layers-Decides, Ranked-of}
use temporal_agents.Fleet.Run.Ordering.{
  keep_if, keep_if-ext, was_skipped, settling_order, is_some, append_comes, append_nil,
  run_layer-order,
}

abbrev skipped_status : NodeResult → Bool
skipped_status r = elim r.status [ skipped ↦ true | _ ↦ false ]

abbrev found_skipped : Option NodeResult → Bool
found_skipped none = false
found_skipped (some r) = skipped_status r

settled_status : (id : Text) (c : ChildOutcome) → skipped_status (settled id c) ≡ false
unfolding settled
settled_status id (completed out) = refl
settled_status id (failure type message) = recovers (is_recoverable type)
  where
    recovers :
        (b : Bool)
        → skipped_status (record {
          id = id;
          status = if b then NodeStatus.blocked else NodeStatus.failed;
          detail = message;
          tokens = 0;
        })
          ≡ false
    recovers true = refl
    recovers false = refl

decided_status :
    (run : RunContext) (o : Option Text) (id : Text) → skipped_status (decided run o id) ≡ is_some o
unfolding skipped_result
decided_status run (some b) id = refl
decided_status run none id = settled_status id (child_outcome run id)

module _ (run : RunContext) (rank : Text → ℕ)
    (below : (k d : Text) → Memᴰ d (node_of run k).depends_on → rank d < rank k) where
  -- A node that the results before its layer block is one that the final results call skipped.
  blocked_skipped :
      (i : ℕ) (l : List Text) (ls : List (List Text)) (m m' : Map NodeResult)
      → ((k : Text) → Memᴰ k l → rank k ≡ i)
      → Decides run rank below i (l ∷ ls) m m'
      → (k : Text) → Memᴰ k l
      → is_some (blocking_dependency (node_of run k) m) ≡ was_skipped m' k
  blocked_skipped i l ls m m' ranked d k at =
      ap is_some (
        blocking_dependency-ext (node_of run k) m m'
          (λ x e. sym (d.keeps x (omega (arith, below k x e, ranked k at)))))
      ∙ sym (decided_status run (blocking_dependency (node_of run k) m') k)
      ∙ ap found_skipped (sym (d.decides zero k at))

  layer_apart :
      (i : ℕ) (l : List Text)
      → ((k : Text) → Memᴰ k l → rank k ≡ i)
      → (k d : Text) → Memᴰ k l
      → Memᴰ d (node_of run k).depends_on
      → ¬ Memᴰ d l
  layer_apart i l ranked k d at h there =
      absurd (omega (arith, below k d h, ranked k at, ranked d there))

  run_layers-settling :
      (i : ℕ) (ls : List (List Text)) (p : Progress)
      → Ranked run rank below i ls
      → (run_layers run ls p).order ≡ p.order ++ settling_order (run_layers run ls p).results ls
  unfolding run_layers settling_order
  run_layers-settling i [] p ranked = sym (append_nil p.order)
  run_layers-settling i (l ∷ ls) p ranked =
      let final = (run_layers run ls (run_layer run l p)).results in
      let d : Decides run rank below i (l ∷ ls) p.results final =
        run_layers-Decides run rank below i (l ∷ ls) p ranked in
      let same = blocked_skipped i l ls p.results final ranked.0 d in
      let ran = keep_if (λ k. not (was_skipped final k)) l in
      run_layers-settling (suc i) ls (run_layer run l p) ranked.1
      ∙ ap (λ o. o ++ settling_order final ls)
          (run_layer-order run l p.results (layer_apart i l ranked.0) p refl)
      ∙ ap (λ x. (p.order ++ x) ++ settling_order final ls)
          (ap
              (λ x.
                x ++ keep_if (λ k. not (is_some (blocking_dependency (node_of run k) p.results))) l)
              (keep_if-ext _ _ l same)
            ∙ ap (λ x. keep_if (was_skipped final) l ++ x)
                (keep_if-ext _ _ l (λ k m. ap not (same k m))))
      ∙ append_comes p.order (keep_if (was_skipped final) l ++ ran) (settling_order final ls)
      ∙ ap (λ x. p.order ++ x)
          (append_comes (keep_if (was_skipped final) l) ran (settling_order final ls))

  -- A run settles its nodes layer by layer, in each layer those that are skipped first.
  pub run_layers-settles :
      (ls : List (List Text)) (p : Progress)
      → ((j : ℕ) (k : Text) → Memᴰ k (layer j ls) → rank k ≡ j)
      → (run_layers run ls p).order ≡ p.order ++ settling_order (run_layers run ls p).results ls
  run_layers-settles ls p h =
      run_layers-settling 0 ls p (Ranked-of run rank below 0 ls (λ j k m. omega (arith, h j k m)))
