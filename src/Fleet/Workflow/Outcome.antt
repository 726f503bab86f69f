-- ===== src/Fleet/Workflow/Outcome.antt =====
-- What a fleet run comes to, for every node of a valid plan.
use Prim.Native.Nat.{ℕ, ◌<◌}
use mathlib.Core.Path.{◌≡◌, refl, sym, ap, ◌∙◌, subst}
use mathlib.Core.Logic.{◌≢◌}
use mathlib.Core.List.Memᴰ
use mathlib.Core.List.{List, [], ◌∷◌, Memᴰ, map}
use mathlib.Core.Option.{none, some}
use temporal_agents.Prelude.{Text, Map, lookup, ok}
use temporal_agents.Fleet.Search.{FleetNode}
use temporal_agents.Fleet.Plan.{validate_plan}
use temporal_agents.Fleet.Plan.WellFormed.{IsWellFormed}
use temporal_agents.Fleet.Plan.Accepts.{validate_plan-ok_iff}
use temporal_agents.Fleet.Layers.{topo_layers}
use temporal_agents.Fleet.Layers.Order.{
  IsLayering, topo_layers-IsLayering, layer-rank, rank-layer, rank-lt,
}
use temporal_agents.Fleet.Run.{
  NodeResult, FleetInput, RunContext, node_of, settled, skipped_result, child_outcome, run_layers,
}
use temporal_agents.Fleet.Run.Layer.{verdict, decided}
use temporal_agents.Fleet.Run.Gating.{run_layers-decides}
use temporal_agents.Fleet.Run.Ordering.{settling_order}
use temporal_agents.Fleet.Run.Reports.{run_layers-settles}
use temporal_agents.Fleet.Run.Blockers.{
  Succeeded, blocking_dependency-none, blocking_dependency-some, node_of-id, node_of-depends,
}
use temporal_agents.Fleet.Workflow.{
  Environment, ordered, or_zero_result, no_progress, run_context, finish, run_checked,
  fleet_workflow,
}

-- How the results of a run hang together: a node runs exactly when each of its dependencies
-- succeeded, and its result is then that of its child. Any other node is skipped, and names a
-- dependency of its own that did not succeed.
pub record IsGated (run : RunContext) (results : Map NodeResult) : Type 0 where
  pub ran :
      (n : FleetNode)
      → Memᴰ n run.input.plan.nodes
      → ((d : Text) → Memᴰ d n.depends_on → Succeeded results d)
      → lookup n.id results ≡ some (settled n.id (child_outcome run n.id))
  pub skipped :
      (n : FleetNode) (d : Text)
      → Memᴰ n run.input.plan.nodes
      → Memᴰ d n.depends_on
      → ¬ Succeeded results d
      → (b : Text) × Memᴰ b n.depends_on
        × (¬ Succeeded results b)
        × (lookup n.id results ≡ some (skipped_result n.id b))

module _ (run : RunContext) (w : IsWellFormed run.input.plan.nodes) {rank : Text → ℕ}
    {layers : List (List Text)} (l : IsLayering run.input.plan.nodes rank layers) where
  below : (k d : Text) → Memᴰ d (node_of run k).depends_on → rank d < rank k
  below k d m =
      let (n, at, e, h) = node_of-depends run k d m in
      subst (λ z. rank d < rank z) e (rank-lt l n d at h)

  final : Map NodeResult
  final = (run_layers run layers no_progress).results

  decided_final :
      (n : FleetNode)
      → Memᴰ n run.input.plan.nodes
      → lookup n.id final ≡ some (verdict run final n.id)
  unfolding final
  decided_final n at =
      run_layers-decides run rank below layers no_progress (λ j k m. (layer-rank l j k m).1)
        (rank n.id) n.id (rank-layer l n.id (Memᴰ.map (λ n. n.id) at))

  run_layers-IsGated : IsGated run (run_layers run layers no_progress).results
  unfolding final
  run_layers-IsGated = record { ran = ran; skipped = skipped }
    where
      ran :
          (n : FleetNode)
          → Memᴰ n run.input.plan.nodes
          → ((d : Text) → Memᴰ d n.depends_on → Succeeded final d)
          → lookup n.id final ≡ some (settled n.id (child_outcome run n.id))
      ran n at h =
          decided_final n at
          ∙ ap (λ o. some (decided run o n.id))
              (blocking_dependency-none (node_of run n.id) final (
                subst (λ z. (d : Text) → Memᴰ d z.depends_on → Succeeded final d)
                  (sym (node_of-id run n w.distinct at)) h))

      skipped :
          (n : FleetNode) (d : Text)
          → Memᴰ n run.input.plan.nodes
          → Memᴰ d n.depends_on
          → ¬ Succeeded final d
          → (b : Text) × Memᴰ b n.depends_on
            × (¬ Succeeded final b)
            × (lookup n.id final ≡ some (skipped_result n.id b))
      skipped n d at m h =
          let self = node_of-id run n w.distinct at in
          let (b, e, k, fails) =
            blocking_dependency-some (node_of run n.id) final d
              (subst (λ z. Memᴰ d z.depends_on) (sym self) m) h in
          (
            b,
            subst (λ z. Memᴰ b z.depends_on) self k,
            fails,
            decided_final n at ∙ ap (λ o. some (decided run o n.id)) e,
          )

-- What a node reports: its result, under its own id.
abbrev pub reported : Map NodeResult → List Text → List NodeResult
reported results ids = map (λ id. or_zero_result (lookup id results)) ids

-- A run with a record, a worktrees directory, a base commit and a valid plan goes through the plan's layers to the end, whatever its children do. Its results are gated by the dependencies. It reports the result of every node of every layer, once for each time that the node stands there, layer by layer in the order of the layers, and in each layer first those that were skipped and then those that ran, both in the layer's order. It ends with an error exactly if it was cancelled, and otherwise with these results.
pub fleet_workflow-IsGated :
    (env : Environment) (input : FleetInput) (base : Text)
    → env.record_error ≡ none
    → input.worktrees_dir ≢ []
    → env.base ≡ ok base
    → validate_plan input.plan ≡ ok tt
    → (layers : List (List Text)) × (topo_layers input.plan ≡ ok layers)
      × ((results : Map NodeResult) × IsGated (run_context env input base) results
          × (fleet_workflow env input
              ≡ finish env.cancelled (reported results (settling_order results layers))))
unfolding fleet_workflow ordered
fleet_workflow-IsGated env input base recorded dir based valid =
    let (rank, layers, e, l) = topo_layers-IsLayering input.plan valid in
    let w = (validate_plan-ok_iff input.plan).0 valid in
    let run = run_context env input base in
    let p = run_layers run layers no_progress in
    (
      layers,
      e,
      (
        p.results,
        run_layers-IsGated run w l,
        rw recorded (nonempty input.worktrees_dir dir layers e)
            ∙ ap (λ ids. finish env.cancelled (reported p.results ids))
                (run_layers-settles run rank (below run w l) layers no_progress
                  (λ j k m. (layer-rank l j k m).1)),
      ),
    )
  where
    nonempty :
        (d : Text)
        → d ≢ []
        → (layers : List (List Text)) → topo_layers input.plan ≡ ok layers
        → run_checked env input d
          ≡ finish env.cancelled
              (ordered (run_layers (run_context env input base) layers no_progress))
    nonempty [] h layers e = absurd (h refl)
    nonempty (c ∷ cs) h layers e = rw (e, based) refl
