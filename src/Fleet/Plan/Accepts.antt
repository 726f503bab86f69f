-- ===== src/Fleet/Plan/Accepts.antt =====
-- `ValidatePlan` accepts exactly the plans that are well-formed.
use mathlib.Core.Path.{◌≡◌, refl, sym, ap, ◌∙◌, subst}
use mathlib.Core.Logic.{◌↔◌, ◌≢◌}
use mathlib.Core.Bool.{true, false, not}
use mathlib.Core.List.{List, [], ◌∷◌, Memᴰ}
use native.Mathlib.Omega.{arith}
use temporal_agents.Prelude.{Text, has→Memᴰ, Memᴰ→has, ok, ◌>>=◌, ◌>>◌, require, >>=-eq-ok}
use temporal_agents.Fleet.Search.{FleetNode, FleetPlan, ids, find_cycle, deps_of, or_nil}
use temporal_agents.Fleet.Search.Walks.{Reaches}
use temporal_agents.Fleet.Search.Table.{IsDistinct, depends, depends-Source, lookup-deps_from_self}
use temporal_agents.Fleet.Search.Verdict.{IsGrounded, find_cycle-IsGrounded, find_cycle-nil_iff}
use temporal_agents.Fleet.Plan.{
  PlanError, is_nil, check_nodes, check_edges, check_deps, validate_plan,
}
use temporal_agents.Fleet.Plan.WellFormed.{Follows, IsWellFormed}
use temporal_agents.Fleet.Plan.NodeChecks.{
  AllPass, collected, is_nil-false, require-ok, check_nodes-AllPass, AllPass-check_nodes,
  AllPass-of, collected-of_ids, collected-ids, AllPass-IsDistinct, Passes-of_mem,
}

-- The second loop.
abbrev EdgesPass : List Text → Text → List Text → Type 0
EdgesPass seen id deps = (d : Text) → Memᴰ d deps → (d ≢ id) × Memᴰ d seen

abbrev DepsPass : List Text → List FleetNode → Type 0
DepsPass seen ns = (n : FleetNode) → Memᴰ n ns → EdgesPass seen n.id n.depends_on

check_edges-EdgesPass :
    (seen : List Text) (id : Text) (deps : List Text)
    → check_edges seen id deps ≡ ok tt
    → EdgesPass seen id deps
unfolding check_edges
check_edges-EdgesPass seen id [] h d m = elim m [ ]
check_edges-EdgesPass seen id (x ∷ deps) h d (Memᴰ.head e) =
    subst (λ z. (z ≢ id) × Memᴰ z seen) (sym e)
      (λ same. ground arith, has→Memᴰ x seen (ground arith))
check_edges-EdgesPass seen id (x ∷ deps) h d (Memᴰ.tail m) =
    check_edges-EdgesPass seen id deps (ground arith) d m

EdgesPass-check_edges :
    (seen : List Text) (id : Text) (deps : List Text)
    → EdgesPass seen id deps
    → check_edges seen id deps ≡ ok tt
unfolding check_edges
EdgesPass-check_edges seen id [] p = refl
EdgesPass-check_edges seen id (x ∷ deps) p =
    let (other, known) = p x (Memᴰ.head refl) in
    ground (
      arith,
      other,
      Memᴰ→has x seen known,
      EdgesPass-check_edges seen id deps (λ d m. p d (Memᴰ.tail m)),
    )

check_deps-DepsPass :
    (seen : List Text) (ns : List FleetNode) → check_deps seen ns ≡ ok tt → DepsPass seen ns
unfolding check_deps
check_deps-DepsPass seen [] h n m = elim m [ ]
check_deps-DepsPass seen (x ∷ ns) h n m =
    let (u, first, later) =
      >>=-eq-ok (check_edges seen x.id x.depends_on) (λ _. check_deps seen ns) h in
    split first (check_deps-DepsPass seen ns later) m
  where
    split :
        check_edges seen x.id x.depends_on ≡ ok tt
        → DepsPass seen ns
        → Memᴰ n (x ∷ ns)
        → EdgesPass seen n.id n.depends_on
    split first later (Memᴰ.head e) =
        subst (λ z. EdgesPass seen z.id z.depends_on) (sym e)
          (check_edges-EdgesPass seen x.id x.depends_on first)
    split first later (Memᴰ.tail k) = later n k

DepsPass-check_deps :
    (seen : List Text) (ns : List FleetNode) → DepsPass seen ns → check_deps seen ns ≡ ok tt
unfolding check_deps
DepsPass-check_deps seen [] p = refl
DepsPass-check_deps seen (n ∷ ns) p =
    rw (EdgesPass-check_edges seen n.id n.depends_on (p n (Memᴰ.head refl)))
      (DepsPass-check_deps seen ns (λ x m. p x (Memᴰ.tail m)))

-- The dependencies that the search follows are those that the nodes state.
module _ (plan : FleetPlan) where
  Reaches-Follows : (a b : Text) → Reaches (depends plan) a b → Follows plan.nodes a b
  Reaches-Follows a b (Reaches.direct m) =
      let (n, at, e, d) = depends-Source plan a b m in Follows.direct n at e d
  Reaches-Follows a c (Reaches.onward {b = b} m r) =
      let (n, at, e, d) = depends-Source plan a b m in
      Follows.onward n at e d (Reaches-Follows b c r)

  pub depends-of_node :
      (n : FleetNode)
      → IsDistinct (ids plan.nodes)
      → Memᴰ n plan.nodes
      → depends plan n.id ≡ n.depends_on
  unfolding deps_of
  depends-of_node n distinct at = ap or_nil (lookup-deps_from_self n [] plan.nodes distinct at)

  follow :
      (n : FleetNode) (a b : Text)
      → IsDistinct (ids plan.nodes)
      → Memᴰ n plan.nodes
      → n.id ≡ a
      → Memᴰ b n.depends_on
      → Memᴰ b (depends plan a)
  follow n a b distinct at e m =
      subst (Memᴰ b) (sym (depends-of_node n distinct at) ∙ ap (depends plan) e) m

  Follows-Reaches :
      (a b : Text)
      → IsDistinct (ids plan.nodes)
      → Follows plan.nodes a b
      → Reaches (depends plan) a b
  Follows-Reaches a b distinct (Follows.direct n at e m) =
      Reaches.direct (follow n a b distinct at e m)
  Follows-Reaches a c distinct (Follows.onward n {b = b} at e m r) =
      Reaches.onward (follow n a b distinct at e m) (Follows-Reaches b c distinct r)

  accepted-IsWellFormed : validate_plan plan ≡ ok tt → IsWellFormed plan.nodes
  unfolding validate_plan
  accepted-IsWellFormed h =
      let nodes = plan.nodes in
      let no_cycle = λ (seen : List Text).
        require (is_nil (find_cycle plan)) (PlanError.has_cycle (find_cycle plan)) in
      let (u, some_node, h₁) =
        >>=-eq-ok (require (not (is_nil nodes)) PlanError.no_nodes)
          (λ _. check_nodes [] nodes >>= λ seen. check_deps seen nodes >> no_cycle seen) h in
      let (seen, passed, h₂) =
        >>=-eq-ok (check_nodes [] nodes) (λ seen. check_deps seen nodes >> no_cycle seen) h₁ in
      let (v, edges, h₃) = >>=-eq-ok (check_deps seen nodes) (λ _. no_cycle seen) h₂ in
      conclude seen some_node passed edges (require-ok _ (PlanError.has_cycle (find_cycle plan)) h₃)
    where
      conclude :
          (seen : List Text)
          → require (not (is_nil plan.nodes)) PlanError.no_nodes ≡ ok tt
          → check_nodes [] plan.nodes ≡ ok seen
          → check_deps seen plan.nodes ≡ ok tt
          → is_nil (find_cycle plan) ≡ true
          → IsWellFormed plan.nodes
      conclude seen some_node passed edges free =
          let (all, e) = check_nodes-AllPass [] plan.nodes passed in
          record {
            some_node = is_nil-false plan.nodes (require-ok _ PlanError.no_nodes some_node);
            not_blank = λ n m. (Passes-of_mem [] plan.nodes n all m).1.not_blank;
            slugs = λ n m. (Passes-of_mem [] plan.nodes n all m).1.slug;
            prompted = λ n m. (Passes-of_mem [] plan.nodes n all m).1.prompted;
            distinct = AllPass-IsDistinct [] plan.nodes all;
            known = λ n d m k.
                collected-ids d plan.nodes
                  (subst (Memᴰ d) e (check_deps-DepsPass seen plan.nodes edges n m d k).1);
            acyclic = λ a f.
                (find_cycle-nil_iff plan).0 (ground arith) a
                  (Follows-Reaches a a (AllPass-IsDistinct [] plan.nodes all) f);
          }

  IsWellFormed-accepted : IsWellFormed plan.nodes → validate_plan plan ≡ ok tt
  unfolding validate_plan
  IsWellFormed-accepted w = rw (
    nonempty plan.nodes w.some_node,
    AllPass-check_nodes [] plan.nodes passes,
    DepsPass-check_deps _ plan.nodes edges,
    free,
  )
    where
      nonempty : (xs : List FleetNode) → xs ≢ [] → is_nil xs ≡ false
      nonempty xs h = ground arith

      passes : AllPass [] plan.nodes
      passes =
          AllPass-of [] plan.nodes (λ n m. (w.not_blank n m, w.slugs n m, w.prompted n m))
            w.distinct (λ k m. elim m [ ])

      edges : DepsPass (collected [] plan.nodes) plan.nodes
      edges n m d k = (
        λ e. w.acyclic n.id (Follows.direct n m refl (subst (λ z. Memᴰ z n.depends_on) e k)),
        collected-of_ids d [] plan.nodes (w.known n d m k),
      )

      free : find_cycle plan ≡ []
      free = (find_cycle-nil_iff plan).1 (λ a r. w.acyclic a (Reaches-Follows a a r))

-- ValidatePlan returns nil exactly for a plan that has a node, whose identities are slugs, not blank and distinct,
-- whose prompts are not blank, whose dependencies are nodes of the plan, and in which no node is
-- its own direct or indirect prerequisite.
pub validate_plan-ok_iff :
    (plan : FleetPlan) → (validate_plan plan ≡ ok tt) ↔ IsWellFormed plan.nodes
validate_plan-ok_iff plan = (accepted-IsWellFormed plan, IsWellFormed-accepted plan)

pub accepted-IsGrounded : (plan : FleetPlan) → validate_plan plan ≡ ok tt → IsGrounded plan
accepted-IsGrounded plan h = find_cycle-IsGrounded plan (
    (find_cycle-nil_iff plan).1
      (λ a r. (accepted-IsWellFormed plan h).acyclic a (Reaches-Follows plan a a r)))
