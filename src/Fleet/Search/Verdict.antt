-- ===== src/Fleet/Search/Verdict.antt =====
-- The verdict of `findCycle` on a whole plan.
use Prim.Native.Nat.{◌≤◌}
use mathlib.Core.Path.{◌≡◌, refl, sym, ◌∙◌, subst}
use mathlib.Core.Logic.{◌↔◌, ◌⊎◌, inl, inr, ◌≢◌}
use mathlib.Core.List.Memᴰ
use mathlib.Core.List.{List, [], ◌∷◌, ◌++◌, Memᴰ}
use mathlib.Core.WellFounded.{Acc}
use native.Mathlib.Omega.{arith}
use temporal_agents.Prelude.{Text, lit, length, join, lookup, count_if}
use temporal_agents.Fleet.Search.{
  FleetNode, FleetPlan, Color, Search, color_of, Visit, clear, cycle, exhausted, ids, universe,
  search_plan, find_cycle, rendered,
}
use temporal_agents.Fleet.Search.Walks.{Reaches, IsCycle, NeededBy, Acc-acyclic, IsCycle-Reaches}
use temporal_agents.Fleet.Search.Colors.{Fits, whites}
use temporal_agents.Fleet.Search.Correct.{Loop, visit_all-Fits}
use temporal_agents.Fleet.Search.Table.{depends, depends-Source, ids-universe, deps-universe}

abbrev start : Search
start = record { color = []; stack = [] }

whites-start : (xs : List Text) → whites xs start ≤ length xs
unfolding whites color_of count_if lookup
whites-start [] = omega arith
whites-start (x ∷ xs) = ground (arith, whites-start xs)

start-Loop :
    (plan : FleetPlan)
    → Loop
        (depends plan)
        (universe plan.nodes)
        (length (universe plan.nodes))
        (ids plan.nodes)
        start
start-Loop plan = record {
  inv = record { safe = λ d h. never d h; listed = λ d h. never_gray d h };
  walks = λ d m. tt;
  within = λ d m. ids-universe plan.nodes d m;
  paid = whites-start (universe plan.nodes);
}
  where
    never : (d : Text) → color_of start d ≡ Color.black → Acc (NeededBy (depends plan)) d
    never d h = absurd (unfold color_of lookup in ground arith)

    never_gray : (d : Text) → color_of start d ≡ Color.gray → Memᴰ d []
    never_gray d h = absurd (unfold color_of lookup in ground arith)

search_plan-Fits :
    (plan : FleetPlan) → Fits (depends plan) start (ids plan.nodes) (search_plan plan)
unfolding search_plan
search_plan-Fits plan =
    visit_all-Fits (depends plan) (universe plan.nodes)
      (λ a d m. let (n, at, e, h) = depends-Source plan a d m in deps-universe plan.nodes n d at h)
      (length (universe plan.nodes)) (ids plan.nodes) start refl (start-Loop plan)

-- The fuel is enough: the search of any plan ends.
pub search_plan-ne-exhausted : (plan : FleetPlan) → search_plan plan ≢ exhausted
search_plan-ne-exhausted plan e =
    subst (Fits (depends plan) start (ids plan.nodes)) e (search_plan-Fits plan)

join-ne-nil :
    (path : List Text) (deps : Text → List Text) → IsCycle deps path → join (lit " -> ") path ≢ []
unfolding join
join-ne-nil path deps (a, between, e, w) h =
    joined a between (subst (λ p. join (lit " -> ") p ≡ []) e h)
  where
    joined : (a : Text) (between : List Text) → join (lit " -> ") ((a ∷ between) ++ a ∷ []) ≡ [] → ⊥
    joined [] [] h = cc
    joined [] (b ∷ bs) h = cc
    joined (x ∷ xs) [] h = cc
    joined (x ∷ xs) (b ∷ bs) h = cc

-- Every node of the plan is accessible along its dependencies.
abbrev pub IsGrounded : FleetPlan → Type 0
IsGrounded plan = (a : Text) → Memᴰ a (ids plan.nodes) → Acc (NeededBy (depends plan)) a

-- A text renders a cycle of the plan.
abbrev pub RendersCycle : FleetPlan → Text → Type 0
RendersCycle plan t =
    (path : List Text) × IsCycle (depends plan) path × (t ≡ join (lit " -> ") path)

abbrev Verdict : FleetPlan → Text → Type 0
Verdict plan t = ((t ≡ []) × IsGrounded plan) ⊎ RendersCycle plan t

find_cycle-Verdict : (plan : FleetPlan) → Verdict plan (find_cycle plan)
unfolding find_cycle
find_cycle-Verdict plan = judge (search_plan plan) (search_plan-Fits plan)
  where
    judge : (r : Visit) → Fits (depends plan) start (ids plan.nodes) r → Verdict plan (rendered r)
    judge (clear s) c = inl (refl, λ a m. c.inv.safe a (c.finished a m))
    judge (cycle path) c = inr (path, c, refl)
    judge exhausted c = absurd c

-- No walk of the plan leads back to where it began.
abbrev pub IsAcyclic : FleetPlan → Type 0
IsAcyclic plan = (a : Text) → ¬ Reaches (depends plan) a a

pub find_cycle-IsGrounded : (plan : FleetPlan) → find_cycle plan ≡ [] → IsGrounded plan
find_cycle-IsGrounded plan h = elim (find_cycle-Verdict plan) [
  | inl (e, g) ↦ g
  | inr (path, c, e) ↦ absurd (join-ne-nil path (depends plan) c (sym e ∙ h))
]

-- A walk leaves only nodes of the plan.
leaves : (plan : FleetPlan) (a b : Text) → Reaches (depends plan) a b → Memᴰ a (ids plan.nodes)
leaves plan a b (Reaches.direct m) = from_source (depends-Source plan a b m)
  where
    from_source :
        (n : FleetNode) × Memᴰ n plan.nodes × (n.id ≡ a) × Memᴰ b n.depends_on
        → Memᴰ a (ids plan.nodes)
    from_source (n, at, e, h) = subst (λ k. Memᴰ k (ids plan.nodes)) e (Memᴰ.map (λ n. n.id) at)
leaves plan a c (Reaches.onward {b = b} m r) = from_source (depends-Source plan a b m)
  where
    from_source :
        (n : FleetNode) × Memᴰ n plan.nodes × (n.id ≡ a) × Memᴰ b n.depends_on
        → Memᴰ a (ids plan.nodes)
    from_source (n, at, e, h) = subst (λ k. Memᴰ k (ids plan.nodes)) e (Memᴰ.map (λ n. n.id) at)

pub IsGrounded-IsAcyclic : (plan : FleetPlan) → IsGrounded plan → IsAcyclic plan
IsGrounded-IsAcyclic plan g a r = Acc-acyclic (depends plan) a (g a (leaves plan a a r)) r

-- findCycle returns "" exactly for a plan whose dependency graph has no cycle.
pub find_cycle-nil_iff : (plan : FleetPlan) → (find_cycle plan ≡ []) ↔ IsAcyclic plan
find_cycle-nil_iff plan = (
  λ h. IsGrounded-IsAcyclic plan (find_cycle-IsGrounded plan h),
  λ free. elim (find_cycle-Verdict plan) [
    | inl (e, g) ↦ e
    | inr (path, c, e) ↦ let (a, r) = IsCycle-Reaches (depends plan) path c in absurd (free a r)
  ],
)

-- What findCycle returns for any other plan is a walk along dependencies that ends where it began,
-- its members joined by " -> ".
pub find_cycle-RendersCycle :
    (plan : FleetPlan) → find_cycle plan ≢ [] → RendersCycle plan (find_cycle plan)
find_cycle-RendersCycle plan h = elim (find_cycle-Verdict plan) [
  | inl (e, g) ↦ absurd (h e)
  | inr r ↦ r
]
