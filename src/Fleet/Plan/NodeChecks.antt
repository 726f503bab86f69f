-- ===== src/Fleet/Plan/NodeChecks.antt =====
-- The first loop of `ValidatePlan`: what its checks say of the nodes.
use mathlib.Core.Path.{◌≡◌, refl, sym, subst}
use mathlib.Core.Logic.{◌⊎◌, inl, inr, ◌≢◌}
use mathlib.Core.Bool.{Bool, true, false, not}
use mathlib.Core.List.{List, [], ◌∷◌, Memᴰ}
use native.Mathlib.Omega.{arith}
use temporal_agents.Prelude.{
  Text, has, has→Memᴰ, Memᴰ→has, ok, require, >>=-eq-ok, trim_space, Bool-cases,
}
use temporal_agents.Fleet.Search.{FleetNode, ids}
use temporal_agents.Fleet.Search.Table.{IsDistinct}
use temporal_agents.Fleet.Plan.{is_nil, is_slug, check_node, check_nodes}

pub is_nil-false : {A : Type 0} (xs : List A) → not (is_nil xs) ≡ true → xs ≢ []
is_nil-false xs h e = ground arith

pub require-ok : {E : Type 0} (b : Bool) (e : E) → require b e ≡ ok tt → b ≡ true
require-ok true e h = refl
require-ok false e h = cc

-- What the checks of one node say.
pub record Passes (seen : List Text) (n : FleetNode) : Type 0 where
  pub not_blank : trim_space n.id ≢ []
  pub slug : is_slug n.id ≡ true
  pub fresh : ¬ Memᴰ n.id seen
  pub prompted : trim_space n.prompt ≢ []

absent_of_not : (k : Text) (xs : List Text) → not (has k xs) ≡ true → ¬ Memᴰ k xs
absent_of_not k xs h m = ground (arith, Memᴰ→has k xs m)

not_of_absent : (k : Text) (xs : List Text) → ¬ Memᴰ k xs → not (has k xs) ≡ true
not_of_absent k xs h = elim (Bool-cases (has k xs)) [
  | inl e ↦ absurd (h (has→Memᴰ k xs e))
  | inr e ↦ rw e
]

check_node-Passes : (seen : List Text) (n : FleetNode) → check_node seen n ≡ ok tt → Passes seen n
unfolding check_node
check_node-Passes seen n h = record {
  not_blank = ground arith;
  slug = ground arith;
  fresh = absent_of_not n.id seen (ground arith);
  prompted = ground arith;
}

Passes-check_node : (seen : List Text) (n : FleetNode) → Passes seen n → check_node seen n ≡ ok tt
unfolding check_node
Passes-check_node seen n p = ground (arith, not_of_absent n.id seen p.fresh)

-- The first loop over all nodes.
abbrev pub AllPass : List Text → List FleetNode → Type 0
AllPass seen [] = Unit {0}
AllPass seen (n ∷ ns) = Passes seen n × AllPass (n.id ∷ seen) ns

abbrev pub collected : List Text → List FleetNode → List Text
collected seen [] = seen
collected seen (n ∷ ns) = collected (n.id ∷ seen) ns

pub check_nodes-AllPass :
    (seen : List Text) (ns : List FleetNode) {r : List Text}
    → check_nodes seen ns ≡ ok r
    → AllPass seen ns × (r ≡ collected seen ns)
unfolding check_nodes
check_nodes-AllPass seen [] h = (tt, cc)
check_nodes-AllPass seen (n ∷ ns) {r} h =
    let (u, passed, later) = >>=-eq-ok (check_node seen n) (λ _. check_nodes (n.id ∷ seen) ns) h in
    let (all, e) = check_nodes-AllPass (n.id ∷ seen) ns later in
    ((check_node-Passes seen n passed, all), e)

pub AllPass-check_nodes :
    (seen : List Text) (ns : List FleetNode)
    → AllPass seen ns
    → check_nodes seen ns ≡ ok (collected seen ns)
unfolding check_nodes
AllPass-check_nodes seen [] p = refl
AllPass-check_nodes seen (n ∷ ns) p =
    rw (Passes-check_node seen n p.0) (AllPass-check_nodes (n.id ∷ seen) ns p.1)

collected-of_seen :
    (k : Text) (seen : List Text) (ns : List FleetNode) → Memᴰ k seen → Memᴰ k (collected seen ns)
collected-of_seen k seen [] m = m
collected-of_seen k seen (n ∷ ns) m = collected-of_seen k (n.id ∷ seen) ns (Memᴰ.tail m)

pub collected-of_ids :
    (k : Text) (seen : List Text) (ns : List FleetNode)
    → Memᴰ k (ids ns)
    → Memᴰ k (collected seen ns)
collected-of_ids k seen [] m = elim m [ ]
collected-of_ids k seen (n ∷ ns) (Memᴰ.head e) = collected-of_seen k (n.id ∷ seen) ns (Memᴰ.head e)
collected-of_ids k seen (n ∷ ns) (Memᴰ.tail m) = collected-of_ids k (n.id ∷ seen) ns m

ids-or_seen :
    (k : Text) (seen : List Text) (ns : List FleetNode)
    → Memᴰ k (collected seen ns)
    → Memᴰ k seen ⊎ Memᴰ k (ids ns)
ids-or_seen k seen [] m = inl m
ids-or_seen k seen (n ∷ ns) m = elim (ids-or_seen k (n.id ∷ seen) ns m) [
  | inl (Memᴰ.head e) ↦ inr (Memᴰ.head e)
  | inl (Memᴰ.tail k) ↦ inl k
  | inr k ↦ inr (Memᴰ.tail k)
]

pub collected-ids : (k : Text) (ns : List FleetNode) → Memᴰ k (collected [] ns) → Memᴰ k (ids ns)
collected-ids k ns m = elim (ids-or_seen k [] ns m) [ inl h ↦ absurd (nothing h) | inr h ↦ h ]
  where
    nothing : Memᴰ k [] → ⊥
    nothing h = elim h [ ]

AllPass-fresh :
    (k : Text) (seen : List Text) (ns : List FleetNode)
    → AllPass seen ns
    → Memᴰ k seen
    → ¬ Memᴰ k (ids ns)
AllPass-fresh k seen [] p m h = elim h [ ]
AllPass-fresh k seen (n ∷ ns) p m (Memᴰ.head e) = p.0.fresh (subst (λ z. Memᴰ z seen) e m)
AllPass-fresh k seen (n ∷ ns) p m (Memᴰ.tail h) =
    AllPass-fresh k (n.id ∷ seen) ns p.1 (Memᴰ.tail m) h

pub AllPass-IsDistinct :
    (seen : List Text) (ns : List FleetNode) → AllPass seen ns → IsDistinct (ids ns)
AllPass-IsDistinct seen [] p = tt
AllPass-IsDistinct seen (n ∷ ns) p = (
  AllPass-fresh n.id (n.id ∷ seen) ns p.1 (Memᴰ.head refl),
  AllPass-IsDistinct (n.id ∷ seen) ns p.1,
)

pub Passes-of_mem :
    (seen : List Text) (ns : List FleetNode) (n : FleetNode)
    → AllPass seen ns
    → Memᴰ n ns
    → (seen' : List Text) × Passes seen' n
Passes-of_mem seen [] n p m = elim m [ ]
Passes-of_mem seen (x ∷ ns) n p (Memᴰ.head e) = (seen, subst (Passes seen) (sym e) p.0)
Passes-of_mem seen (x ∷ ns) n p (Memᴰ.tail m) = Passes-of_mem (x.id ∷ seen) ns n p.1 m

-- The other way: facts about every node, and identities that are distinct and new.
pub AllPass-of :
    (seen : List Text) (ns : List FleetNode)
    → ((n : FleetNode)
        → Memᴰ n ns
        → (trim_space n.id ≢ []) × (is_slug n.id ≡ true) × (trim_space n.prompt ≢ []))
    → IsDistinct (ids ns)
    → ((k : Text) → Memᴰ k seen → ¬ Memᴰ k (ids ns))
    → AllPass seen ns
AllPass-of seen [] facts d new = tt
AllPass-of seen (n ∷ ns) facts d new =
    let (named, slug, prompted) = facts n (Memᴰ.head refl) in
    (
      record {
        not_blank = named;
        slug = slug;
        fresh = λ m. new n.id m (Memᴰ.head refl);
        prompted = prompted;
      },
      AllPass-of (n.id ∷ seen) ns (λ x m. facts x (Memᴰ.tail m)) d.1 later,
    )
  where
    later : (k : Text) → Memᴰ k (n.id ∷ seen) → ¬ Memᴰ k (ids ns)
    later k (Memᴰ.head e) m = d.0 (subst (λ z. Memᴰ z (ids ns)) e m)
    later k (Memᴰ.tail h) m = new k h (Memᴰ.tail m)
