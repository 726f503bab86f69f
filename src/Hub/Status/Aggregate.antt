-- ===== src/Hub/Status/Aggregate.antt =====
-- What the status of a fleet says about its nodes.
use Prim.Native.Nat.{suc, ◌+◌, ◌<◌, ◌≤◌}
use mathlib.Core.Path.{◌≡◌, refl, sym, ap, ◌∙◌, subst}
use mathlib.Core.Logic.{◌↔◌, ◌≢◌, ◌⊎◌, inl, inr}
use mathlib.Core.Bool.{Bool, true, false}
use mathlib.Core.List.{List, [], ◌∷◌, Memᴰ}
use native.Mathlib.Omega.{arith}
use temporal_agents.Prelude.{Bool-cases, ltb, length}
use temporal_agents.Hub.Status.{
  WorkStatus, todo, in_progress, paused, waiting_input, waiting, done, failed, HubNode, is_status,
  count_status, any_done, any_other, precedence, aggregate_status, node_progress,
}

-- Some node has the status.
unfoldable pub Has : WorkStatus → List HubNode → Type 0
Has s nodes = (n : HubNode) × Memᴰ n nodes × (n.status ≡ s)

-- None of the nodes needs an operator.
unfoldable pub IsQuiet : List HubNode → Type 0
unfolding Has
IsQuiet nodes = (¬ Has failed nodes) × (¬ Has waiting_input nodes)

-- What each status of a fleet claims of its nodes.
unfoldable pub Claims : WorkStatus → List HubNode → Type 0
unfolding Has IsQuiet
Claims failed nodes = Has failed nodes
Claims waiting_input nodes = Has waiting_input nodes × (¬ Has failed nodes)
Claims in_progress nodes =
    IsQuiet nodes
    × (Has in_progress nodes
        ⊎ (Has done nodes
            × (¬ Has paused nodes)
            × ((n : HubNode) × Memᴰ n nodes × (n.status ≢ done))))
Claims paused nodes = IsQuiet nodes × (¬ Has in_progress nodes) × Has paused nodes
Claims done nodes = Has done nodes × ((n : HubNode) → Memᴰ n nodes → n.status ≡ done)
Claims todo nodes =
    IsQuiet nodes × (¬ Has in_progress nodes) × (¬ Has paused nodes) × (¬ Has done nodes)
Claims waiting nodes = ⊥

is_status-eq : (a b : WorkStatus) → is_status a b ≡ true → a ≡ b
unfolding is_status
is_status-eq a b h = ground arith

pub is_status_refl : (a : WorkStatus) → is_status a a ≡ true
unfolding is_status
is_status_refl a = ground arith

count_status-Has : (s : WorkStatus) (ns : List HubNode) → 0 < count_status s ns → Has s ns
unfolding count_status Has
count_status-Has s [] h = ground arith
count_status-Has s (n ∷ ns) h = elim (Bool-cases (is_status s n.status)) [
  | inl e ↦ (n, Memᴰ.head refl, sym (is_status-eq s n.status e))
  | inr e ↦ let (m, at, same) = count_status-Has s ns (ground arith) in (m, Memᴰ.tail at, same)
]

Has-count_status :
    (s : WorkStatus) (n : HubNode) (ns : List HubNode)
    → Memᴰ n ns
    → n.status ≡ s
    → 0 < count_status s ns
unfolding count_status
Has-count_status s n [] m e = elim m [ ]
Has-count_status s n (n' ∷ ns) (Memᴰ.head same) e =
    ground (arith, is_status_refl s, ap (λ x. x.status) same)
Has-count_status s n (n' ∷ ns) (Memᴰ.tail m) e = ground (arith, Has-count_status s n ns m e)

Has-none : (s : WorkStatus) (ns : List HubNode) → ltb 0 (count_status s ns) ≡ false → ¬ Has s ns
unfolding Has
Has-none s ns h (n, m, e) = ground (arith, Has-count_status s n ns m e)

any_done-count : (ns : List HubNode) → any_done ns ≡ ltb 0 (count_status done ns)
unfolding any_done count_status
any_done-count [] = ground arith
any_done-count (n ∷ ns) = ground (arith, any_done-count ns)

any_other-all :
    (ns : List HubNode) → any_other ns ≡ false → (n : HubNode) → Memᴰ n ns → n.status ≡ done
unfolding any_other
any_other-all [] h n m = elim m [ ]
any_other-all (n' ∷ ns) h n (Memᴰ.head same) =
    ap (λ x. x.status) same ∙ sym (is_status-eq done n'.status (ground arith))
any_other-all (n' ∷ ns) h n (Memᴰ.tail m) = any_other-all ns (ground arith) n m

status_apart : (s t : WorkStatus) → is_status t s ≡ false → s ≢ t
status_apart s t h e = ground (arith, is_status_refl t, ap (is_status t) e)

any_other-some :
    (ns : List HubNode) → any_other ns ≡ true → (n : HubNode) × Memᴰ n ns × (n.status ≢ done)
unfolding any_other
any_other-some [] h = ground arith
any_other-some (n ∷ ns) h = elim (Bool-cases (is_status done n.status)) [
  | inl e ↦ let (m, at, apart) = any_other-some ns (ground arith) in (m, Memᴰ.tail at, apart)
  | inr e ↦ (n, Memᴰ.head refl, status_apart n.status done e)
]

count_status-le : (s : WorkStatus) (ns : List HubNode) → count_status s ns ≤ length ns
unfolding count_status
count_status-le s [] = omega arith
count_status-le s (n ∷ ns) = ground (arith, count_status-le s ns)

any_other-count : (ns : List HubNode) → any_other ns ≡ false → count_status done ns ≡ length ns
unfolding any_other count_status
any_other-count [] h = refl
any_other-count (n ∷ ns) h = ground (arith, any_other-count ns)

count-any_other : (ns : List HubNode) → count_status done ns ≡ length ns → any_other ns ≡ false
unfolding any_other count_status
count-any_other [] h = refl
count-any_other (n ∷ ns) h = ground (arith, count-any_other ns, count_status-le done ns)

Has-some : (s : WorkStatus) (ns : List HubNode) → ltb 0 (count_status s ns) ≡ true → Has s ns
Has-some s ns h = count_status-Has s ns (ground arith)

-- One lemma for each way through the switch: the tests before it have failed.
module _ (n : HubNode) (ns : List HubNode) where
  abbrev nodes : List HubNode
  nodes = n ∷ ns

  abbrev test : WorkStatus → Bool
  test s = ltb 0 (count_status s nodes)

  precedence-Claims :
      (f w i p o d : Bool)
      → test failed ≡ f
      → test waiting_input ≡ w
      → test in_progress ≡ i
      → test paused ≡ p
      → any_other nodes ≡ o
      → test done ≡ d
      → Claims (precedence f w i p o d) nodes
  unfolding precedence Claims IsQuiet
  precedence-Claims true w i p o d ef ew ei ep eo ed = Has-some failed nodes ef
  precedence-Claims false true i p o d ef ew ei ep eo ed =
      (Has-some waiting_input nodes ew, Has-none failed nodes ef)
  precedence-Claims false false true p o d ef ew ei ep eo ed = (
    (Has-none failed nodes ef, Has-none waiting_input nodes ew),
    inl (Has-some in_progress nodes ei),
  )
  precedence-Claims false false false true o d ef ew ei ep eo ed = (
    (Has-none failed nodes ef, Has-none waiting_input nodes ew),
    Has-none in_progress nodes ei,
    Has-some paused nodes ep,
  )
  precedence-Claims false false false false false d ef ew ei ep eo ed =
      unfold Has in
      ((n, Memᴰ.head refl, any_other-all nodes eo n (Memᴰ.head refl)), any_other-all nodes eo)
  precedence-Claims false false false false true true ef ew ei ep eo ed = (
    (Has-none failed nodes ef, Has-none waiting_input nodes ew),
    inr (Has-some done nodes ed, Has-none paused nodes ep, any_other-some nodes eo),
  )
  precedence-Claims false false false false true false ef ew ei ep eo ed = (
    (Has-none failed nodes ef, Has-none waiting_input nodes ew),
    Has-none in_progress nodes ei,
    Has-none paused nodes ep,
    Has-none done nodes ed,
  )

Has-nil : (s : WorkStatus) → ¬ Has s []
unfolding Has
Has-nil s (n, m, e) = elim m [ ]

-- Whatever `AggregateStatus` reports is so. A fleet that failed has a failed node; one that needs a human has such a node and no failed one. Without either of these, a fleet in progress has a node in progress, or it has a done node, a node that is not done and no paused one; a paused fleet has a paused node and none in progress. A fleet that is done has nodes, and all of them are done; one that is to do has no node that failed, needs a human, is in progress, is paused or is done.
pub aggregate_status-Claims : (nodes : List HubNode) → Claims (aggregate_status nodes) nodes
unfolding aggregate_status Claims IsQuiet
aggregate_status-Claims [] =
    ((Has-nil failed, Has-nil waiting_input), Has-nil in_progress, Has-nil paused, Has-nil done)
aggregate_status-Claims (n ∷ ns) =
    precedence-Claims n ns _ _ _ _ _ _ refl refl refl refl refl (sym (any_done-count (n ∷ ns)))

is_status-apart :
    (s t : WorkStatus) → is_status s done ≡ false → is_status done t ≡ true → is_status s t ≡ false
unfolding is_status
is_status-apart s t h e = ground arith

count_status-apart :
    (s : WorkStatus) (ns : List HubNode)
    → is_status s done ≡ false
    → count_status s ns + count_status done ns ≤ length ns
unfolding count_status
count_status-apart s [] h = omega arith
count_status-apart s (n ∷ ns) h =
    ground (arith, is_status-apart s n.status h, count_status-apart s ns h)

-- A status other than done is not there when every node is done.
test-apart :
    (s : WorkStatus) (ns : List HubNode)
    → is_status s done ≡ false
    → count_status done ns ≡ length ns
    → ltb 0 (count_status s ns) ≡ false
test-apart s ns h all_done = ground (arith, count_status-apart s ns h)

all-count_status :
    (ns : List HubNode)
    → ((n : HubNode) → Memᴰ n ns → n.status ≡ done)
    → count_status done ns ≡ length ns
unfolding count_status
all-count_status [] h = refl
all-count_status (n ∷ ns) h =
    rw (h n (Memᴰ.head refl)) (ap suc (all-count_status ns (λ m at. h m (Memᴰ.tail at))))

precedence-done : (d : Bool) → precedence false false false false false d ≡ done
unfolding precedence
precedence-done d = refl

complete-done :
    (nodes : List HubNode)
    → 0 < length nodes
    → count_status done nodes ≡ length nodes
    → aggregate_status nodes ≡ done
unfolding aggregate_status
complete-done [] h e = ground arith
complete-done (n ∷ ns) h e =
    rw
      (
        test-apart failed (n ∷ ns) (unfold is_status in refl) e,
        test-apart waiting_input (n ∷ ns) (unfold is_status in refl) e,
        test-apart in_progress (n ∷ ns) (unfold is_status in refl) e,
        test-apart paused (n ∷ ns) (unfold is_status in refl) e,
        count-any_other (n ∷ ns) e,
      )
      (precedence-done (any_done (n ∷ ns)))

length-Memᴰ : (n : HubNode) (ns : List HubNode) → Memᴰ n ns → 0 < length ns
length-Memᴰ n [] m = elim m [ ]
length-Memᴰ n (x ∷ ns) m = omega arith

is_done_complete :
    (nodes : List HubNode)
    → Claims done nodes
    → (0 < length nodes) × (count_status done nodes ≡ length nodes)
unfolding Claims Has
is_done_complete nodes ((n, m, e), h) = (length-Memᴰ n nodes m, all-count_status nodes h)

-- A fleet is reported as done exactly when it has nodes and its progress is complete.
pub aggregate_status-done_iff :
    (nodes : List HubNode)
    → (aggregate_status nodes ≡ done) ↔ (
        (0 < (node_progress nodes).total)
        × ((node_progress nodes).done ≡ (node_progress nodes).total))
unfolding node_progress
aggregate_status-done_iff nodes = (
  (λ e. is_done_complete nodes (subst (λ s. Claims s nodes) e (aggregate_status-Claims nodes))),
  (λ (some_node, e). complete-done nodes some_node e),
)
