-- ===== src/Fleet/Run/Ordering.antt =====
-- The order in which the nodes of a run settle.
use mathlib.Core.Path.{◌≡◌, refl, sym, ap, ◌∙◌, subst}
use mathlib.Core.Logic.{inl, inr}
use mathlib.Core.Bool.{Bool, true, false, not}
use mathlib.Core.List.{List, [], ◌∷◌, ◌++◌, Memᴰ, map}
use mathlib.Core.Option.{Option, none, some}
use temporal_agents.Prelude.{Text, Map, lookup, Option-cases, if◌then◌else◌}
use temporal_agents.Fleet.Run.{
  NodeResult, skipped, ChildOutcome, completed, failure, Progress, RunContext, node_of,
  blocking_dependency, child_outcome, settled, skipped_result, record_result, start_layer,
  await_layer, run_layer,
}
use temporal_agents.Fleet.Run.Layer.{Outside, blocker, same_blocker, record-Outside, decided}

-- The members of a list that pass a test, in its order.
unfoldable pub keep_if : (Text → Bool) → List Text → List Text
keep_if p [] = []
keep_if p (k ∷ ks) = let rest = keep_if p ks in if p k then k ∷ rest else rest

-- The results say that the node was skipped.
abbrev pub was_skipped : Map NodeResult → Text → Bool
was_skipped results k = elim (lookup k results) [
  | none ↦ false
  | some r ↦ elim r.status [ skipped ↦ true | _ ↦ false ]
]

-- Layer by layer: the nodes that were skipped, and then those that ran, both in the order of the layer.
unfoldable pub settling_order : Map NodeResult → List (List Text) → List Text
unfolding keep_if
settling_order results [] = []
settling_order results (layer ∷ layers) =
    keep_if (was_skipped results) layer
    ++ (keep_if (λ k. not (was_skipped results k)) layer ++ settling_order results layers)

abbrev pub is_some : Option Text → Bool
is_some none = false
is_some (some b) = true

pub append_comes : (xs ys zs : List Text) → (xs ++ ys) ++ zs ≡ xs ++ (ys ++ zs)
append_comes [] ys zs = refl
append_comes (x ∷ xs) ys zs = ap (λ l. x ∷ l) (append_comes xs ys zs)

pub append_nil : (xs : List Text) → xs ++ [] ≡ xs
append_nil [] = refl
append_nil (x ∷ xs) = ap (λ l. x ∷ l) (append_nil xs)

pub keep_if-ext :
    (p q : Text → Bool) (ks : List Text)
    → ((k : Text) → Memᴰ k ks → p k ≡ q k)
    → keep_if p ks ≡ keep_if q ks
unfolding keep_if
keep_if-ext p q [] h = refl
keep_if-ext p q (k ∷ ks) h =
    ap (λ b. if b then k ∷ keep_if p ks else keep_if p ks) (h k (Memᴰ.head refl))
    ∙ ap (λ l. if q k then k ∷ l else l) (keep_if-ext p q ks (λ x m. h x (Memᴰ.tail m)))

keep_if-yes :
    (p : Text → Bool) (k : Text) (ks : List Text)
    → p k ≡ true
    → keep_if p (k ∷ ks) ≡ k ∷ keep_if p ks
unfolding keep_if
keep_if-yes p k ks h = ap (λ b. if b then k ∷ keep_if p ks else keep_if p ks) h

keep_if-no :
    (p : Text → Bool) (k : Text) (ks : List Text) → p k ≡ false → keep_if p (k ∷ ks) ≡ keep_if p ks
unfolding keep_if
keep_if-no p k ks h = ap (λ b. if b then k ∷ keep_if p ks else keep_if p ks) h

-- The ids of the children that were started.
abbrev ids : List (Text × ChildOutcome) → List Text
ids started = map (λ (q : Text × ChildOutcome). q.0) started

settled-id : (k : Text) (c : ChildOutcome) → (settled k c).id ≡ k
unfolding settled
settled-id k (completed out) = refl
settled-id k (failure type message) = refl

await_layer-order :
    (run : RunContext) (started : List (Text × ChildOutcome)) (p : Progress)
    → (await_layer started p).order ≡ p.order ++ ids started
unfolding await_layer
await_layer-order run [] p = sym (append_nil p.order)
await_layer-order run ((k, outcome) ∷ rest) p =
    await_layer-order run rest (record_result (settled k outcome) p)
    ∙ ap (λ x. (p.order ++ x ∷ []) ++ ids rest) (settled-id k outcome)
    ∙ append_comes p.order (k ∷ []) (ids rest)

module _ (run : RunContext) (layer : List Text) (base : Map NodeResult)
    (apart : (k d : Text) → Memᴰ k layer → Memᴰ d (node_of run k).depends_on → ¬ Memᴰ d layer) where
  abbrev is_blocked : Text → Bool
  is_blocked k = is_some (blocker run layer base apart k)

  -- What the first loop makes of an order.
  record Orders (rest : List Text) (p : Progress) (r : Progress × List (Text × ChildOutcome))
      : Type 0 where
    skips : r.0.order ≡ p.order ++ keep_if is_blocked rest
    starts : ids r.1 ≡ keep_if (λ k. not (is_blocked k)) rest

  skip-Orders :
      (k b : Text) (rest : List Text) (p : Progress) (r : Progress × List (Text × ChildOutcome))
      → blocker run layer base apart k ≡ some b
      → Orders rest (record_result (skipped_result k b) p) r
      → Orders (k ∷ rest) p r
  unfolding skipped_result
  skip-Orders k b rest p r e o = record {
    skips =
        o.skips
        ∙ append_comes p.order (k ∷ []) (keep_if is_blocked rest)
        ∙ ap (λ l. p.order ++ l) (sym (keep_if-yes is_blocked k rest (ap is_some e)));
    starts =
        o.starts ∙ sym (keep_if-no (λ k. not (is_blocked k)) k rest (ap (λ x. not (is_some x)) e));
  }

  start-Orders :
      (k : Text) (c : ChildOutcome) (rest : List Text) (p p' : Progress)
      (started : List (Text × ChildOutcome))
      → blocker run layer base apart k ≡ none
      → Orders rest p (p', started)
      → Orders (k ∷ rest) p (p', (k, c) ∷ started)
  start-Orders k c rest p p' started e o = record {
    skips = o.skips ∙ ap (λ l. p.order ++ l) (sym (keep_if-no is_blocked k rest (ap is_some e)));
    starts =
        ap (λ l. k ∷ l) o.starts
        ∙ sym (keep_if-yes (λ k. not (is_blocked k)) k rest (ap (λ x. not (is_some x)) e));
  }

  start_layer-Orders :
      (rest : List Text) (p : Progress)
      → ((k : Text) → Memᴰ k rest → Memᴰ k layer)
      → Outside run layer base apart p.results
      → Orders rest p (start_layer run rest p)
  unfolding start_layer keep_if
  start_layer-Orders [] p within out = record { skips = sym (append_nil p.order); starts = refl }
  start_layer-Orders (k ∷ rest) p within out =
      let at = within k (Memᴰ.head refl) in
      let later = λ (x : Text) (m : Memᴰ x rest). within x (Memᴰ.tail m) in
      let same = same_blocker run layer base apart k p.results at out in
      elim (Option-cases (blocker run layer base apart k)) [
        | inl e ↦
            rw (same ∙ e, start_layer)
              (start-Orders k (child_outcome run k) rest p (start_layer run rest p).0
                (start_layer run rest p).1 e (start_layer-Orders rest p later out))
        | inr (b, e) ↦
            rw (same ∙ e, start_layer)
              (skip-Orders k b rest p (start_layer run rest (record_result (skipped_result k b) p))
                e
                (start_layer-Orders rest (record_result (skipped_result k b) p) later (
                  subst
                    (λ o. Outside run layer base apart (record_result (decided run o k) p).results)
                    e (record-Outside run layer base apart k p at out))))
      ]

  -- One layer settles the skipped nodes, and then the others.
  pub run_layer-order :
      (p : Progress)
      → p.results ≡ base
      → (run_layer run layer p).order
        ≡ p.order
          ++ (keep_if (λ k. is_some (blocking_dependency (node_of run k) base)) layer
              ++ keep_if (λ k. not (is_some (blocking_dependency (node_of run k) base))) layer)
  unfolding run_layer
  run_layer-order p e =
      let o = start_layer-Orders layer p (λ k m. m) (λ x _. ap (lookup x) e) in
      let r = start_layer run layer p in
      await_layer-order run r.1 r.0
      ∙ ap (λ l. l ++ ids r.1) o.skips
      ∙ append_comes p.order (keep_if is_blocked layer) (ids r.1)
      ∙ ap (λ l. p.order ++ (keep_if is_blocked layer ++ l)) o.starts
