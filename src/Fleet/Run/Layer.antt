-- ===== src/Fleet/Run/Layer.antt =====
-- One layer of a run: every node of it is decided by the results of the layers before.
use mathlib.Core.Path.{◌≡◌, refl, sym, ap, ◌∙◌, subst}
use mathlib.Core.Logic.{ite, ◌⊎◌, inl, inr}
use mathlib.Core.List.{List, [], ◌∷◌, Memᴰ}
use mathlib.Core.Option.{Option, none, some}
use native.Mathlib.Omega.{arith}
use temporal_agents.Prelude.{Text, ◌≟◌, Map, lookup, insert, sort, sort-mem, Option-cases}
use temporal_agents.Fleet.Search.{FleetNode}
use temporal_agents.Fleet.Run.{
  NodeResult, ChildOutcome, Progress, RunContext, first_unsuccessful, blocking_dependency, settled,
  skipped_result, record_result, node_of, child_outcome, start_layer, await_layer, run_layer,
}

first_unsuccessful-ext :
    (m m' : Map NodeResult) (ds : List Text)
    → ((d : Text) → Memᴰ d ds → lookup d m ≡ lookup d m')
    → first_unsuccessful m ds ≡ first_unsuccessful m' ds
unfolding first_unsuccessful
first_unsuccessful-ext m m' [] h = refl
first_unsuccessful-ext m m' (d ∷ ds) h =
    rw (h d (Memᴰ.head refl), first_unsuccessful-ext m m' ds (λ x k. h x (Memᴰ.tail k)))

pub blocking_dependency-ext :
    (node : FleetNode) (m m' : Map NodeResult)
    → ((d : Text) → Memᴰ d node.depends_on → lookup d m ≡ lookup d m')
    → blocking_dependency node m ≡ blocking_dependency node m'
unfolding blocking_dependency
blocking_dependency-ext node m m' h =
    first_unsuccessful-ext m m' (sort node.depends_on) (λ d k. h d (sort-mem d node.depends_on k))

-- What a node comes to, by the results of its dependencies alone.
abbrev pub decided : RunContext → Option Text → Text → NodeResult
decided run (some blocker) id = skipped_result id blocker
decided run none id = settled id (child_outcome run id)

abbrev pub verdict : RunContext → Map NodeResult → Text → NodeResult
verdict run results id = decided run (blocking_dependency (node_of run id) results) id

pub verdict-id : (run : RunContext) (o : Option Text) (id : Text) → (decided run o id).id ≡ id
unfolding skipped_result settled
verdict-id run (some b) id = refl
verdict-id run none id = ended (child_outcome run id)
  where
    ended : (c : ChildOutcome) → (settled id c).id ≡ id
    ended (ChildOutcome.completed out) = refl
    ended (ChildOutcome.failure type message) = refl

lookup-insert :
    (k j : Text) (r : NodeResult) (m : Map NodeResult)
    → lookup j (insert k r m) ≡ ite (k ≟ j) (some r) (lookup j m)
unfolding lookup
lookup-insert k j r m = refl

pub lookup-record :
    (run : RunContext) (o : Option Text) (id x : Text) (p : Progress)
    → lookup x (record_result (decided run o id) p).results
      ≡ ite (id ≟ x) (some (decided run o id)) (lookup x p.results)
lookup-record run o id x p =
    subst
      (λ z.
        lookup x (insert z (decided run o id) p.results)
        ≡ ite (id ≟ x) (some (decided run o id)) (lookup x p.results))
      (sym (verdict-id run o id)) (lookup-insert id x (decided run o id) p.results)

module _ (run : RunContext) (layer : List Text) (base : Map NodeResult)
    (apart : (k d : Text) → Memᴰ k layer → Memᴰ d (node_of run k).depends_on → ¬ Memᴰ d layer) where
  -- The results outside the layer are those from before it.
  abbrev pub Outside : Map NodeResult → Type 0
  Outside m = (x : Text) → ¬ Memᴰ x layer → lookup x m ≡ lookup x base

  abbrev pub blocker : Text → Option Text
  blocker k = blocking_dependency (node_of run k) base

  pub same_blocker :
      (k : Text) (m : Map NodeResult)
      → Memᴰ k layer
      → Outside m
      → blocking_dependency (node_of run k) m ≡ blocking_dependency (node_of run k) base
  same_blocker k m at out =
      blocking_dependency-ext (node_of run k) m base (λ d h. out d (apart k d at h))

  -- A node of the layer that has its result.
  abbrev IsSettled : Map NodeResult → Text → Type 0
  IsSettled m k = lookup k m ≡ some (verdict run base k)

  pub record-Outside :
      (k : Text) (p : Progress)
      → Memᴰ k layer
      → Outside p.results
      → Outside (record_result (verdict run base k) p).results
  record-Outside k p at out x absent = lookup-record run (blocker k) k x p ∙ elim (k ≟ x) [
    | yes e ↦ absurd (absent (subst (λ z. Memᴰ z layer) e at))
    | no n ↦ ground (arith, out x absent)
  ]

  record-IsSettled :
      (k j : Text) (p : Progress)
      → (k ≡ j) ⊎ IsSettled p.results j
      → IsSettled (record_result (verdict run base k) p).results j
  record-IsSettled k j p (inl e) =
      subst (IsSettled (record_result (verdict run base k) p).results) e
        (lookup-record run (blocker k) k k p ∙ ground arith)
  record-IsSettled k j p (inr h) =
      lookup-record run (blocker k) k j p
      ∙ elim (k ≟ j) [ yes e ↦ ground (arith, ap (verdict run base) e) | no n ↦ ground (arith, h) ]

  -- What the first loop leaves: results outside the layer as they were, each blocked node with its result,
  -- and the others started.
  record Started (rest : List Text) (p : Progress) (r : Progress × List (Text × ChildOutcome))
      : Type 0 where
    outside : Outside r.0.results
    keeps : (k : Text) → IsSettled p.results k → IsSettled r.0.results k
    skips : (k b : Text) → Memᴰ k rest → blocker k ≡ some b → IsSettled r.0.results k
    starts : (k : Text) → Memᴰ k rest → blocker k ≡ none → Memᴰ (k, child_outcome run k) r.1
    only :
        (q : Text × ChildOutcome)
        → Memᴰ q r.1
        → Memᴰ q.0 layer × (blocker q.0 ≡ none) × (q.1 ≡ child_outcome run q.0)

  skip_step :
      (k b : Text) (rest : List Text) (p : Progress) (r : Progress × List (Text × ChildOutcome))
      → blocker k ≡ some b
      → Memᴰ k layer
      → Started rest (record_result (skipped_result k b) p) r
      → Started (k ∷ rest) p r
  skip_step k b rest p r e at s = record {
    outside = s.outside;
    keeps = λ j h. s.keeps j (here j (inr h));
    skips = skips;
    starts = starts;
    only = s.only;
  }
    where
      here :
          (j : Text)
          → (k ≡ j) ⊎ IsSettled p.results j
          → IsSettled (record_result (skipped_result k b) p).results j
      here j h =
          subst (λ o. IsSettled (record_result (decided run o k) p).results j) e
            (record-IsSettled k j p h)

      skips : (j c : Text) → Memᴰ j (k ∷ rest) → blocker j ≡ some c → IsSettled r.0.results j
      skips j c (Memᴰ.head q) f = s.keeps j (here j (inl (sym q)))
      skips j c (Memᴰ.tail m) f = s.skips j c m f

      starts : (j : Text) → Memᴰ j (k ∷ rest) → blocker j ≡ none → Memᴰ (j, child_outcome run j) r.1
      starts j (Memᴰ.head q) f = absurd (clash (sym e ∙ ap blocker (sym q) ∙ f))
        where
          clash : some b ≡ none → ⊥
          clash h = cc
      starts j (Memᴰ.tail m) f = s.starts j m f

  start_step :
      (k : Text) (rest : List Text) (p p' : Progress) (started : List (Text × ChildOutcome))
      → blocker k ≡ none
      → Memᴰ k layer
      → Started rest p (p', started)
      → Started (k ∷ rest) p (p', (k, child_outcome run k) ∷ started)
  start_step k rest p p' started e at s = record {
    outside = s.outside;
    keeps = s.keeps;
    skips = skips;
    starts = starts;
    only = only;
  }
    where
      skips : (j c : Text) → Memᴰ j (k ∷ rest) → blocker j ≡ some c → IsSettled p'.results j
      skips j c (Memᴰ.head q) f = absurd (clash (sym f ∙ ap blocker q ∙ e))
        where
          clash : some c ≡ none → ⊥
          clash h = cc
      skips j c (Memᴰ.tail m) f = s.skips j c m f

      starts :
          (j : Text)
          → Memᴰ j (k ∷ rest)
          → blocker j ≡ none
          → Memᴰ (j, child_outcome run j) ((k, child_outcome run k) ∷ started)
      starts j (Memᴰ.head q) f = Memᴰ.head (ap (λ z. (z, child_outcome run z)) q)
      starts j (Memᴰ.tail m) f = Memᴰ.tail (s.starts j m f)

      only :
          (q : Text × ChildOutcome)
          → Memᴰ q ((k, child_outcome run k) ∷ started)
          → Memᴰ q.0 layer × (blocker q.0 ≡ none) × (q.1 ≡ child_outcome run q.0)
      only q (Memᴰ.head h) =
          subst (λ z. Memᴰ z.0 layer × (blocker z.0 ≡ none) × (z.1 ≡ child_outcome run z.0)) (sym h)
            (at, e, refl)
      only q (Memᴰ.tail m) = s.only q m

  start_layer-Started :
      (rest : List Text) (p : Progress)
      → ((k : Text) → Memᴰ k rest → Memᴰ k layer)
      → Outside p.results
      → Started rest p (start_layer run rest p)
  unfolding start_layer
  start_layer-Started [] p within out = record {
    outside = out;
    keeps = λ k h. h;
    skips = λ k b m e. elim m [ ];
    starts = λ k m e. elim m [ ];
    only = λ q m. elim m [ ];
  }
  start_layer-Started (k ∷ rest) p within out =
      let at = within k (Memᴰ.head refl) in
      let later = λ (x : Text) (m : Memᴰ x rest). within x (Memᴰ.tail m) in
      let same = same_blocker k p.results at out in
      elim (Option-cases (blocker k)) [
        | inl e ↦
            rw (same ∙ e, start_layer)
              (start_step k rest p (start_layer run rest p).0 (start_layer run rest p).1 e at
                (start_layer-Started rest p later out))
        | inr (b, e) ↦
            rw (same ∙ e, start_layer)
              (skip_step k b rest p (start_layer run rest (record_result (skipped_result k b) p)) e
                at
                (start_layer-Started rest (record_result (skipped_result k b) p) later (
                  subst (λ o. Outside (record_result (decided run o k) p).results) e
                    (record-Outside k p at out))))
      ]

  record Awaited (started : List (Text × ChildOutcome)) (p p' : Progress) : Type 0 where
    outside : Outside p'.results
    keeps : (k : Text) → IsSettled p.results k → IsSettled p'.results k
    ended : (q : Text × ChildOutcome) → Memᴰ q started → IsSettled p'.results q.0

  await_layer-Awaited :
      (started : List (Text × ChildOutcome)) (p : Progress)
      → ((q : Text × ChildOutcome)
          → Memᴰ q started
          → Memᴰ q.0 layer × (blocker q.0 ≡ none) × (q.1 ≡ child_outcome run q.0))
      → Outside p.results
      → Awaited started p (await_layer started p)
  unfolding await_layer
  await_layer-Awaited [] p only out = record {
    outside = out;
    keeps = λ k h. h;
    ended = λ q m. elim m [ ];
  }
  await_layer-Awaited ((k, outcome) ∷ rest) p only out =
      let (at, e, f) = only (k, outcome) (Memᴰ.head refl) in
      let same : verdict run base k ≡ settled k outcome =
        ap (λ o. decided run o k) e ∙ ap (settled k) (sym f) in
      finish same
        (subst (λ r. Outside (record_result r p).results) same (record-Outside k p at out))
        (await_layer-Awaited rest (record_result (settled k outcome) p)
          (λ q m. only q (Memᴰ.tail m)))
    where
      finish :
          verdict run base k ≡ settled k outcome
          → Outside (record_result (settled k outcome) p).results
          → (Outside (record_result (settled k outcome) p).results
              → Awaited rest
                  (record_result (settled k outcome) p)
                  (await_layer rest (record_result (settled k outcome) p)))
          → Awaited ((k, outcome) ∷ rest) p (await_layer rest (record_result (settled k outcome) p))
      finish same now later = record {
        outside = (later now).outside;
        keeps = λ j h. (later now).keeps j (here j (inr h));
        ended = ended;
      }
        where
          here :
              (j : Text)
              → (k ≡ j) ⊎ IsSettled p.results j
              → IsSettled (record_result (settled k outcome) p).results j
          here j h =
              subst (λ r. IsSettled (record_result r p).results j) same (record-IsSettled k j p h)

          ended :
              (q : Text × ChildOutcome)
              → Memᴰ q ((k, outcome) ∷ rest)
              → IsSettled (await_layer rest (record_result (settled k outcome) p)).results q.0
          ended q (Memᴰ.head g) =
              (later now).keeps q.0 (here q.0 (inl (sym (ap (λ (z : Text × ChildOutcome). z.0) g))))
          ended q (Memᴰ.tail m) = (later now).ended q m

  -- After a layer every node of it has the result that the layers before decide, and no other
  -- node's result has changed.
  pub run_layer-settles :
      (p : Progress)
      → p.results ≡ base
      → ((x : Text) → ¬ Memᴰ x layer → lookup x (run_layer run layer p).results ≡ lookup x base)
        × ((k : Text)
            → Memᴰ k layer
            → lookup k (run_layer run layer p).results ≡ some (verdict run base k))
  unfolding run_layer
  run_layer-settles p e =
      let s = start_layer-Started layer p (λ k m. m) (λ x _. ap (lookup x) e) in
      let (p', started) = start_layer run layer p in
      let a = await_layer-Awaited started p' s.only s.outside in
      (
        a.outside,
        λ k m. elim (Option-cases (blocker k)) [
          | inl f ↦ a.ended (k, child_outcome run k) (s.starts k m f)
          | inr (b, f) ↦ a.keeps k (s.skips k b m f)
        ],
      )
