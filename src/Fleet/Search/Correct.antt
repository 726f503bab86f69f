-- ===== src/Fleet/Search/Correct.antt =====
-- The search finishes, and its verdict is right.
use Prim.Native.Nat.{ℕ, zero, suc, ◌≤◌}
use mathlib.Core.Path.{◌≡◌, refl, sym, ◌∙◌, subst}
use mathlib.Core.Logic.{◌⊎◌, inl, inr}
use mathlib.Core.List.{List, [], ◌∷◌, ◌++◌, Memᴰ}
use native.Mathlib.Omega.{arith}
use temporal_agents.Prelude.{Text}
use temporal_agents.Fleet.Search.{
  Color, white, gray, black, Search, color_of, Visit, clear, cycle, exhausted, enter, leave,
  if_clear, visit_deps, visit, visit_all,
}
use temporal_agents.Fleet.Search.Walks.{Walk, Walk-snoc, from_first-IsCycle}
use temporal_agents.Fleet.Search.Colors.{
  Inv, Cleared, Fits, whites, Fits-cons, Cleared-black, whites-le, whites-enter, enter-Inv,
  leave-Cleared,
}

abbrev Color-cases : (c : Color) → (c ≡ white) ⊎ (c ≡ gray) ⊎ (c ≡ black)
Color-cases white = inl refl
Color-cases gray = inr (inl refl)
Color-cases black = inr (inr refl)

module _ (deps : Text → List Text) (everything : List Text) where
  -- What a call on a white node promises, when the fuel covers the white nodes.
  abbrev Visits : ℕ → (Text → Search → Visit) → Type 0
  Visits fuel call =
      (d : Text) (s : Search)
      → color_of s d ≡ white
      → Inv deps s
      → Walk deps (s.stack ++ d ∷ [])
      → Memᴰ d everything
      → whites everything s ≤ fuel
      → Fits deps s (d ∷ []) (call d s)

  -- What has to hold of the nodes that a loop goes through.
  pub record Loop (fuel : ℕ) (ds : List Text) (s : Search) : Type 0 where
    pub inv : Inv deps s
    pub walks : (d : Text) → Memᴰ d ds → Walk deps (s.stack ++ d ∷ [])
    pub within : (d : Text) → Memᴰ d ds → Memᴰ d everything
    pub paid : whites everything s ≤ fuel

  Loop-next :
      (fuel : ℕ) (d : Text) (ds : List Text) (s s' : Search)
      → Loop fuel (d ∷ ds) s
      → Cleared deps s (d ∷ []) s'
      → Loop fuel ds s'
  Loop-next fuel d ds s s' l c = record {
    inv = c.inv;
    walks = λ x m. subst (λ t. Walk deps (t ++ x ∷ [])) (sym c.stack) (l.walks x (Memᴰ.tail m));
    within = λ x m. l.within x (Memᴰ.tail m);
    paid = omega (arith, whites-le deps everything s s' (d ∷ []) c, l.paid);
  }

  if_clear-Fits :
      (fuel : ℕ) (s : Search) (d : Text) (ds : List Text) (r : Visit) (go_on : Search → Visit)
      → Loop fuel (d ∷ ds) s
      → Fits deps s (d ∷ []) r
      → ((s' : Search) → s'.stack ≡ s.stack → Loop fuel ds s' → Fits deps s' ds (go_on s'))
      → Fits deps s (d ∷ ds) (if_clear r go_on)
  if_clear-Fits fuel s d ds (clear s') go_on l c rest =
      Fits-cons deps everything s s' d ds (go_on s') c
        (rest s' c.stack (Loop-next fuel d ds s s' l c))
  if_clear-Fits fuel s d ds (cycle path) go_on l c rest = c
  if_clear-Fits fuel s d ds exhausted go_on l c rest = c

  visit_deps-Fits :
      (fuel : ℕ) (call : Text → Search → Visit) (good : Visits fuel call) (ds : List Text)
      (s : Search)
      → Loop fuel ds s
      → Fits deps s ds (visit_deps call ds s)
  unfolding visit_deps
  visit_deps-Fits fuel call good [] s l = record {
    inv = l.inv;
    stack = refl;
    keeps_black = λ d h. h;
    still_white = λ d h. h;
    finished = λ d m. elim m [ ];
  }
  visit_deps-Fits fuel call good (d ∷ ds) s l =
      let rest = visit_deps-Fits fuel call good ds in
      elim (Color-cases (color_of s d)) [
        | inl w ↦
            rw (w, Fits)
              (if_clear-Fits fuel s d ds (call d s) (visit_deps call ds) l
                (good d s w l.inv (l.walks d (Memᴰ.head refl)) (l.within d (Memᴰ.head refl)) l.paid)
                (λ s' _. rest s'))
        | inr (inl g) ↦
            let (between, e, c) =
              from_first-IsCycle deps d s.stack (l.inv.listed d g) (l.walks d (Memᴰ.head refl)) in
            rw (g, e, Fits) c
        | inr (inr b) ↦
            let c = Cleared-black deps everything s d l.inv b in
            rw (b, Fits)
              (Fits-cons deps everything s s d ds (visit_deps call ds s) c
                (rest s (Loop-next fuel d ds s s l c)))
      ]

  after_loop :
      (id : Text) (s : Search) (r : Visit)
      → Fits deps (enter id s) (deps id) r
      → Fits deps s (id ∷ []) (if_clear r (λ s'. clear (leave id s')))
  after_loop id s (clear s') c = leave-Cleared deps everything id s s' c
  after_loop id s (cycle path) c = c
  after_loop id s exhausted c = c

  stack-enter :
      (id d : Text) (s : Search)
      → Walk deps (s.stack ++ id ∷ [])
      → Memᴰ d (deps id)
      → Walk deps ((enter id s).stack ++ d ∷ [])
  unfolding enter
  stack-enter id d s w m = Walk-snoc deps s.stack id d w m

  module _ (closed : (a d : Text) → Memᴰ d (deps a) → Memᴰ d everything) where
    visit-Fits : (fuel : ℕ) → Visits fuel (visit deps fuel)
    unfolding visit
    visit-Fits zero id s w i walk m paid =
        absurd (omega (arith, whites-enter deps everything id s w m))
    visit-Fits (suc fuel) id s w i walk m paid =
        after_loop id s (visit_deps (visit deps fuel) (deps id) (enter id s)) (
          visit_deps-Fits fuel (visit deps fuel) (visit-Fits fuel) (deps id) (enter id s) record {
            inv = enter-Inv deps everything id s i;
            walks = λ d k. stack-enter id d s walk k;
            within = closed id;
            paid = omega (arith, whites-enter deps everything id s w m);
          })

    pub visit_all-Fits :
        (fuel : ℕ) (ds : List Text) (s : Search)
        → s.stack ≡ []
        → Loop fuel ds s
        → Fits deps s ds (visit_all deps fuel ds s)
    unfolding visit_all
    visit_all-Fits fuel [] s empty l = record {
      inv = l.inv;
      stack = refl;
      keeps_black = λ d h. h;
      still_white = λ d h. h;
      finished = λ d m. elim m [ ];
    }
    visit_all-Fits fuel (d ∷ ds) s empty l = elim (Color-cases (color_of s d)) [
      | inl w ↦
          rw (w, Fits)
            (if_clear-Fits fuel s d ds (visit deps fuel d s) (visit_all deps fuel ds) l
              (visit-Fits fuel d s w l.inv (l.walks d (Memᴰ.head refl))
                (l.within d (Memᴰ.head refl)) l.paid)
              (λ s' e. visit_all-Fits fuel ds s' (e ∙ empty)))
      | inr (inl g) ↦ absurd (none_listed (subst (Memᴰ d) empty (l.inv.listed d g)))
      | inr (inr b) ↦
          let c = Cleared-black deps everything s d l.inv b in
          rw (b, Fits)
            (Fits-cons deps everything s s d ds (visit_all deps fuel ds s) c
              (visit_all-Fits fuel ds s empty (Loop-next fuel d ds s s l c)))
    ]
      where
        none_listed : Memᴰ d [] → ⊥
        none_listed m = elim m [ ]
