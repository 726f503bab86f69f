-- ===== src/Fleet/Layers/Filling.antt =====
-- Filling the layers by depth: layer `i` gets the nodes of depth `i`, in the order of the plan.
use Prim.Native.Nat.{ℕ, zero, suc, ◌<◌}
use mathlib.Core.Path.{◌≡◌, refl, sym, ap, ◌∙◌, subst}
use mathlib.Core.Bool.{true, false}
use mathlib.Core.Logic.{◌⊎◌, inl, inr}
use mathlib.Core.List.{List, [], ◌∷◌, ◌++◌, Memᴰ, append-nil, append_assoc, map}
use mathlib.Core.Option.{some}
use native.Mathlib.Omega.{arith}
use temporal_agents.Prelude.{Text, Map, lookup, length, ◌==◌, if◌then◌else◌, sort, Bool-cases}
use temporal_agents.Fleet.Layers.{empty_layers, append_at, fill, or_zero}

-- Layer `i`, and no node where there is no such layer.
abbrev pub layer : ℕ → List (List Text) → List Text
layer i [] = []
layer zero (l ∷ ls) = l
layer (suc i) (l ∷ ls) = layer i ls

-- The members of the list that have this rank.
unfoldable pub of_rank : (Text → ℕ) → ℕ → List Text → List Text
of_rank rank i [] = []
of_rank rank i (x ∷ xs) = if rank x == i then x ∷ of_rank rank i xs else of_rank rank i xs

layer-append_at :
    (d i : ℕ) (id : Text) (ls : List (List Text))
    → d < length ls
    → layer i (append_at d id ls) ≡ (if d == i then layer i ls ++ id ∷ [] else layer i ls)
unfolding append_at
layer-append_at d i id [] h = elim h [ ]
layer-append_at zero zero id (l ∷ ls) h = refl
layer-append_at zero (suc i) id (l ∷ ls) h = ground arith
layer-append_at (suc d) zero id (l ∷ ls) h = ground arith
layer-append_at (suc d) (suc i) id (l ∷ ls) h =
    layer-append_at d i id ls (omega arith) ∙ ground arith

length-append_at :
    (d : ℕ) (id : Text) (ls : List (List Text)) → length (append_at d id ls) ≡ length ls
unfolding append_at
length-append_at d id [] = refl
length-append_at zero id (l ∷ ls) = refl
length-append_at (suc d) id (l ∷ ls) = ap suc (length-append_at d id ls)

module _ (rank : Text → ℕ) (depth : Map ℕ) where
  abbrev Known : List Text → List (List Text) → Type 0
  Known xs ls = (x : Text) → Memᴰ x xs → (lookup x depth ≡ some (rank x)) × (rank x < length ls)

  pub length-fill : (xs : List Text) (ls : List (List Text)) → length (fill depth xs ls) ≡ length ls
  unfolding fill
  length-fill [] ls = refl
  length-fill (x ∷ xs) ls =
      length-fill xs (append_at (or_zero (lookup x depth)) x ls)
      ∙ length-append_at (or_zero (lookup x depth)) x ls

  pub layer-fill :
      (i : ℕ) (xs : List Text) (ls : List (List Text))
      → Known xs ls
      → layer i (fill depth xs ls) ≡ layer i ls ++ of_rank rank i xs
  unfolding fill of_rank
  layer-fill i [] ls known = rw append-nil
  layer-fill i (x ∷ xs) ls known =
      let (at, within) = known x (Memᴰ.head refl) in
      let ls' = append_at (or_zero (lookup x depth)) x ls in
      let here : or_zero (lookup x depth) ≡ rank x = ap or_zero at in
      let ih = layer-fill i xs ls' (λ y m. (
        (known y (Memᴰ.tail m)).0,
        subst (λ n. rank y < n) (sym (length-append_at _ x ls)) (known y (Memᴰ.tail m)).1,
      )) in
      ih
      ∙ ap (λ l. l ++ of_rank rank i xs)
          (layer-append_at _ i x ls (subst (λ n. n < length ls) (sym here) within))
      ∙ split (or_zero (lookup x depth)) here (Bool-cases (rank x == i))
    where
      split :
          (d : ℕ)
          → d ≡ rank x
          → (rank x == i ≡ true) ⊎ (rank x == i ≡ false)
          → (if d == i then layer i ls ++ x ∷ [] else layer i ls) ++ of_rank rank i xs
            ≡ layer i ls ++ (if rank x == i then x ∷ of_rank rank i xs else of_rank rank i xs)
      split d e (inl q) = rw (e, q) (append_assoc (layer i ls) (x ∷ []) (of_rank rank i xs))
      split d e (inr q) = rw (e, q) refl

pub layer-empty : (i n : ℕ) → layer i (empty_layers n) ≡ []
unfolding empty_layers
layer-empty i zero = refl
layer-empty zero (suc n) = refl
layer-empty (suc i) (suc n) = layer-empty i n

pub length-empty : (n : ℕ) → length (empty_layers n) ≡ n
unfolding empty_layers
length-empty zero = refl
length-empty (suc n) = ap suc (length-empty n)

pub layer-map-sort : (i : ℕ) (ls : List (List Text)) → layer i (map sort ls) ≡ sort (layer i ls)
unfolding sort
layer-map-sort i [] = refl
layer-map-sort zero (l ∷ ls) = refl
layer-map-sort (suc i) (l ∷ ls) = layer-map-sort i ls
