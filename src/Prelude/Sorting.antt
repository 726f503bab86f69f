-- ===== src/Prelude/Sorting.antt =====
-- `sort.Strings`. The order is total and antisymmetric, so that every sorting algorithm gives the
-- result of this insertion sort.
use mathlib.Core.Path.{◌≡◌, sym, subst}
use mathlib.Core.Logic.{◌⊎◌, inl, inr}
use mathlib.Core.Bool.{true}
use mathlib.Core.List.Perm
use mathlib.Core.List.{List, [], ◌∷◌, Memᴰ, Perm}
use temporal_agents.Prelude.Tests.{if◌then◌else◌, Bool-cases}
use temporal_agents.Prelude.Texts.{Text, text_le, text_le_total, text_le_trans}

unfoldable pub insert_sorted : Text → List Text → List Text
insert_sorted x [] = x ∷ []
insert_sorted x (y ∷ ys) = if text_le x y then x ∷ y ∷ ys else y ∷ insert_sorted x ys

unfoldable pub sort : List Text → List Text
unfolding insert_sorted
sort [] = []
sort (x ∷ xs) = insert_sorted x (sort xs)

-- Each member is at most every later one.
abbrev pub IsSorted : List Text → Type 0
IsSorted [] = Unit {0}
IsSorted (x ∷ xs) = ((y : Text) → Memᴰ y xs → text_le x y ≡ true) × IsSorted xs

insert_sorted-mem :
    (x z : Text) (ys : List Text) → Memᴰ z (insert_sorted x ys) → (z ≡ x) ⊎ Memᴰ z ys
unfolding insert_sorted
insert_sorted-mem x z [] (Memᴰ.head e) = inl e
insert_sorted-mem x z [] (Memᴰ.tail m) = inr m
insert_sorted-mem x z (y ∷ ys) m = elim (Bool-cases (text_le x y)) [
  | inl e ↦ front (subst (λ b. Memᴰ z (if b then x ∷ y ∷ ys else y ∷ insert_sorted x ys)) e m)
  | inr e ↦
      behind (insert_sorted-mem x z ys)
        (subst (λ b. Memᴰ z (if b then x ∷ y ∷ ys else y ∷ insert_sorted x ys)) e m)
]
  where
    front : Memᴰ z (x ∷ y ∷ ys) → (z ≡ x) ⊎ Memᴰ z (y ∷ ys)
    front (Memᴰ.head e) = inl e
    front (Memᴰ.tail k) = inr k

    behind :
        (Memᴰ z (insert_sorted x ys) → (z ≡ x) ⊎ Memᴰ z ys)
        → Memᴰ z (y ∷ insert_sorted x ys)
        → (z ≡ x) ⊎ Memᴰ z (y ∷ ys)
    behind below (Memᴰ.head e) = inr (Memᴰ.head e)
    behind below (Memᴰ.tail k) = elim (below k) [ inl e ↦ inl e | inr j ↦ inr (Memᴰ.tail j) ]

insert_sorted-IsSorted : (x : Text) (ys : List Text) → IsSorted ys → IsSorted (insert_sorted x ys)
unfolding insert_sorted
insert_sorted-IsSorted x [] s = (λ y m. elim m [ ], tt)
insert_sorted-IsSorted x (y ∷ ys) s = elim (Bool-cases (text_le x y)) [
  | inl e ↦ rw (e, IsSorted) (first e, s)
  | inr e ↦ rw (e, IsSorted) (rest (text_le_total x y e), insert_sorted-IsSorted x ys s.1)
]
  where
    first : text_le x y ≡ true → (z : Text) → Memᴰ z (y ∷ ys) → text_le x z ≡ true
    first e z (Memᴰ.head q) = subst (λ w. text_le x w ≡ true) (sym q) e
    first e z (Memᴰ.tail m) = text_le_trans x y z e (s.0 z m)

    rest : text_le y x ≡ true → (z : Text) → Memᴰ z (insert_sorted x ys) → text_le y z ≡ true
    rest e z m = elim (insert_sorted-mem x z ys m) [
      | inl q ↦ subst (λ w. text_le y w ≡ true) (sym q) e
      | inr k ↦ s.0 z k
    ]

pub sort-IsSorted : (xs : List Text) → IsSorted (sort xs)
unfolding sort
sort-IsSorted [] = tt
sort-IsSorted (x ∷ xs) = insert_sorted-IsSorted x (sort xs) (sort-IsSorted xs)

insert_sorted-perm : (x : Text) (ys : List Text) → Perm (insert_sorted x ys) (x ∷ ys)
unfolding insert_sorted
insert_sorted-perm x [] = Perm.refl _
insert_sorted-perm x (y ∷ ys) = elim (Bool-cases (text_le x y)) [
  | inl e ↦ rw e (Perm.refl _)
  | inr e ↦ rw e (Perm.trans (Perm.cons y (insert_sorted-perm x ys)) (Perm.swap _ _ _))
]

pub sort-perm : (xs : List Text) → Perm (sort xs) xs
unfolding sort
sort-perm [] = Perm.refl _
sort-perm (x ∷ xs) = Perm.trans (insert_sorted-perm x (sort xs)) (Perm.cons x (sort-perm xs))

pub sort-mem : (z : Text) (xs : List Text) → Memᴰ z (sort xs) → Memᴰ z xs
unfolding sort
sort-mem z [] m = m
sort-mem z (x ∷ xs) m = elim (insert_sorted-mem x z (sort xs) m) [
  | inl e ↦ Memᴰ.head e
  | inr k ↦ Memᴰ.tail (sort-mem z xs k)
]

mem-insert_sorted : (x z : Text) (ys : List Text) → Memᴰ z (x ∷ ys) → Memᴰ z (insert_sorted x ys)
unfolding insert_sorted
mem-insert_sorted x z [] m = m
mem-insert_sorted x z (y ∷ ys) m = elim (Bool-cases (text_le x y)) [
  | inl e ↦ rw e m
  | inr e ↦ rw e (split (mem-insert_sorted x z ys) m)
]
  where
    split :
        (Memᴰ z (x ∷ ys) → Memᴰ z (insert_sorted x ys))
        → Memᴰ z (x ∷ y ∷ ys)
        → Memᴰ z (y ∷ insert_sorted x ys)
    split ih (Memᴰ.head e) = Memᴰ.tail (ih (Memᴰ.head e))
    split ih (Memᴰ.tail (Memᴰ.head e)) = Memᴰ.head e
    split ih (Memᴰ.tail (Memᴰ.tail k)) = Memᴰ.tail (ih (Memᴰ.tail k))

pub mem-sort : (z : Text) (xs : List Text) → Memᴰ z xs → Memᴰ z (sort xs)
unfolding sort
mem-sort z [] m = m
mem-sort z (x ∷ xs) (Memᴰ.head e) = mem-insert_sorted x z (sort xs) (Memᴰ.head e)
mem-sort z (x ∷ xs) (Memᴰ.tail m) = mem-insert_sorted x z (sort xs) (Memᴰ.tail (mem-sort z xs m))
