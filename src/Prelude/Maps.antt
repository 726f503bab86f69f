-- ===== src/Prelude/Maps.antt =====
-- Go maps with string keys as association lists, and sets of strings as lists.
use Prim.Native.Nat.{ℕ, suc, ◌≤◌, ◌<◌}
use mathlib.Core.Path.{◌≡◌, refl, sym}
use mathlib.Core.Logic.{ite}
use mathlib.Core.Bool.{Bool, true, false}
use mathlib.Core.Option.{Option, none, some}
use mathlib.Core.List.{List, [], ◌∷◌, Memᴰ}
use native.Mathlib.Omega.{arith}
use temporal_agents.Prelude.Tests.{if◌then◌else◌}
use temporal_agents.Prelude.Texts.{Text, ◌≟◌}

module _ {ℓ} where
  abbrev pub Map : Type ℓ → Type ℓ
  Map V = List (Text × V)

  -- The newest entry of a key counts.
  unfoldable pub lookup : {V : Type ℓ} → Text → Map V → Option V
  lookup k [] = none
  lookup k ((j, v) ∷ m) = ite (j ≟ k) (some v) (lookup k m)

  -- An assignment shadows the entries before it.
  abbrev pub insert : {V : Type ℓ} → Text → V → Map V → Map V
  insert k v m = (k, v) ∷ m

  pub lookup-insert :
      {V : Type ℓ} (k j : Text) (v : V) (m : Map V)
      → lookup j (insert k v m) ≡ ite (k ≟ j) (some v) (lookup j m)
  unfolding lookup
  lookup-insert k j v m = refl

-- The keys that a `map[string]bool` holds as true.
unfoldable pub has : Text → List Text → Bool
has k [] = false
has k (x ∷ xs) = ite (x ≟ k) true (has k xs)

pub has→Memᴰ : (k : Text) (xs : List Text) → has k xs ≡ true → Memᴰ k xs
unfolding has
has→Memᴰ k [] h = ground arith
has→Memᴰ k (x ∷ xs) h = elim (x ≟ k) [
  | yes e ↦ Memᴰ.head (sym e)
  | no n ↦ Memᴰ.tail (has→Memᴰ k xs (ground arith))
]

pub Memᴰ→has : (k : Text) (xs : List Text) → Memᴰ k xs → has k xs ≡ true
unfolding has
Memᴰ→has k [] m = elim m [ ]
Memᴰ→has k (x ∷ xs) (Memᴰ.head e) = ground arith
Memᴰ→has k (x ∷ xs) (Memᴰ.tail m) = ground (arith, Memᴰ→has k xs m)

-- How many members of a list pass a test.
unfoldable pub count_if {ℓ} : {A : Type ℓ} → (A → Bool) → List A → ℕ
count_if p [] = 0
count_if p (x ∷ xs) = if p x then suc (count_if p xs) else count_if p xs

module _ {ℓ} {A : Type ℓ} (p q : A → Bool) (fewer : (a : A) → p a ≡ true → q a ≡ true) where
  pub count_if-le : (xs : List A) → count_if p xs ≤ count_if q xs
  unfolding count_if
  count_if-le [] = omega arith
  count_if-le (x ∷ xs) = ground (arith, fewer x, count_if-le xs)

  pub count_if-lt :
      (a : A) (xs : List A) → Memᴰ a xs → p a ≡ false → q a ≡ true → count_if p xs < count_if q xs
  unfolding count_if
  count_if-lt a [] m f t = elim m [ ]
  count_if-lt a (x ∷ xs) (Memᴰ.head e) f t = ground (arith, count_if-le xs)
  count_if-lt a (x ∷ xs) (Memᴰ.tail m) f t = ground (arith, fewer x, count_if-lt a xs m)
