-- ===== src/Fleet/Search/Walks.antt =====
-- Walks along dependencies, and the part of the stack that the search reports as a cycle.
use mathlib.Core.Path.{◌≡◌, refl, sym, subst}
use mathlib.Core.List.{List, [], ◌∷◌, ◌++◌, Memᴰ}
use mathlib.Core.WellFounded.{Acc}
use native.Mathlib.Omega.{arith}
use temporal_agents.Prelude.{Text, ◌≟◌}
use temporal_agents.Fleet.Search.{from_first}

-- `b` can be reached from `a` by following dependencies, in one step or more.
pub data Reaches (deps : Text → List Text) : Text → Text → Type 0 where
  direct : {a b : Text} → Memᴰ b (deps a) → Reaches deps a b
  onward : {a b c : Text} → Memᴰ b (deps a) → Reaches deps b c → Reaches deps a c

-- Each member depends on the next.
abbrev pub Walk : (Text → List Text) → List Text → Type 0
Walk deps [] = Unit {0}
Walk deps (x ∷ []) = Unit {0}
Walk deps (x ∷ y ∷ rest) = Memᴰ y (deps x) × Walk deps (y ∷ rest)

-- A walk that ends where it began.
abbrev pub IsCycle : (Text → List Text) → List Text → Type 0
IsCycle deps path =
    (a : Text) × (between : List Text) × (path ≡ (a ∷ between) ++ a ∷ []) × Walk deps path

-- The relation along which the search recurs.
abbrev pub NeededBy : (Text → List Text) → Text → Text → Type 0
NeededBy deps b a = Memᴰ b (deps a)

module _ (deps : Text → List Text) where
  pub Walk-tail : (x : Text) (xs : List Text) → Walk deps (x ∷ xs) → Walk deps xs
  Walk-tail x [] w = tt
  Walk-tail x (y ∷ xs) w = w.1

  pub Walk-snoc :
      (xs : List Text) (x y : Text)
      → Walk deps (xs ++ x ∷ [])
      → Memᴰ y (deps x)
      → Walk deps ((xs ++ x ∷ []) ++ y ∷ [])
  Walk-snoc [] x y w m = (m, tt)
  Walk-snoc (a ∷ []) x y w m = (w.0, (m, tt))
  Walk-snoc (a ∷ b ∷ xs) x y w m = (w.0, Walk-snoc (b ∷ xs) x y w.1 m)

  Walk-Reaches :
      (a : Text) (between : List Text) (b : Text)
      → Walk deps ((a ∷ between) ++ b ∷ [])
      → Reaches deps a b
  Walk-Reaches a [] b w = Reaches.direct w.0
  Walk-Reaches a (c ∷ between) b w = Reaches.onward w.0 (Walk-Reaches c between b w.1)

  pub IsCycle-Reaches : (path : List Text) → IsCycle deps path → (a : Text) × Reaches deps a a
  IsCycle-Reaches path (a, between, e, w) = (a, Walk-Reaches a between a (subst (Walk deps) e w))

  -- A node on the stack that is needed again closes a cycle.
  pub from_first-IsCycle :
      (dep : Text) (stack : List Text)
      → Memᴰ dep stack
      → Walk deps (stack ++ dep ∷ [])
      → (rest : List Text) × (from_first dep stack ≡ dep ∷ rest)
        × IsCycle deps ((dep ∷ rest) ++ dep ∷ [])
  unfolding from_first
  from_first-IsCycle dep [] m w = elim m [ ]
  from_first-IsCycle dep (x ∷ xs) m w = elim (x ≟ dep) [
    | yes e ↦ (xs, ground arith, (dep, xs, refl, subst (λ z. Walk deps ((z ∷ xs) ++ dep ∷ [])) e w))
    | no n ↦
        let (rest, e, c) = from_first-IsCycle dep xs (later n m) (Walk-tail x (xs ++ dep ∷ []) w) in
        (rest, ground arith, c)
  ]
    where
      later : ¬ (x ≡ dep) → Memᴰ dep (x ∷ xs) → Memᴰ dep xs
      later n (Memᴰ.head e) = absurd (n (sym e))
      later n (Memᴰ.tail t) = t

  pub Reaches-snoc : {a b c : Text} → Reaches deps a b → Memᴰ c (deps b) → Reaches deps a c
  Reaches-snoc (Reaches.direct n) k = Reaches.onward n (Reaches.direct k)
  Reaches-snoc (Reaches.onward n s) k = Reaches.onward n (Reaches-snoc s k)

  -- From a node that is accessible no walk leads back to it.
  pub Acc-acyclic : (a : Text) → Acc (NeededBy deps) a → ¬ Reaches deps a a
  Acc-acyclic a (Acc.intro _ below) (Reaches.direct m) =
      Acc-acyclic a (below a m) (Reaches.direct m)
  Acc-acyclic a (Acc.intro _ below) (Reaches.onward {b = b} m r) =
      Acc-acyclic b (below b m) (Reaches-snoc r m)
