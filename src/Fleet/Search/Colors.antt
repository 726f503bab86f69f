-- ===== src/Fleet/Search/Colors.antt =====
-- What the search keeps true of its colours and its stack.
use Prim.Native.Nat.{ℕ, ◌≤◌, ◌<◌}
use mathlib.Core.Path.{◌≡◌, refl, sym, ap, ◌∙◌, subst}
use mathlib.Core.Logic.{ite, inl, inr}
use mathlib.Core.Bool.{Bool, true, false}
use mathlib.Core.List.Memᴰ
use mathlib.Core.List.{List, [], ◌∷◌, ◌++◌, Memᴰ}
use mathlib.Core.WellFounded.{Acc}
use native.Mathlib.Omega.{arith}
use temporal_agents.Prelude.{Text, ◌≟◌, count_if, count_if-le, count_if-lt}
use temporal_agents.Fleet.Search.{
  Color, white, gray, black, Search, color_of, Visit, clear, cycle, exhausted, drop_last, enter,
  leave,
}
use temporal_agents.Fleet.Search.Walks.{IsCycle, NeededBy}

pub color_of-enter :
    (id d : Text) (s : Search) → color_of (enter id s) d ≡ ite (id ≟ d) gray (color_of s d)
unfolding color_of enter
color_of-enter id d s = ground arith

pub color_of-leave :
    (id d : Text) (s : Search) → color_of (leave id s) d ≡ ite (id ≟ d) black (color_of s d)
unfolding color_of leave
color_of-leave id d s = ground arith

stack-enter : (id : Text) (s : Search) → (enter id s).stack ≡ s.stack ++ id ∷ []
unfolding enter
stack-enter id s = refl

drop_last-snoc : (xs : List Text) (x : Text) → drop_last (xs ++ x ∷ []) ≡ xs
unfolding drop_last
drop_last-snoc [] x = refl
drop_last-snoc (a ∷ []) x = refl
drop_last-snoc (a ∷ b ∷ xs) x = ap (λ t. a ∷ t) (drop_last-snoc (b ∷ xs) x)

stack-leave :
    (id : Text) (s s' : Search) → s'.stack ≡ (enter id s).stack → (leave id s').stack ≡ s.stack
unfolding enter leave
stack-leave id s s' e = ap drop_last e ∙ drop_last-snoc s.stack id

abbrev pub is_white : Color → Bool
is_white white = true
is_white _ = false

-- Between two calls: a black node is accessible, and a gray one is on the stack.
pub record Inv (deps : Text → List Text) (s : Search) : Type 0 where
  pub safe : (d : Text) → color_of s d ≡ black → Acc (NeededBy deps) d
  pub listed : (d : Text) → color_of s d ≡ gray → Memᴰ d s.stack

-- What a call of `visit` or of its loop has done when it returns without a cycle: `done` is black,
-- the stack is as it was, no node has become white again and no black one has changed.
pub record Cleared (deps : Text → List Text) (s : Search) (done : List Text) (s' : Search)
    : Type 0 where
  pub inv : Inv deps s'
  pub stack : s'.stack ≡ s.stack
  pub keeps_black : (d : Text) → color_of s d ≡ black → color_of s' d ≡ black
  pub still_white : (d : Text) → color_of s' d ≡ white → color_of s d ≡ white
  pub finished : (d : Text) → Memᴰ d done → color_of s' d ≡ black

abbrev pub Fits : (Text → List Text) → Search → List Text → Visit → Type 0
Fits deps s done (clear s') = Cleared deps s done s'
Fits deps s done (cycle path) = IsCycle deps path
Fits deps s done exhausted = ⊥

-- How many nodes of a plan are white: what the fuel has to pay for.
unfoldable pub whites : List Text → Search → ℕ
whites everything s = count_if (λ d. is_white (color_of s d)) everything

is_white_iff : (c : Color) → is_white c ≡ true → c ≡ white
is_white_iff c h = ground arith

module _ (deps : Text → List Text) (everything : List Text) where
  Cleared-cons :
      (s s₁ s₂ : Search) (d : Text) (ds : List Text)
      → Cleared deps s (d ∷ []) s₁
      → Cleared deps s₁ ds s₂
      → Cleared deps s (d ∷ ds) s₂
  Cleared-cons s s₁ s₂ d ds a b = record {
    inv = b.inv;
    stack = b.stack ∙ a.stack;
    keeps_black = λ x h. b.keeps_black x (a.keeps_black x h);
    still_white = λ x h. a.still_white x (b.still_white x h);
    finished = both;
  }
    where
      both : (x : Text) → Memᴰ x (d ∷ ds) → color_of s₂ x ≡ black
      both x (Memᴰ.head e) = b.keeps_black x (a.finished x (Memᴰ.head e))
      both x (Memᴰ.tail m) = b.finished x m

  pub Fits-cons :
      (s s₁ : Search) (d : Text) (ds : List Text) (r : Visit)
      → Cleared deps s (d ∷ []) s₁
      → Fits deps s₁ ds r
      → Fits deps s (d ∷ ds) r
  Fits-cons s s₁ d ds (clear s₂) a b = Cleared-cons s s₁ s₂ d ds a b
  Fits-cons s s₁ d ds (cycle path) a b = b
  Fits-cons s s₁ d ds exhausted a b = b

  -- A node that is black already adds nothing.
  pub Cleared-black :
      (s : Search) (d : Text) → Inv deps s → color_of s d ≡ black → Cleared deps s (d ∷ []) s
  Cleared-black s d i h = record {
    inv = i;
    stack = refl;
    keeps_black = λ x k. k;
    still_white = λ x k. k;
    finished = only;
  }
    where
      only : (x : Text) → Memᴰ x (d ∷ []) → color_of s x ≡ black
      only x (Memᴰ.head e) = subst (λ z. color_of s z ≡ black) (sym e) h
      only x (Memᴰ.tail m) = elim m [ ]

  pub whites-le :
      (s s' : Search) (done : List Text)
      → Cleared deps s done s'
      → whites everything s' ≤ whites everything s
  unfolding whites
  whites-le s s' done c =
      count_if-le _ _ (λ d h. ap is_white (c.still_white d (is_white_iff _ h))) everything

  pub whites-enter :
      (id : Text) (s : Search)
      → color_of s id ≡ white
      → Memᴰ id everything
      → whites everything (enter id s) < whites everything s
  unfolding whites
  whites-enter id s h m =
      count_if-lt _ _ (λ d w. ground (arith, color_of-enter id d s)) id everything m
        (ground (arith, color_of-enter id id s)) (ap is_white h)

  -- Entering keeps the invariant: the node is gray and on the stack.
  pub enter-Inv : (id : Text) (s : Search) → Inv deps s → Inv deps (enter id s)
  unfolding enter
  enter-Inv id s i = record {
    safe = λ d h. i.safe d (ground (arith, color_of-enter id d s));
    listed = λ d h. elim (id ≟ d) [
      | yes e ↦ Memᴰ.append_right s.stack (Memᴰ.head (sym e))
      | no n ↦ Memᴰ.append_left (id ∷ []) (i.listed d (ground (arith, color_of-enter id d s)))
    ];
  }

  -- Leaving is reached with every dependency black, so the node is accessible.
  pub leave-Cleared :
      (id : Text) (s s' : Search)
      → Cleared deps (enter id s) (deps id) s'
      → Cleared deps s (id ∷ []) (leave id s')
  leave-Cleared id s s' c = record {
    inv = record { safe = safe; listed = listed };
    stack = popped;
    keeps_black =
        λ d h. ground (arith, color_of-leave id d s', c.keeps_black d, color_of-enter id d s);
    still_white =
        λ d h. ground (arith, color_of-leave id d s', c.still_white d, color_of-enter id d s);
    finished = finished;
  }
    where
      popped : (leave id s').stack ≡ s.stack
      popped = stack-leave id s s' c.stack

      safe : (d : Text) → color_of (leave id s') d ≡ black → Acc (NeededBy deps) d
      safe d h = elim (id ≟ d) [
        | yes e ↦
            subst (Acc (NeededBy deps)) e (Acc.intro id (λ y m. c.inv.safe y (c.finished y m)))
        | no n ↦ c.inv.safe d (ground (arith, color_of-leave id d s'))
      ]

      below : (d : Text) → ¬ (id ≡ d) → Memᴰ d (s.stack ++ id ∷ []) → Memᴰ d s.stack
      below d n m = elim (Memᴰ.append_cases s.stack m) [
        | inl k ↦ k
        | inr k ↦ absurd (n (sym (Memᴰ.eq_of_singleton k)))
      ]

      listed : (d : Text) → color_of (leave id s') d ≡ gray → Memᴰ d (leave id s').stack
      listed d h = subst (Memᴰ d) (sym popped) (
          below d (λ e. ground (arith, color_of-leave id d s'))
            (subst (Memᴰ d) (c.stack ∙ stack-enter id s)
              (c.inv.listed d (ground (arith, color_of-leave id d s')))))

      finished : (d : Text) → Memᴰ d (id ∷ []) → color_of (leave id s') d ≡ black
      finished d (Memᴰ.head e) = ground (arith, color_of-leave id d s')
      finished d (Memᴰ.tail m) = elim m [ ]
