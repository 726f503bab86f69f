-- ===== src/Steering/Conversation/Contributors.antt =====
-- Who the contributors to a conversation are.
use mathlib.Core.Path.{◌≡◌, refl, sym, ◌∙◌, subst}
use mathlib.Core.Logic.{◌⊎◌, inl, inr, ◌↔◌, ◌≢◌}
use mathlib.Core.List.{List, [], ◌∷◌, ◌++◌, map, Memᴰ}
use mathlib.Core.List.Memᴰ
use native.Mathlib.Omega.{arith}
use temporal_agents.Prelude.{Text, has, has→Memᴰ, Memᴰ→has, trim_space, Bool-cases}
use temporal_agents.Steering.Decision.{is_blank}
use temporal_agents.Steering.Conversation.{Message, Conversation, add, add_authors, contributors}

-- Everybody who is named in a conversation, in order.
unfoldable pub named : Conversation → List Text
named c = map (λ m. m.author) c.messages ++ c.decision.principal ∷ []

-- Each member stands once.
unfoldable pub IsDistinct : List Text → Type 0
IsDistinct [] = Unit {0}
IsDistinct (x ∷ xs) = (¬ Memᴰ x xs) × IsDistinct xs

unfoldable pub add_all : List Text → List Text → List Text
unfolding add
add_all known [] = known
add_all known (p ∷ ps) = add_all (add known p) ps

add_authors-add_all :
    (known : List Text) (ms : List Message) (last : Text)
    → add (add_authors known ms) last ≡ add_all known (map (λ m. m.author) ms ++ last ∷ [])
unfolding add_authors add_all
add_authors-add_all known [] last = refl
add_authors-add_all known (m ∷ ms) last = add_authors-add_all (add known m.author) ms last

-- What one call of `add` does.
add-cases :
    (known : List Text) (p : Text)
    → (((trim_space p ≡ []) ⊎ Memᴰ (trim_space p) known) × (add known p ≡ known))
      ⊎ ((trim_space p ≢ [])
          × (¬ Memᴰ (trim_space p) known)
          × (add known p ≡ known ++ trim_space p ∷ []))
unfolding add
add-cases known p = elim (Bool-cases (is_blank (trim_space p))) [
  | inl e ↦ inl (inl (ground arith), rw e refl)
  | inr e ↦ elim (Bool-cases (has (trim_space p) known)) [
    | inl h ↦ inl (inr (has→Memᴰ (trim_space p) known h), rw (e, h) refl)
    | inr h ↦
        inr (ground arith, (λ m. ground (arith, Memᴰ→has (trim_space p) known m)), rw (e, h) refl)
  ]
]

snoc-IsDistinct :
    (xs : List Text) (x : Text) → ¬ Memᴰ x xs → IsDistinct xs → IsDistinct (xs ++ x ∷ [])
unfolding IsDistinct
snoc-IsDistinct [] x n d = (λ m. elim m [ ], tt)
snoc-IsDistinct (y ∷ ys) x n (fresh, d) = (
  λ m. elim (Memᴰ.append_cases ys m) [
    | inl at ↦ fresh at
    | inr at ↦ n (Memᴰ.head (sym (Memᴰ.eq_of_singleton at)))
  ],
  snoc-IsDistinct ys x (λ m. n (Memᴰ.tail m)) d,
)

add_all-IsDistinct : (known ps : List Text) → IsDistinct known → IsDistinct (add_all known ps)
unfolding add_all
add_all-IsDistinct known [] d = d
add_all-IsDistinct known (p ∷ ps) d = elim (add-cases known p) [
  | inl (old, e) ↦ add_all-IsDistinct (add known p) ps (subst IsDistinct (sym e) d)
  | inr (ne, new, e) ↦
      add_all-IsDistinct (add known p) ps
        (subst IsDistinct (sym e) (snoc-IsDistinct known (trim_space p) new d))
]

-- Somebody who is named has this name, and it is not blank.
unfoldable pub IsNamed : List Text → Text → Type 0
IsNamed ps name = (name ≢ []) × ((p : Text) × Memᴰ p ps × (name ≡ trim_space p))

later_IsNamed : (p : Text) (ps : List Text) (name : Text) → IsNamed ps name → IsNamed (p ∷ ps) name
unfolding IsNamed
later_IsNamed p ps name (ne, (q, m, e)) = (ne, (q, Memᴰ.tail m, e))

add_all-IsNamed :
    (known ps : List Text) (name : Text)
    → Memᴰ name (add_all known ps)
    → Memᴰ name known ⊎ IsNamed ps name
unfolding add_all
add_all-IsNamed known [] name m = inl m
add_all-IsNamed known (p ∷ ps) name m = elim (add_all-IsNamed (add known p) ps name m) [
  | inr later ↦ inr (later_IsNamed p ps name later)
  | inl at ↦ elim (add-cases known p) [
    | inl (old, e) ↦ inl (subst (Memᴰ name) e at)
    | inr (ne, new, e) ↦ elim (Memᴰ.append_cases known (subst (Memᴰ name) e at)) [
      | inl before ↦ inl before
      | inr here ↦
          let same = Memᴰ.eq_of_singleton here in
          inr (unfold IsNamed in (λ nil. ne (sym same ∙ nil), (p, Memᴰ.head refl, same)))
    ]
  ]
]

add_all-keeps :
    (known ps : List Text) (name : Text) → Memᴰ name known → Memᴰ name (add_all known ps)
unfolding add_all
add_all-keeps known [] name m = m
add_all-keeps known (p ∷ ps) name m = elim (add-cases known p) [
  | inl (old, e) ↦ add_all-keeps (add known p) ps name (subst (Memᴰ name) (sym e) m)
  | inr (ne, new, e) ↦
      add_all-keeps (add known p) ps name
        (subst (Memᴰ name) (sym e) (Memᴰ.append_left (trim_space p ∷ []) m))
]

add-Memᴰ : (known : List Text) (p : Text) → trim_space p ≢ [] → Memᴰ (trim_space p) (add known p)
add-Memᴰ known p ne = elim (add-cases known p) [
  | inl (inl blank, e) ↦ absurd (ne blank)
  | inl (inr m, e) ↦ subst (Memᴰ (trim_space p)) (sym e) m
  | inr (n, new, e) ↦ subst (Memᴰ (trim_space p)) (sym e) (Memᴰ.append_right known (Memᴰ.head refl))
]

named-add_all :
    (known ps : List Text) (p : Text)
    → Memᴰ p ps
    → trim_space p ≢ []
    → Memᴰ (trim_space p) (add_all known ps)
unfolding add_all
named-add_all known [] p m ne = elim m [ ]
named-add_all known (q ∷ ps) p (Memᴰ.head e) ne =
    subst (λ r. Memᴰ (trim_space p) (add_all (add known r) ps)) e
      (add_all-keeps (add known p) ps (trim_space p) (add-Memᴰ known p ne))
named-add_all known (q ∷ ps) p (Memᴰ.tail m) ne = named-add_all (add known q) ps p m ne

contributors-add_all : (c : Conversation) → contributors c ≡ add_all [] (named c)
unfolding contributors named
contributors-add_all c = add_authors-add_all [] c.messages c.decision.principal

contributors-IsNamed :
    (c : Conversation) (name : Text) → Memᴰ name (contributors c) → IsNamed (named c) name
contributors-IsNamed c name m =
    elim (add_all-IsNamed [] (named c) name (subst (Memᴰ name) (contributors-add_all c) m)) [
      | inl at ↦ elim at [ ]
      | inr is_named ↦ is_named
    ]

IsNamed-contributors :
    (c : Conversation) (name : Text) → IsNamed (named c) name → Memᴰ name (contributors c)
unfolding IsNamed
IsNamed-contributors c name (ne, (p, m, e)) = subst (Memᴰ name) (sym (contributors-add_all c)) (
    subst (λ n. Memᴰ n (add_all [] (named c))) (sym e)
      (named-add_all [] (named c) p m (λ nil. ne (e ∙ nil))))

-- The contributors are distinct, and they are exactly the names that, without the white space around
-- them, the authors of the messages and the one who decided have, less the blank ones.
pub contributors-IsDistinct :
    (c : Conversation)
    → IsDistinct (contributors c)
      × ((name : Text) → Memᴰ name (contributors c) ↔ IsNamed (named c) name)
contributors-IsDistinct c = (
  subst IsDistinct (sym (contributors-add_all c))
      (add_all-IsDistinct [] (named c) (unfold IsDistinct in tt)),
  λ name. (contributors-IsNamed c name, IsNamed-contributors c name),
)
