-- ===== src/Hub/Derive/Reasons.antt =====
-- `statusFromDependencies`: when a node is paused, to do, or waiting.
use mathlib.Core.Path.{◌≡◌, refl, sym, ap, ◌∙◌, subst}
use mathlib.Core.Logic.{◌⊎◌, inl, inr, ◌≢◌}
use mathlib.Core.Bool.{true, false}
use mathlib.Core.List.{List, [], ◌∷◌, Memᴰ}
use mathlib.Core.Option.{Option, none, some}
use native.Mathlib.Omega.{arith}
use temporal_agents.Prelude.{Text, Map, lookup}
use temporal_agents.Hub.Status.{
  WorkStatus, in_progress, paused, waiting_input, waiting, done, todo, failed,
}
use temporal_agents.Hub.Derive.{after_dependency, explain, status_from_dependencies}

-- A prerequisite that did not succeed, and will not.
unfoldable pub IsStopped : Option WorkStatus → Type 0
IsStopped status = (status ≡ some failed) ⊎ ((status ≡ some paused) ⊎ (status ≡ some waiting_input))

unfoldable pub HasStopped : Map WorkStatus → List Text → Type 0
unfolding IsStopped lookup
HasStopped statuses deps = (dep : Text) × Memᴰ dep deps × IsStopped (lookup dep statuses)

-- Why a node that was not started has its status.
unfoldable pub Because : Map WorkStatus → List Text → WorkStatus → Type 0
unfolding HasStopped
Because statuses deps paused = HasStopped statuses deps
Because statuses deps todo = (dep : Text) → Memᴰ dep deps → lookup dep statuses ≡ some done
Because statuses deps waiting =
    (¬ HasStopped statuses deps)
    × ((dep : Text) × Memᴰ dep deps × (lookup dep statuses ≢ some done))
Because statuses deps _ = ⊥

after_dependency-cases :
    (o : Option WorkStatus) (a b : WorkStatus)
    → (IsStopped o × (after_dependency o a b ≡ paused))
      ⊎ (((o ≡ some done) × (after_dependency o a b ≡ a))
          ⊎ ((¬ IsStopped o) × (o ≢ some done) × (after_dependency o a b ≡ b)))
unfolding after_dependency IsStopped
after_dependency-cases none a b = ground arith
after_dependency-cases (some s) a b = ground arith

cons_HasStopped :
    (statuses : Map WorkStatus) (dep : Text) (deps : List Text)
    → ¬ IsStopped (lookup dep statuses)
    → HasStopped statuses (dep ∷ deps)
    → HasStopped statuses deps
unfolding HasStopped
cons_HasStopped statuses dep deps n (d, Memᴰ.head e, stopped) =
    absurd (n (subst (λ x. IsStopped (lookup x statuses)) e stopped))
cons_HasStopped statuses dep deps n (d, Memᴰ.tail m, stopped) = (d, m, stopped)

tail_HasStopped :
    (statuses : Map WorkStatus) (dep : Text) (deps : List Text)
    → HasStopped statuses deps
    → HasStopped statuses (dep ∷ deps)
unfolding HasStopped
tail_HasStopped statuses dep deps (d, m, stopped) = (d, Memᴰ.tail m, stopped)

head_HasStopped :
    (statuses : Map WorkStatus) (dep : Text) (deps : List Text)
    → IsStopped (lookup dep statuses)
    → HasStopped statuses (dep ∷ deps)
unfolding HasStopped
head_HasStopped statuses dep deps stopped = (dep, Memᴰ.head refl, stopped)

done_lem : (o : Option WorkStatus) → o ≡ some done → ¬ IsStopped o
unfolding IsStopped
done_lem o e stopped = ground arith

after_HasStopped :
    {r rest : WorkStatus} (statuses : Map WorkStatus) (dep : Text) (deps : List Text)
    → r ≡ rest
    → ¬ IsStopped (lookup dep statuses)
    → ((rest ≡ paused) × HasStopped statuses deps)
      ⊎ ((rest ≡ waiting) × (¬ HasStopped statuses deps))
    → ((r ≡ paused) × HasStopped statuses (dep ∷ deps))
      ⊎ ((r ≡ waiting) × (¬ HasStopped statuses (dep ∷ deps)))
after_HasStopped statuses dep deps e n (inl (p, h)) =
    inl (e ∙ p, tail_HasStopped statuses dep deps h)
after_HasStopped statuses dep deps e n (inr (w, h)) =
    inr (e ∙ w, λ k. h (cons_HasStopped statuses dep deps n k))

-- Once a prerequisite is unfinished, the loop only looks for one that has stopped.
explain_unready :
    (statuses : Map WorkStatus) (deps : List Text)
    → ((explain statuses deps false ≡ paused) × HasStopped statuses deps)
      ⊎ ((explain statuses deps false ≡ waiting) × (¬ HasStopped statuses deps))
unfolding explain
explain_unready statuses [] = inr (refl, unfold HasStopped in λ (d, m, s). elim m [ ])
explain_unready statuses (dep ∷ deps) =
    let rest = explain statuses deps false in
    elim (after_dependency-cases (lookup dep statuses) rest rest) [
      | inl (stopped, e) ↦ inl (e, head_HasStopped statuses dep deps stopped)
      | inr (inl (is_done, e)) ↦
          after_HasStopped statuses dep deps e (done_lem _ is_done) (explain_unready statuses deps)
      | inr (inr (not_stopped, n, e)) ↦
          after_HasStopped statuses dep deps e not_stopped (explain_unready statuses deps)
    ]

cons_done :
    (statuses : Map WorkStatus) (dep : Text) (deps : List Text)
    → lookup dep statuses ≡ some done
    → ((d : Text) → Memᴰ d deps → lookup d statuses ≡ some done)
    → (d : Text) → Memᴰ d (dep ∷ deps)
    → lookup d statuses ≡ some done
cons_done statuses dep deps e b d (Memᴰ.head same) = ap (λ k. lookup k statuses) same ∙ e
cons_done statuses dep deps e b d (Memᴰ.tail m) = b d m

cons_Because :
    (statuses : Map WorkStatus) (dep : Text) (deps : List Text) (s : WorkStatus)
    → lookup dep statuses ≡ some done
    → Because statuses deps s
    → Because statuses (dep ∷ deps) s
unfolding Because
cons_Because statuses dep deps paused e b = tail_HasStopped statuses dep deps b
cons_Because statuses dep deps todo e b = cons_done statuses dep deps e b
cons_Because statuses dep deps waiting e (none_stopped, (d, m, n)) =
    (λ h. none_stopped (cons_HasStopped statuses dep deps (done_lem _ e) h), (d, Memᴰ.tail m, n))
cons_Because statuses dep deps in_progress e b = b
cons_Because statuses dep deps waiting_input e b = b
cons_Because statuses dep deps done e b = b
cons_Because statuses dep deps failed e b = b

explain-Because :
    (statuses : Map WorkStatus) (deps : List Text)
    → Because statuses deps (explain statuses deps true)
unfolding explain Because
explain-Because statuses [] = λ d m. elim m [ ]
explain-Because statuses (dep ∷ deps) =
    elim (after_dependency-cases (lookup dep statuses) (explain statuses deps true)
      (explain statuses deps false)) [
        | inl (stopped, e) ↦
            subst (Because statuses (dep ∷ deps)) (sym e)
              (head_HasStopped statuses dep deps stopped)
        | inr (inl (is_done, e)) ↦
            subst (Because statuses (dep ∷ deps)) (sym e)
              (cons_Because statuses dep deps _ is_done (explain-Because statuses deps))
        | inr (inr (not_stopped, n, e)) ↦ elim (explain_unready statuses deps) [
          | inl (p, h) ↦
              subst (Because statuses (dep ∷ deps)) (sym (e ∙ p))
                (tail_HasStopped statuses dep deps h)
          | inr (w, h) ↦
              subst (Because statuses (dep ∷ deps)) (sym (e ∙ w))
                (λ k. h (cons_HasStopped statuses dep deps not_stopped k), (dep, Memᴰ.head refl, n))
        ]
      ]

pub status_from_dependencies-Because :
    (statuses : Map WorkStatus) (deps : List Text)
    → Because statuses deps (status_from_dependencies deps statuses)
unfolding status_from_dependencies
status_from_dependencies-Because statuses deps = explain-Because statuses deps
