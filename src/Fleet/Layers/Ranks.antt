-- ===== src/Fleet/Layers/Ranks.antt =====
-- The rank of a node: the length of its longest chain of dependencies.
use Prim.Native.Nat.{ℕ, suc, max}
use mathlib.Core.Path.{◌≡◌, refl, ap, ◌∙◌}
use mathlib.Core.List.{List, [], ◌∷◌, Memᴰ}
use mathlib.Core.WellFounded.{WellFounded, fix, fix-eq}
use temporal_agents.Prelude.{Text}
use temporal_agents.Fleet.Search.Walks.{NeededBy}

-- One more than the greatest rank of the list, and 0 for none.
abbrev pub above : (Text → ℕ) → List Text → ℕ
above rank [] = 0
above rank (d ∷ ds) = max (suc (rank d)) (above rank ds)

above_mem : (ds : List Text) → ((d : Text) → Memᴰ d ds → ℕ) → ℕ
above_mem [] rank = 0
above_mem (d ∷ ds) rank =
    max (suc (rank d (Memᴰ.head refl))) (above_mem ds (λ x m. rank x (Memᴰ.tail m)))

above_mem-above : (rank : Text → ℕ) (ds : List Text) → above_mem ds (λ d _. rank d) ≡ above rank ds
unfolding above_mem
above_mem-above rank [] = refl
above_mem-above rank (d ∷ ds) = ap (max (suc (rank d))) (above_mem-above rank ds)

module _ (deps : Text → List Text) (wf : WellFounded (NeededBy deps)) where
  rank_step : (a : Text) → ((d : Text) → NeededBy deps d a → ℕ) → ℕ
  rank_step a rec = above_mem (deps a) rec

  pub rank : Text → ℕ
  rank = fix wf rank_step

  pub rank-above : (a : Text) → rank a ≡ above rank (deps a)
  unfolding rank rank_step
  rank-above a = fix-eq wf rank_step a ∙ above_mem-above rank (deps a)
