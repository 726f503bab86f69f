-- ===== src/CodeReview/Comments.antt =====
-- internal/codereview/domain.go, `formatComments`: the material that a pass over a pull request acts on.
use Prim.Native.Nat.{ℕ, suc}
use mathlib.Core.List.{List, [], ◌∷◌, ◌++◌}
use temporal_agents.Prelude.{Text, lit, if◌then◌else◌, ltb, trim_space, itoa}
use temporal_agents.CodeReview.Inputs.{ReviewThread}
use temporal_agents.CodeReview.Commands.{is_blank}

-- `formatThread`.
unfoldable pub format_thread : ℕ → ReviewThread → Text
format_thread n t =
    lit "--- Comment "
    ++ (itoa n
        ++ ((if is_blank t.path
              then []
              else lit " ("
                ++ (t.path ++ ((if ltb 0 t.line then b':' ∷ itoa t.line else []) ++ lit ")")))
            ++ ((if is_blank t.author then [] else lit " by @" ++ t.author)
                ++ (lit " ---\n" ++ (trim_space t.body ++ lit "\n")))))

unfoldable pub format_threads : ℕ → List ReviewThread → Text
unfolding format_thread
format_threads n [] = []
format_threads n (t ∷ ts) = lit "\n" ++ (format_thread n t ++ format_threads (suc n) ts)

-- `formatComments`.
unfoldable pub format_comments : Text → List ReviewThread → Text
unfolding format_threads
format_comments description threads =
    let d = trim_space description in
    (if is_blank d then [] else lit "\n--- Pull request description ---\n" ++ (d ++ lit "\n"))
    ++ format_threads 1 threads
