-- ===== src/CodeReview/Inputs.antt =====
-- internal/codereview/domain.go: the inputs and results of the workflows, and their texts.
use Prim.Native.Nat.{ℕ, ◌%◌}
use mathlib.Core.Path.{◌≡◌, refl}
use mathlib.Core.Bool.{Bool, true, false}
use mathlib.Core.List.{List, [], ◌∷◌, ◌++◌}
use temporal_agents.Prelude.{Text, lit, Map, itoa, length, ◌==◌, if◌then◌else◌}
use temporal_agents.Settings.Catalogue.{Resolution}

-- `place.Facts`, the directories of a place.
pub record Place : Type 0 where
  pub directory : Text
  pub repository : Text

-- `instruction.Resolution`: the resolved texts by their keys.
abbrev pub Instructions : Type 0
Instructions = Map Text

-- `MaxReviewPasses`.
abbrev pub max_review_passes : ℕ
max_review_passes = 5

-- `ReviewInput`.
pub record ReviewInput : Type 0 where
  pub initiator : Text
  pub detached : Bool
  pub work_dir : Text
  pub payload : Text
  pub resets : ℕ
  pub pass : ℕ
  pub tokens_so_far : ℕ
  pub summary : Bool
  pub instructions : Instructions
  pub settings : Resolution

-- `Ending`.
pub data Ending : Type 0 where
  converged operator_accepted operator_stopped pass_cap : Ending

-- `Ending.Converged`.
unfoldable pub is_converged : Ending → Bool
is_converged converged = true
is_converged operator_accepted = false
is_converged operator_stopped = false
is_converged pass_cap = false

-- `ReviewOutcome`.
pub record ReviewOutcome : Type 0 where
  pub summary : Text
  pub converged : Bool
  pub ending : Ending

-- `EndedBy`.
unfoldable pub ended_by : Ending → Text → ReviewOutcome
unfolding is_converged
ended_by ending summary = record {
  summary = summary;
  converged = is_converged ending;
  ending = ending;
}

-- `Checkpoint`.
pub record Checkpoint : Type 0 where
  pub head_sha : Text
  pub stashed : Bool

abbrev pub no_checkpoint : Checkpoint
no_checkpoint = record { head_sha = []; stashed = false }

-- `AgentResult`.
pub record AgentResult : Type 0 where
  pub output : Text
  pub tokens : ℕ

-- `PilotInput`, less its prompt.
pub record PilotInput : Type 0 where
  pub initiator : Text
  pub work_dir : Text
  pub chain : Bool
  pub tokens_so_far : ℕ
  pub summary : Bool
  pub chain_summary : Text
  pub instructions : Instructions
  pub settings : Resolution

-- `PullRequest`, less its owner and repository.
pub record PullRequest : Type 0 where
  pub number : ℕ
  pub url : Text
  pub head_ref : Text
  pub body : Text

-- `ReviewThread`.
pub record ReviewThread : Type 0 where
  pub id : Text
  pub path : Text
  pub line : ℕ
  pub author : Text
  pub body : Text

-- `DevelopInput`.
pub record DevelopInput : Type 0 where
  pub initiator : Text
  pub work_dir : Text
  pub branch : Text
  pub worktrees_dir : Text
  pub start_point : Text
  pub merge_branches : List Text
  pub prompt : Text
  pub summary : Bool
  pub with_remote : Bool
  pub await_review : Bool
  pub settings : Resolution

-- The loop of `groupThousands`, past the first digit: the digits that are left decide on a comma.
unfoldable pub group_rest : Text → Text
group_rest [] = []
group_rest (c ∷ s) =
    let rest = group_rest s in if length (c ∷ s) % 3 == 0 then b',' ∷ c ∷ rest else c ∷ rest

unfoldable pub group_digits : Text → Text
unfolding group_rest
group_digits [] = []
group_digits (c ∷ s) = c ∷ group_rest s

-- `groupThousands`.
unfoldable pub group_thousands : ℕ → Text
unfolding group_digits
group_thousands n = group_digits (itoa n)

-- `FormatTokenTotal`.
unfoldable pub format_token_total : ℕ → Text
format_token_total total =
    lit "Total token usage across all sessions: " ++ (group_thousands total ++ lit " tokens.")

-- `withTokenTotal`.
unfoldable pub with_token_total : Text → ℕ → Text
with_token_total summary total = summary ++ (lit "\n\n" ++ format_token_total total)

-- `withDevelopStepTokens`.
unfoldable pub with_develop_step_tokens : Text → ℕ → Text
with_develop_step_tokens summary total =
    summary
    ++ (lit "\n\nDevelop step token usage: "
        ++ (group_thousands total
            ++ lit
                " tokens. The review and pilot stages report their own token totals separately."))

grouping : group_thousands 1234567 ≡ lit "1,234,567"
unfolding group_thousands itoa
grouping = refl
