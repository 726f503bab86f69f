-- ===== src/CodeReview/Branches.antt =====
-- internal/codereview/domain.go, `ValidateBranchName` and `planWorktree`: the branch and its worktree.
pub mod Inside
use Prim.Native.Nat.{ℕ, suc, zero}
use mathlib.Core.Path.{◌≡◌, refl}
use mathlib.Core.Bool.{Bool, true, false, not, ◌&&◌, ◌||◌}
use mathlib.Core.List.{List, [], ◌∷◌, ◌++◌}
use temporal_agents.Prelude.{
  Text, lit, Result, ok, err, ◌>>◌, require, same, has_prefix, ltb, ◌==◌, if◌then◌else◌,
}
use temporal_agents.CodeReview.Commands.{is_blank}

-- `strings.HasSuffix` and `strings.Contains`.
unfoldable pub has_suffix : Text → Text → Bool
has_suffix [] suffix = is_blank suffix
has_suffix (c ∷ s) suffix = let later = has_suffix s suffix in same (c ∷ s) suffix || later

unfoldable pub contains : Text → Text → Bool
contains [] part = is_blank part
contains (c ∷ s) part = let later = contains s part in has_prefix (c ∷ s) part || later

abbrev pub add_to_first : ℕ → List Text → List Text
add_to_first c [] = (c ∷ []) ∷ []
add_to_first c (t ∷ ts) = (c ∷ t) ∷ ts

-- `strings.Split(branch, "/")`.
unfoldable pub split_slash : Text → List Text
split_slash [] = [] ∷ []
split_slash (c ∷ s) =
    let rest = split_slash s in if c == b'/' then [] ∷ rest else add_to_first c rest

-- The errors, with what their message names besides the branch.
pub data BranchNameError : Type 0 where
  starts_with_dash is_absolute slash_at_end double_slash dot_at_end two_dots at_brace only_at :
      BranchNameError
  control_character empty_component : BranchNameError
  not_allowed : ℕ → BranchNameError
  dot_first lock_last : Text → BranchNameError

-- The characters that git gives a meaning.
unfoldable pub is_special : ℕ → Bool
is_special c =
    c == b' '
    || c == b'~'
    || c == b'^'
    || c == b':'
    || c == b'?'
    || c == b'*'
    || c == b'['
    || c == 92

-- The loop over the characters. One of more than one byte has no byte that is looked for.
unfoldable pub check_characters : Text → Result BranchNameError (Unit {0})
unfolding is_special
check_characters [] = ok tt
check_characters (c ∷ s) = do
  require (not (ltb c 32 || c == 127)) control_character
  require (not (is_special c)) (not_allowed c)
  check_characters s

-- The loop over the components.
unfoldable pub check_components : List Text → Result BranchNameError (Unit {0})
unfolding has_suffix
check_components [] = ok tt
check_components (c ∷ cs) = do
  require (not (is_blank c)) empty_component
  require (not (has_prefix c (lit "."))) (dot_first c)
  require (not (has_suffix c (lit ".lock"))) (lock_last c)
  check_components cs

-- What comes before the loop over the components.
unfoldable pub check_shape : Text → Result BranchNameError (Unit {0})
unfolding has_suffix contains check_characters
check_shape branch = do
  require (not (has_prefix branch (lit "/") || has_suffix branch (lit "/"))) slash_at_end
  require (not (contains branch (lit "//"))) double_slash
  require (not (has_suffix branch (lit "."))) dot_at_end
  require (not (contains branch (lit ".."))) two_dots
  require (not (contains branch (lit "@{"))) at_brace
  require (not (same branch (lit "@"))) only_at
  check_characters branch

-- `validateGitRefName`.
unfoldable pub validate_git_ref_name : Text → Result BranchNameError (Unit {0})
unfolding check_shape check_components split_slash
validate_git_ref_name branch = check_shape branch >> check_components (split_slash branch)

-- The first two checks of `ValidateBranchName`; an absolute path of Unix begins with a slash.
unfoldable pub check_start : Text → Result BranchNameError (Unit {0})
check_start branch = do
  require (not (has_prefix branch (lit "-"))) starts_with_dash
  require (not (has_prefix branch (lit "/"))) is_absolute

-- `ValidateBranchName`.
unfoldable pub validate_branch_name : Text → Result BranchNameError (Unit {0})
unfolding check_start validate_git_ref_name
validate_branch_name [] = ok tt
validate_branch_name (c ∷ s) = check_start (c ∷ s) >> validate_git_ref_name (c ∷ s)

-- `worktreeStep`.
pub data WorktreeStep : Type 0 where
  create_worktree adopt_worktree reject_worktree : WorktreeStep

-- `planWorktree`.
unfoldable pub plan_worktree : (adoptable : Bool) → (attempt : ℕ) → (exists : Bool) → WorktreeStep
plan_worktree adoptable attempt exists =
    if not adoptable || not exists
    then create_worktree
    else if ltb 1 attempt
    then adopt_worktree
    else reject_worktree
