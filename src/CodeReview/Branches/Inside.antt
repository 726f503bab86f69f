-- ===== src/CodeReview/Branches/Inside.antt =====
-- A branch that is accepted names a path below the directory of the worktrees.
use Prim.Native.Nat.{ℕ}
use mathlib.Core.Path.{◌≡◌, refl, subst, sym, ap, ◌∙◌}
use mathlib.Core.Logic.{inl, inr}
use mathlib.Core.Bool.{false}
use mathlib.Core.List.{List, Memᴰ, [], ◌∷◌}
use native.Mathlib.Omega.{arith}
use temporal_agents.Prelude.{
  Text, lit, join, Result, ok, err, ◌>>◌, has_prefix, ◌==◌, ==_iff, Bool-cases,
}
use temporal_agents.CodeReview.Commands.{is_blank}
use temporal_agents.CodeReview.Branches.{
  BranchNameError, has_suffix, add_to_first, split_slash, check_components, check_shape,
  check_start, validate_git_ref_name, validate_branch_name,
}

-- A component that a path can have below a directory: neither it nor a directory above it.
pub record StaysBelow (c : Text) : Type 0 where
  pub not_empty : is_blank c ≡ false
  pub no_dot : has_prefix c (lit ".") ≡ false
  pub no_lock : has_suffix c (lit ".lock") ≡ false

check_components-cons :
    (d : Text) (ds : List Text)
    → check_components (d ∷ ds) ≡ ok tt
    → (is_blank d ≡ false)
      × (has_prefix d (lit ".") ≡ false)
      × (has_suffix d (lit ".lock") ≡ false)
      × (check_components ds ≡ ok tt)
unfolding check_components
check_components-cons d ds h = ground arith

check_components-ok :
    (cs : List Text) (c : Text) → check_components cs ≡ ok tt → Memᴰ c cs → StaysBelow c
check_components-ok [] c h member = elim member [ ]
check_components-ok (d ∷ ds) c h (Memᴰ.head e) =
    let (not_empty, no_dot, no_lock, rest) = check_components-cons d ds h in
    subst StaysBelow (sym e) (record { not_empty = not_empty; no_dot = no_dot; no_lock = no_lock })
check_components-ok (d ∷ ds) c h (Memᴰ.tail later) =
    let (not_empty, no_dot, no_lock, rest) = check_components-cons d ds h in
    check_components-ok ds c rest later

-- The components are what the slashes of a text separate.
split_slash-cons : (s : Text) → (t : Text) × (ts : List Text) × (split_slash s ≡ t ∷ ts)
unfolding split_slash
split_slash-cons [] = ([], [], refl)
split_slash-cons (c ∷ s) = elim (Bool-cases (c == b'/')) [
  | inl slash ↦ ([], split_slash s, rw slash refl)
  | inr other ↦ let (t, ts, e) = split_slash-cons s in (c ∷ t, ts, rw other (ap (add_to_first c) e))
]

join-slash :
    (t : Text) (ts : List Text) → join (lit "/") ([] ∷ t ∷ ts) ≡ b'/' ∷ join (lit "/") (t ∷ ts)
unfolding join
join-slash t ts = refl

join-add_to_first :
    (c : ℕ) (ts : List Text) → join (lit "/") (add_to_first c ts) ≡ c ∷ join (lit "/") ts
unfolding join
join-add_to_first c [] = refl
join-add_to_first c (t ∷ []) = refl
join-add_to_first c (t ∷ u ∷ ts) = refl

joined :
    (s t : Text) (ts : List Text)
    → split_slash s ≡ t ∷ ts
    → join (lit "/") (split_slash s) ≡ s
    → join (lit "/") ([] ∷ split_slash s) ≡ b'/' ∷ s
joined s t ts e whole =
    ap (λ us. join (lit "/") ([] ∷ us)) e
    ∙ join-slash t ts
    ∙ ap (λ us. b'/' ∷ join (lit "/") us) (sym e)
    ∙ ap (λ u. b'/' ∷ u) whole

join-split_slash : (s : Text) → join (lit "/") (split_slash s) ≡ s
unfolding split_slash join
join-split_slash [] = refl
join-split_slash (c ∷ s) = elim (Bool-cases (c == b'/')) [
  | inl slash ↦
      let (t, ts, e) = split_slash-cons s in
      rw slash
        (joined s t ts e (join-split_slash s) ∙ ap (λ x. x ∷ s) (sym ((==_iff c b'/').0 slash)))
  | inr other ↦
      rw other (join-add_to_first c (split_slash s) ∙ ap (λ t. c ∷ t) (join-split_slash s))
]

-- A check that comes after another.
then-ok : (m rest : Result BranchNameError (Unit {0})) → (m >> rest) ≡ ok tt → rest ≡ ok tt
then-ok (ok _) rest h = h
then-ok (err e) rest h = cc

check_ref_name :
    (branch : Text)
    → validate_git_ref_name branch ≡ ok tt
    → check_components (split_slash branch) ≡ ok tt
unfolding validate_git_ref_name
check_ref_name branch h = then-ok (check_shape branch) (check_components (split_slash branch)) h

check_branch_name :
    (branch : Text)
    → is_blank branch ≡ false
    → validate_branch_name branch ≡ ok tt
    → check_components (split_slash branch) ≡ ok tt
unfolding validate_branch_name
check_branch_name [] named h = cc
check_branch_name (c ∷ s) named h =
    check_ref_name (c ∷ s) (then-ok (check_start (c ∷ s)) (validate_git_ref_name (c ∷ s)) h)

-- A branch name that is given and accepted is a path that stays below the directory of the worktrees: it is its components, joined by slashes, and none of them is empty, begins with a dot, as `.` and `..` do, or is a lock file.
pub validate_branch_name-StaysBelow :
    (branch c : Text)
    → is_blank branch ≡ false
    → validate_branch_name branch ≡ ok tt
    → Memᴰ c (split_slash branch)
    → StaysBelow c × (join (lit "/") (split_slash branch) ≡ branch)
validate_branch_name-StaysBelow branch c named h member = (
  check_components-ok (split_slash branch) c (check_branch_name branch named h) member,
  join-split_slash branch,
)
