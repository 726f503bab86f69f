-- ===== src/CodeReview/Develop/Seeding.antt =====
-- Seeding the branch of a node from the branches of its dependencies.
use Prim.Native.Nat.{ℕ, ◌+◌}
use mathlib.Core.Path.{◌≡◌, refl, sym, ap, ◌∙◌}
use mathlib.Core.Logic.{◌⊎◌, inl, inr}
use mathlib.Core.Bool.{Bool, true, false}
use mathlib.Core.List.{List, [], ◌∷◌}
use native.Mathlib.Omega.{arith}
use temporal_agents.Prelude.{Text, Result, ok, err}
use temporal_agents.Runs.{Failure, Stop, failed, continue_as_new, Scope}
use temporal_agents.Runs.Laws.{Outcome, Triple, >>=-Triple, ask-Triple, Triple-weaken, Triple-fails}
use temporal_agents.CodeReview.Commands.{Command, abort_merge, is_type}
use temporal_agents.CodeReview.Develop.{
  SeedAnswers, ResolvedConflict, DevelopVars, after_abort, after_resolve, after_merge, seed_one,
  seed_branches, seed_conflict_blocked,
}

-- The head that a merge, or else the resolution of its conflict, leaves the branch at.
abbrev pub merged_head : (is_conflicted : Bool) → Text → Result Failure ResolvedConflict → Text
merged_head false head r = head
merged_head true head (ok r) = r.head
merged_head true head (err e) = []

-- The tokens that a resolution has cost.
abbrev pub merged_tokens : (is_conflicted : Bool) → Result Failure ResolvedConflict → ℕ
merged_tokens false r = 0
merged_tokens true (ok r) = r.tokens
merged_tokens true (err e) = 0

abbrev pub head_of : SeedAnswers → Text
head_of a = elim a.merged [ err e ↦ [] | ok m ↦ merged_head m.conflicted m.head a.resolved ]

abbrev pub tokens_of : SeedAnswers → ℕ
tokens_of a = elim a.merged [ err e ↦ 0 | ok m ↦ merged_tokens m.conflicted a.resolved ]

-- The errors of a merge and of its abort do not say that the node is blocked.
abbrev pub PlainErrors : SeedAnswers → Type 0
PlainErrors a =
    (e : Failure)
    → (a.merged ≡ err e) ⊎ (a.aborted ≡ err e)
    → is_type e seed_conflict_blocked ≡ false

-- A node is blocked with its merge aborted, as the last command says.
abbrev pub LeftClean :
    (work_dir : Text) (aborted : Result Failure (Unit {0}))
    → Stop ⊥
    → Scope Command DevelopVars
    → Type 0
LeftClean work_dir aborted (continue_as_new i) s = ⊥
LeftClean work_dir aborted (failed e) s =
    (is_type e seed_conflict_blocked ≡ false)
    ⊎ ((aborted ≡ ok tt) × ((earlier : List Command) × (s.log ≡ abort_merge work_dir ∷ earlier)))

-- The head and the tokens after one branch.
abbrev pub IsSeeded :
    (is_conflicted : Bool) → Text → Result Failure ResolvedConflict → ℕ → Text × ℕ → Type 0
IsSeeded is_conflicted head r tokens seeded =
    (seeded.0 ≡ merged_head is_conflicted head r)
    × (seeded.1 ≡ tokens + merged_tokens is_conflicted r)

after_resolve-Outcome :
    (work_dir b head : Text) (tokens : ℕ) (aborted : Result Failure (Unit {0}))
    (r : Result Failure ResolvedConflict) (s : Scope Command DevelopVars)
    → ((e : Failure) → aborted ≡ err e → is_type e seed_conflict_blocked ≡ false)
    → Outcome
        (λ seeded _. IsSeeded true head r tokens seeded)
        (LeftClean work_dir aborted)
        (after_resolve work_dir b aborted r tokens s).0
        (after_resolve work_dir b aborted r tokens s).1
unfolding after_resolve after_abort
after_resolve-Outcome work_dir b head tokens aborted (ok r) s plain = (refl, refl)
after_resolve-Outcome work_dir b head tokens (ok _) (err e) s plain = inr (refl, (s.log, refl))
after_resolve-Outcome work_dir b head tokens (err f) (err e) s plain = inl (plain f refl)

after_merge-Triple :
    (work_dir b : Text) (a : SeedAnswers) (is_conflicted : Bool) (head : Text) (tokens : ℕ)
    → PlainErrors a
    → Triple
        (λ _. Unit {0})
        (after_merge work_dir b a is_conflicted head tokens)
        (λ seeded _. IsSeeded is_conflicted head a.resolved tokens seeded)
        (LeftClean work_dir a.aborted)
unfolding after_merge
after_merge-Triple work_dir b a false head tokens plain = record {
  ends = λ s _. (refl, omega arith);
}
after_merge-Triple work_dir b a true head tokens plain = record {
  ends = λ s _.
      after_resolve-Outcome work_dir b head tokens a.aborted a.resolved _ (λ e h. plain e (inr h));
}

seed_one-Triple :
    (work_dir b : Text) (a : SeedAnswers) (tokens : ℕ)
    → PlainErrors a
    → Triple
        (λ _. Unit {0})
        (seed_one work_dir b a tokens)
        (λ seeded _. (seeded.0 ≡ head_of a) × (seeded.1 ≡ tokens + tokens_of a))
        (LeftClean work_dir a.aborted)
unfolding seed_one
seed_one-Triple work_dir b a tokens plain =
    ask-Triple {P' = λ _. Unit {0}}
      {next = λ m. after_merge work_dir b a m.conflicted m.head tokens} _ a.merged (λ s _. tt)
      (λ e got s _. inl (plain e (inl got)))
      (λ m got.
        Triple-weaken
          (λ seeded s h. (
            h.0
                ∙ sym (
                    ap
                      (λ r. elim r [
                        | err e ↦ []
                        | ok m ↦ merged_head m.conflicted m.head a.resolved
                      ])
                      got),
            h.1
                ∙ sym (
                    ap
                      (λ r.
                        tokens
                        + elim r [ err e ↦ 0 | ok m ↦ merged_tokens m.conflicted a.resolved ])
                      got),
          ))
          (after_merge-Triple work_dir b a m.conflicted m.head tokens plain))

add_comes : (a b c : ℕ) → a + b + c ≡ a + (b + c)
add_comes a b c = omega arith

module _ (answers : List Text → SeedAnswers) where
  -- What the heads and the tokens of the branches amount to.
  pub last_head : List Text → (head : Text) → Text
  last_head [] head = head
  last_head (b ∷ bs) head = last_head bs (head_of (answers (b ∷ bs)))

  pub tokens_in : List Text → ℕ
  tokens_in [] = 0
  tokens_in (b ∷ bs) = tokens_of (answers (b ∷ bs)) + tokens_in bs

  -- An error of seeding: one of the branches.
  abbrev pub LeavesClean : (work_dir : Text) → Stop ⊥ → Scope Command DevelopVars → Type 0
  LeavesClean work_dir e s = (bs : List Text) × LeftClean work_dir (answers bs).aborted e s

  seed_branches-Triple :
      (work_dir : Text) (bs : List Text) (head : Text) (tokens : ℕ)
      → ((rest : List Text) → PlainErrors (answers rest))
      → Triple
          (λ _. Unit {0})
          (seed_branches answers work_dir bs head tokens)
          (λ seeded _. (seeded.0 ≡ last_head bs head) × (seeded.1 ≡ tokens + tokens_in bs))
          (LeavesClean work_dir)
  unfolding seed_branches last_head tokens_in
  seed_branches-Triple work_dir [] head tokens plain = record { ends = λ s _. (refl, omega arith) }
  seed_branches-Triple work_dir (b ∷ bs) head tokens plain =
      >>=-Triple {next = λ seeded. seed_branches answers work_dir bs seeded.0 seeded.1}
        (Triple-fails (λ e s h. (b ∷ bs, h))
          (seed_one-Triple work_dir b (answers (b ∷ bs)) tokens (plain (b ∷ bs))))
        (λ seeded. record {
          ends = λ s first.
              (Triple-weaken
                  {Q' = λ out _.
                    (out.0 ≡ last_head (b ∷ bs) head) × (out.1 ≡ tokens + tokens_in (b ∷ bs))}
                  (λ out u h. (
                    h.0 ∙ ap (last_head bs) first.0,
                    h.1
                        ∙ ap (λ n. n + tokens_in bs) first.1
                        ∙ add_comes tokens (tokens_of (answers (b ∷ bs))) (tokens_in bs),
                  ))
                  (seed_branches-Triple work_dir bs seeded.0 seeded.1 plain)).ends
                s tt;
        })

  -- Seeding a branch returns the head after the last of the dependencies and the tokens of all the conflicts that the agent resolved, in addition to those given. When it fails as blocked, its last command aborted the merge at hand, and that abort succeeded, so the branch is clean; this holds where the errors of the merges and of the aborts are not themselves of the blocked type.
  pub seed_branches-Outcome :
      (work_dir : Text) (bs : List Text) (head : Text) (tokens : ℕ) (s : Scope Command DevelopVars)
      → ((rest : List Text) → PlainErrors (answers rest))
      → Outcome
          (λ seeded _. (seeded.0 ≡ last_head bs head) × (seeded.1 ≡ tokens + tokens_in bs))
          (LeavesClean work_dir)
          (seed_branches answers work_dir bs head tokens s).0
          (seed_branches answers work_dir bs head tokens s).1
  seed_branches-Outcome work_dir bs head tokens s plain =
      (seed_branches-Triple work_dir bs head tokens plain).ends s tt
