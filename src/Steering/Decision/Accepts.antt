-- ===== src/Steering/Decision/Accepts.antt =====
-- Which decisions `Decision.Validate` accepts, and what they hand to the agent.
use Prim.Native.Nat.{ℕ, ◌≤◌}
use mathlib.Core.Path.{◌≡◌, refl, sym, ap, ◌∙◌, subst}
use mathlib.Core.Logic.{◌⊎◌, inl, inr, ◌↔◌, ◌≢◌}
use mathlib.Core.Bool.{Bool, true, false, not}
use mathlib.Core.List.{List, [], ◌∷◌, Memᴰ}
use native.Mathlib.Omega.{arith}
use temporal_agents.Prelude.{
  Text, same, any, leb, length, Result, ok, ◌>>◌, require, trim_space, Bool-cases, text_discrete,
}
use temporal_agents.Steering.Decision.{
  Decision, guide, skip, stop, continue, accept, choices, valid_choice, is_blank, valid_string,
  max_guidance_length, validate_guidance, validate_text, validate, fenced, block,
}

-- The guidance is text that is not blank, and not too long.
pub record IsGuidance (guidance : Text) : Type 0 where
  pub not_blank : trim_space guidance ≢ []
  pub is_text : valid_string guidance ≡ true
  pub is_short : length guidance ≤ max_guidance_length

-- A decision to guide has guidance, and any other has none.
unfoldable pub IsAcceptable : Decision → Type 0
IsAcceptable d =
    ((d.choice ≡ guide) × IsGuidance d.guidance)
    ⊎ (Memᴰ d.choice (skip ∷ stop ∷ continue ∷ accept ∷ []) × (trim_space d.guidance ≡ []))

require-eq-ok :
    {E : Type 0} (b : Bool) (e : E) (rest : Result E (Unit {0}))
    → (require b e >> rest) ≡ ok tt
    → (b ≡ true) × (rest ≡ ok tt)
require-eq-ok true e rest h = (refl, h)
require-eq-ok false e rest h = cc

require_last : {E : Type 0} (b : Bool) (e : E) → require b e ≡ ok tt → b ≡ true
require_last true e h = refl
require_last false e h = cc

blank_iff : (s : Text) → (is_blank s ≡ true) ↔ (s ≡ [])
blank_iff s = ground arith

pub same-eq : (a b : Text) → same a b ≡ true → a ≡ b
same-eq a b h = elim (text_discrete a b) [ yes e ↦ e | no n ↦ ground arith ]

same_refl : (a : Text) → same a a ≡ true
same_refl a = ground arith

any-Memᴰ : (c : Text) (xs : List Text) → any (λ known. same known c) xs ≡ true → Memᴰ c xs
any-Memᴰ c [] h = ground arith
any-Memᴰ c (x ∷ xs) h = elim (Bool-cases (same x c)) [
  | inl e ↦ Memᴰ.head (sym (same-eq x c e))
  | inr e ↦ Memᴰ.tail (any-Memᴰ c xs (ground arith))
]

Memᴰ-any : (c : Text) (xs : List Text) → Memᴰ c xs → any (λ known. same known c) xs ≡ true
Memᴰ-any c [] m = elim m [ ]
Memᴰ-any c (x ∷ xs) (Memᴰ.head e) = ground arith
Memᴰ-any c (x ∷ xs) (Memᴰ.tail m) = ground (arith, Memᴰ-any c xs m)

not_blank_ne : (s : Text) → not (is_blank s) ≡ true → s ≢ []
not_blank_ne s h = ground arith

ne_not_blank : (s : Text) → s ≢ [] → not (is_blank s) ≡ true
ne_not_blank s h = ground arith

leb_of : (m n : ℕ) → m ≤ n → leb m n ≡ true
leb_of m n h = ground arith

clash : (b : Bool) → b ≡ true → b ≡ false → ⊥
clash b t f = ground arith

other_choice :
    (c : Text)
    → same c guide ≡ false
    → Memᴰ c (guide ∷ skip ∷ stop ∷ continue ∷ accept ∷ [])
    → Memᴰ c (skip ∷ stop ∷ continue ∷ accept ∷ [])
other_choice c e (Memᴰ.head same_guide) = ground arith
other_choice c e (Memᴰ.tail m) = m

other-guide : (c : Text) → Memᴰ c (skip ∷ stop ∷ continue ∷ accept ∷ []) → same c guide ≡ false
unfolding text_discrete
other-guide c (Memᴰ.head e) = rw e refl
other-guide c (Memᴰ.tail (Memᴰ.head e)) = rw e refl
other-guide c (Memᴰ.tail (Memᴰ.tail (Memᴰ.head e))) = rw e refl
other-guide c (Memᴰ.tail (Memᴰ.tail (Memᴰ.tail (Memᴰ.head e)))) = rw e refl
other-guide c (Memᴰ.tail (Memᴰ.tail (Memᴰ.tail (Memᴰ.tail m)))) = elim m [ ]

accepted-IsGuidance : (guidance : Text) → validate_guidance guidance ≡ ok tt → IsGuidance guidance
unfolding validate_guidance
accepted-IsGuidance guidance h =
    let (a, h1) = require-eq-ok (not (is_blank (trim_space guidance))) _ _ h in
    let (b, h2) = require-eq-ok (valid_string guidance) _ _ h1 in
    let c = require_last (leb (length guidance) max_guidance_length) _ h2 in
    record { not_blank = not_blank_ne _ a; is_text = b; is_short = ground arith }

IsGuidance-accepted : (guidance : Text) → IsGuidance guidance → validate_guidance guidance ≡ ok tt
unfolding validate_guidance
IsGuidance-accepted guidance g =
    rw
      (
        ne_not_blank (trim_space guidance) g.not_blank,
        g.is_text,
        leb_of (length guidance) max_guidance_length g.is_short,
      )
      refl

-- Past the check of the choice.
validate-text :
    (d : Decision)
    → (validate d ≡ ok tt) ↔ (
        (valid_choice d.choice ≡ true)
        × (validate_text (same d.choice guide) d.choice d.guidance ≡ ok tt))
unfolding validate
validate-text d = (λ h. require-eq-ok (valid_choice d.choice) _ _ h, λ (known, h). rw known h)

validate-IsAcceptable : (d : Decision) → validate d ≡ ok tt → IsAcceptable d
unfolding IsAcceptable validate_text valid_choice choices
validate-IsAcceptable d h =
    let (known, rest) = (validate-text d).0 h in
    elim (Bool-cases (same d.choice guide)) [
      | inl e ↦ inl (
        same-eq d.choice guide e,
        accepted-IsGuidance d.guidance
            (subst (λ b. validate_text b d.choice d.guidance ≡ ok tt) e rest),
      )
      | inr e ↦ inr (
        other_choice d.choice e (any-Memᴰ d.choice choices known),
        (blank_iff (trim_space d.guidance)).0
            (require_last _ _ (subst (λ b. validate_text b d.choice d.guidance ≡ ok tt) e rest)),
      )
    ]

IsAcceptable-validate : (d : Decision) → IsAcceptable d → validate d ≡ ok tt
unfolding IsAcceptable validate_text valid_choice choices
IsAcceptable-validate d (inl (e, g)) = (validate-text d).1 (
  Memᴰ-any d.choice choices (Memᴰ.head e),
  subst (λ b. validate_text b d.choice d.guidance ≡ ok tt)
      (sym (ap (λ c. same c guide) e ∙ same_refl guide)) (IsGuidance-accepted d.guidance g),
)
IsAcceptable-validate d (inr (m, e)) = (validate-text d).1 (
  Memᴰ-any d.choice choices (Memᴰ.tail m),
  subst (λ b. validate_text b d.choice d.guidance ≡ ok tt) (sym (other-guide d.choice m))
      (rw e refl),
)

-- A decision is accepted exactly when it guides and carries guidance, that is text with something in
-- it besides white space, valid as UTF-8 and of at most 8192 bytes, or when it is one of the
-- four other choices and carries nothing but white space.
pub validate-ok_iff : (d : Decision) → (validate d ≡ ok tt) ↔ IsAcceptable d
validate-ok_iff d = (validate-IsAcceptable d, IsAcceptable-validate d)

fenced_ne : (s : Text) → s ≢ [] → fenced s ≢ []
fenced_ne [] n = absurd (n refl)
fenced_ne (c ∷ s) n = ground arith

block_cases : (d : Decision) → IsAcceptable d → (block d.guidance ≢ []) ↔ (d.choice ≡ guide)
unfolding IsAcceptable block
block_cases d (inl (e, g)) = (λ h. e, λ h. fenced_ne (trim_space d.guidance) g.not_blank)
block_cases d (inr (m, blank)) = (
  λ h. absurd (h (ap fenced blank)),
  λ e. absurd (
      clash (same d.choice guide) (ap (λ c. same c guide) e ∙ same_refl guide)
        (other-guide d.choice m)),
)

-- An accepted decision hands a block of guidance to the agent exactly when it guides.
pub block-nil_iff :
    (d : Decision) → validate d ≡ ok tt → (block d.guidance ≢ []) ↔ (d.choice ≡ guide)
block-nil_iff d h = block_cases d (validate-IsAcceptable d h)
