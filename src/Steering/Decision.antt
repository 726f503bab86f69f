-- ===== src/Steering/Decision.antt =====
-- internal/steering/steering.go: what an operator may decide, and the guidance that is handed on.
pub mod Accepts
use Prim.Native.Nat.{ℕ, suc, zero, ◌*◌}
use mathlib.Core.Path.{◌≡◌, refl}
use mathlib.Core.Bool.{Bool, true, false, not, ◌&&◌, ◌||◌}
use mathlib.Core.List.{List, [], ◌∷◌, ◌++◌}
use mathlib.Core.Option.{Option, none, some}
use temporal_agents.Prelude.{
  Text, lit, same, any, leb, length, if◌then◌else◌, Result, ok, err, ◌>>=◌, ◌>>◌, require,
  trim_space,
}

-- The values of `Choice`, which is a string.
abbrev pub guide : Text
guide = lit "guide"

abbrev pub skip : Text
skip = lit "skip"

abbrev pub stop : Text
stop = lit "stop"

abbrev pub continue : Text
continue = lit "continue"

abbrev pub accept : Text
accept = lit "accept"

-- `Choices`.
unfoldable pub choices : List Text
choices = guide ∷ skip ∷ stop ∷ continue ∷ accept ∷ []

-- `ValidChoice`.
unfoldable pub valid_choice : Text → Bool
unfolding choices
valid_choice choice = any (λ known. same known choice) choices

-- `Decision`.
pub record Decision : Type 0 where
  pub choice : Text
  pub guidance : Text
  pub principal : Text

-- The errors of `Decision.Validate`.
pub data DecisionError : Type 0 where
  unknown_choice : Text → DecisionError
  carries_no_guidance : Text → DecisionError
  needs_guidance not_text : DecisionError
  too_long : ℕ → DecisionError

abbrev pub is_blank : Text → Bool
is_blank [] = true
is_blank (c ∷ s) = false

abbrev pub between : ℕ → ℕ → ℕ → Bool
between low high c = leb low c && leb c high

-- What follows the first byte of a rune: how many bytes, and the bounds of the first of them.
unfoldable pub first_byte : ℕ → Option (ℕ × (ℕ × ℕ))
first_byte c =
    if leb c 127
    then some (0, (128, 191))
    else if between 194 223 c
    then some (1, (128, 191))
    else if between 224 224 c
    then some (2, (160, 191))
    else if between 237 237 c
    then some (2, (128, 159))
    else if between 225 239 c
    then some (2, (128, 191))
    else if between 240 240 c
    then some (3, (144, 191))
    else if between 241 243 c
    then some (3, (128, 191))
    else if between 244 244 c
    then some (3, (128, 143))
    else none

-- The bytes that are still due of a rune, with the bounds of the next one, and the runes after it.
unfoldable pub runes_from : ℕ → ℕ → ℕ → Text → Bool
unfolding first_byte
runes_from zero low high [] = true
runes_from (suc due) low high [] = false
runes_from (suc due) low high (c ∷ s) = between low high c && runes_from due 128 191 s
runes_from zero low high (c ∷ s) = elim (first_byte c) [
  | none ↦ false
  | some (due, (l, h)) ↦ runes_from due l h s
]

-- `utf8.ValidString`.
unfoldable pub valid_string : Text → Bool
unfolding runes_from
valid_string s = runes_from 0 128 191 s

abbrev pub max_guidance_length : ℕ
max_guidance_length = 8 * 1024

-- The part of `Validate` for a choice that guides.
unfoldable pub validate_guidance : Text → Result DecisionError (Unit {0})
validate_guidance guidance = do
  require (not (is_blank (trim_space guidance))) needs_guidance
  require (valid_string guidance) not_text
  require (leb (length guidance) max_guidance_length) (too_long (length guidance))

-- What follows the check of the choice.
unfoldable pub validate_text : (guides : Bool) → Text → Text → Result DecisionError (Unit {0})
unfolding validate_guidance
validate_text true choice guidance = validate_guidance guidance
validate_text false choice guidance =
    require (is_blank (trim_space guidance)) (carries_no_guidance choice)

-- `Decision.Validate`.
unfoldable pub validate : Decision → Result DecisionError (Unit {0})
unfolding valid_choice validate_text
validate d = do
  require (valid_choice d.choice) (unknown_choice d.choice)
  validate_text (same d.choice guide) d.choice d.guidance

-- `Decision.Made`.
unfoldable pub made : Decision → Bool
made d = not (is_blank d.choice)

-- `Decision.Proceeds`.
unfoldable pub proceeds : Decision → Bool
proceeds d = same d.choice guide || same d.choice skip

-- The lines between the fences, and `Block`.
abbrev pub fenced : Text → Text
fenced [] = []
fenced (c ∷ s) =
    lit "--- Operator guidance ---\n" ++ (c ∷ s) ++ lit "\n--- End of operator guidance ---"

unfoldable pub block : Text → Text
block guidance = fenced (trim_space guidance)

abbrev pub before_material : Text → Text → Text
before_material [] material = material
before_material (c ∷ s) material = (c ∷ s) ++ lit "\n" ++ material

-- `WithGuidance`.
unfoldable pub with_guidance : Text → Text → Text
unfolding block
with_guidance guidance material = before_material (block guidance) material
