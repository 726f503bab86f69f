-- ===== src/Prelude/Spaces.antt =====
-- `strings.TrimSpace` on the bytes of a UTF-8 text.
use Prim.Native.Nat.{ℕ}
use mathlib.Core.Path.{◌≡◌, refl}
use mathlib.Core.Bool.{Bool, ◌&&◌, ◌||◌}
use mathlib.Core.List.{[], ◌∷◌, reverse}
use temporal_agents.Prelude.Tests.{leb, ◌==◌, if◌then◌else◌}
use temporal_agents.Prelude.Texts.{Text, lit}

-- Tab, newline, vertical tab, form feed, carriage return and space.
abbrev pub is_ascii_space : ℕ → Bool
is_ascii_space a = (leb 9 a && leb a 13) || a == 32

-- U+0085 and U+00A0.
abbrev pub is_space_2 : ℕ → ℕ → Bool
is_space_2 a b = a == 0xc2 && (b == 0x85 || b == 0xa0)

-- U+1680, U+2000 to U+200A, U+2028, U+2029, U+202F, U+205F and U+3000.
abbrev pub is_space_3 : ℕ → ℕ → ℕ → Bool
is_space_3 a b c =
    (a == 0xe1 && b == 0x9a && c == 0x80)
    || (a == 0xe2
        && b == 0x80
        && ((leb 0x80 c && leb c 0x8a) || c == 0xa8 || c == 0xa9 || c == 0xaf))
    || (a == 0xe2 && b == 0x81 && c == 0x9f)
    || (a == 0xe3 && b == 0x80 && c == 0x80)

-- Drops white space of one, two and three bytes while there is some.
unfoldable pub drop_spaces : (ℕ → ℕ → Bool) → (ℕ → ℕ → ℕ → Bool) → Text → Text
drop_spaces two three [] = []
drop_spaces two three (a ∷ []) = if is_ascii_space a then [] else a ∷ []
drop_spaces two three (a ∷ b ∷ []) =
    let after_one = drop_spaces two three (b ∷ []) in
    if is_ascii_space a then after_one else if two a b then [] else a ∷ b ∷ []
drop_spaces two three (a ∷ b ∷ c ∷ rest) =
    let after_one = drop_spaces two three (b ∷ c ∷ rest) in
    let after_two = drop_spaces two three (c ∷ rest) in
    let after_three = drop_spaces two three rest in
    if is_ascii_space a
    then after_one
    else if two a b
    then after_two
    else if three a b c
    then after_three
    else a ∷ b ∷ c ∷ rest

-- The end is trimmed on the bytes read backwards.
unfoldable pub trim_space : Text → Text
unfolding drop_spaces
trim_space s = reverse (
    drop_spaces (λ b a. is_space_2 a b) (λ c b a. is_space_3 a b c)
      (reverse (drop_spaces is_space_2 is_space_3 s)))

trim_space_example : trim_space (lit " \t go \n") ≡ lit "go"
unfolding trim_space
trim_space_example = refl
