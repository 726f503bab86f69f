-- ===== src/Fleet/Tokens.antt =====
-- internal/fleet/domain.go, `ParseTokenTotal`: the token count in a child's summary, found as
-- `tokenTotalPattern` finds it, which is token usage[^:]*:\s*([\d,]+)\s*tokens.
use Prim.Native.Nat.{ℕ, ◌+◌, ◌*◌, ◌-◌}
use mathlib.Core.Path.{◌≡◌, refl}
use mathlib.Core.Bool.{Bool, ◌&&◌, ◌||◌}
use mathlib.Core.List.{[], ◌∷◌}
use mathlib.Core.Option.{Option, none, some}
use temporal_agents.Prelude.{Text, lit, leb, ◌==◌, if◌then◌else◌, has_prefix, drop_prefix}

abbrev is_digit : ℕ → Bool
is_digit c = leb b'0' c && leb c b'9'

-- `\s` of a Go pattern.
abbrev is_pattern_space : ℕ → Bool
is_pattern_space c = c == 9 || c == 10 || c == 12 || c == 13 || c == 32

abbrev in_number : ℕ → Bool
in_number c = is_digit c || c == b','

drop_while : (ℕ → Bool) → Text → Text
drop_while p [] = []
drop_while p (c ∷ s) = let rest = drop_while p s in if p c then rest else c ∷ s

take_while : (ℕ → Bool) → Text → Text
take_while p [] = []
take_while p (c ∷ s) = let rest = take_while p s in if p c then c ∷ rest else []

-- The text behind the first colon.
after_colon : Text → Option Text
after_colon [] = none
after_colon (c ∷ s) = let rest = after_colon s in if c == b':' then some s else rest

abbrev nonempty_number : Text → Text → Option Text
nonempty_number [] rest = none
nonempty_number (c ∷ cs) rest =
    if has_prefix (drop_while is_pattern_space rest) (lit "tokens") then some (c ∷ cs) else none

-- The number behind the colon, if the word follows it.
number_at : Option Text → Option Text
unfolding drop_while take_while
number_at none = none
number_at (some s) =
    let t = drop_while is_pattern_space s in
    nonempty_number (take_while in_number t) (drop_while in_number t)

-- A match that begins here. `[^:]*` reaches to the first colon, and `[\d,]+` takes all that it can,
-- since what follows it begins with neither a digit nor a comma.
match_at : Text → Option Text
unfolding after_colon number_at
match_at s =
    if has_prefix s (lit "token usage")
    then number_at (after_colon (drop_prefix s (lit "token usage")))
    else none

-- `FindStringSubmatch`, the leftmost match.
find_number : Text → Option Text
unfolding match_at
find_number [] = none
find_number (c ∷ s) =
    let later = find_number s in
    elim (match_at (c ∷ s)) [ some number ↦ some number | none ↦ later ]

-- `strings.ReplaceAll(m[1], ",", "")`.
drop_commas : Text → Text
drop_commas [] = []
drop_commas (c ∷ s) = let rest = drop_commas s in if c == b',' then rest else c ∷ rest

value : ℕ → Text → ℕ
value acc [] = acc
value acc (c ∷ s) = value (acc * 10 + (c - b'0')) s

-- `strconv.Atoi` on digits, and 0 on its errors: an empty text, or a value past an int64.
abbrev atoi_or_zero : Text → ℕ
atoi_or_zero [] = 0
atoi_or_zero (c ∷ s) = if leb (value 0 (c ∷ s)) 9223372036854775807 then value 0 (c ∷ s) else 0

abbrev total_of : Option Text → ℕ
total_of none = 0
total_of (some number) = atoi_or_zero (drop_commas number)

-- `ParseTokenTotal`.
unfoldable pub parse_token_total : Text → ℕ
unfolding find_number drop_commas value
parse_token_total summary = total_of (find_number summary)

develop_step :
    parse_token_total (lit "Developed.\n\nDevelop step token usage: 1,234 tokens. The review")
    ≡ 1234
unfolding parse_token_total has_prefix drop_prefix
develop_step = refl
