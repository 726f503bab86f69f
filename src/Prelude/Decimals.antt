-- ===== src/Prelude/Decimals.antt =====
-- `strconv.Itoa` on a number that is not negative.
use Prim.Native.Nat.{ℕ, suc, zero, ◌+◌, ◌/◌, ◌%◌}
use mathlib.Core.Path.{◌≡◌, refl}
use mathlib.Core.List.{[], ◌∷◌}
use temporal_agents.Prelude.Tests.{ltb, if◌then◌else◌}
use temporal_agents.Prelude.Texts.{Text}

-- The digits before `acc`. A number below its fuel has no more digits than that.
unfoldable pub digits : ℕ → ℕ → Text → Text
digits zero n acc = acc
digits (suc fuel) n acc =
    let more = digits fuel (n / 10) ((b'0' + n % 10) ∷ acc) in
    if ltb n 10 then (b'0' + n) ∷ acc else more

unfoldable pub itoa : ℕ → Text
unfolding digits
itoa n = digits (suc n) n []

itoa_test : itoa 1204 ≡ b'1' ∷ b'2' ∷ b'0' ∷ b'4' ∷ []
unfolding itoa
itoa_test = refl
