-- ===== src/Steering/Session/Answers.antt =====
-- What answers a round, apart from the code, and that the loop of a session tests just that.
use mathlib.Core.Path.{◌≡◌, refl}
use mathlib.Core.Logic.{◌⊎◌, ◌≢◌, inl, inr}
use mathlib.Core.Bool.{Bool, true, false, ◌||◌}
use mathlib.Core.List.{List, Memᴰ, [], ◌∷◌}
use native.Mathlib.Omega.{arith}
use temporal_agents.Prelude.{Text, ok, same}
use temporal_agents.Steering.Decision.{
  Decision, guide, skip, stop, continue, accept, validate, made,
}
use temporal_agents.Steering.Decision.Accepts.{IsAcceptable, same-eq, validate-ok_iff}
use temporal_agents.Steering.Rounds.{
  Round, local_review, remote_comments, pass_limit, validate_decision, check_offered, is_offered,
}
use temporal_agents.Steering.Session.{is_decisive}

-- What a round offers.
abbrev pub offers : Round → List Text
offers pass_limit = continue ∷ accept ∷ stop ∷ []
offers local_review = guide ∷ skip ∷ stop ∷ []
offers remote_comments = guide ∷ skip ∷ stop ∷ []

-- What answers a round: an acceptable decision whose choice the round offers.
pub record IsAnswer (round : Round) (d : Decision) : Type 0 where
  pub is_acceptable : IsAcceptable d
  pub is_one : Memᴰ d.choice (offers round)

any_of_three : (a b c : Bool) → (a || b || c) ≡ true → (a ≡ true) ⊎ (b ≡ true) ⊎ (c ≡ true)
any_of_three a b c h = ground arith

test-Memᴰ : (x y z c : Text) → (same c x || same c y || same c z) ≡ true → Memᴰ c (x ∷ y ∷ z ∷ [])
test-Memᴰ x y z c h = elim (any_of_three (same c x) (same c y) (same c z) h) [
  | inl e ↦ Memᴰ.head (same-eq c x e)
  | inr (inl e) ↦ Memᴰ.tail (Memᴰ.head (same-eq c y e))
  | inr (inr e) ↦ Memᴰ.tail (Memᴰ.tail (Memᴰ.head (same-eq c z e)))
]

Memᴰ-test : (x y z c : Text) → Memᴰ c (x ∷ y ∷ z ∷ []) → (same c x || same c y || same c z) ≡ true
Memᴰ-test x y z c (Memᴰ.head e) = ground arith
Memᴰ-test x y z c (Memᴰ.tail (Memᴰ.head e)) = ground arith
Memᴰ-test x y z c (Memᴰ.tail (Memᴰ.tail (Memᴰ.head e))) = ground arith
Memᴰ-test x y z c (Memᴰ.tail (Memᴰ.tail (Memᴰ.tail m))) = elim m [ ]

is_offered-Memᴰ : (round : Round) (c : Text) → is_offered round c ≡ true → Memᴰ c (offers round)
unfolding is_offered
is_offered-Memᴰ pass_limit c h = test-Memᴰ continue accept stop c h
is_offered-Memᴰ local_review c h = test-Memᴰ guide skip stop c h
is_offered-Memᴰ remote_comments c h = test-Memᴰ guide skip stop c h

Memᴰ-is_offered : (round : Round) (c : Text) → Memᴰ c (offers round) → is_offered round c ≡ true
unfolding is_offered
Memᴰ-is_offered pass_limit c m = Memᴰ-test continue accept stop c m
Memᴰ-is_offered local_review c m = Memᴰ-test guide skip stop c m
Memᴰ-is_offered remote_comments c m = Memᴰ-test guide skip stop c m

acceptable-made : (d : Decision) → IsAcceptable d → made d ≡ true
unfolding IsAcceptable made
acceptable-made d (inl h) = rw h.0 refl
acceptable-made d (inr (Memᴰ.head e, b)) = rw e refl
acceptable-made d (inr (Memᴰ.tail (Memᴰ.head e), b)) = rw e refl
acceptable-made d (inr (Memᴰ.tail (Memᴰ.tail (Memᴰ.head e)), b)) = rw e refl
acceptable-made d (inr (Memᴰ.tail (Memᴰ.tail (Memᴰ.tail (Memᴰ.head e))), b)) = rw e refl
acceptable-made d (inr (Memᴰ.tail (Memᴰ.tail (Memᴰ.tail (Memᴰ.tail m))), b)) = elim m [ ]

tested :
    (round : Round) (d : Decision)
    → is_decisive round d ≡ true
    → (validate d ≡ ok tt) × (is_offered round d.choice ≡ true)
unfolding is_decisive validate_decision check_offered
tested round d h = ground arith

passes :
    (round : Round) (d : Decision)
    → made d ≡ true
    → validate d ≡ ok tt
    → is_offered round d.choice ≡ true
    → is_decisive round d ≡ true
unfolding is_decisive validate_decision check_offered
passes round d m v o = rw (m, v, o) refl

-- The test of the loop is passed by the answers of its round, and by nothing else.
pub is_decisive-IsAnswer :
    (round : Round) (d : Decision) → is_decisive round d ≡ true → IsAnswer round d
is_decisive-IsAnswer round d h =
    let (valid, offered) = tested round d h in
    record {
      is_acceptable = (validate-ok_iff d).0 valid;
      is_one = is_offered-Memᴰ round d.choice offered;
    }

pub IsAnswer-is_decisive :
    (round : Round) (d : Decision) → IsAnswer round d → is_decisive round d ≡ true
IsAnswer-is_decisive round d h =
    passes round d (acceptable-made d h.is_acceptable) ((validate-ok_iff d).1 h.is_acceptable)
      (Memᴰ-is_offered round d.choice h.is_one)

clash : (b : Bool) → b ≡ true → b ≡ false → ⊥
clash b t f = ground arith

pub not_decisive-IsAnswer :
    (round : Round) (d : Decision) → is_decisive round d ≡ false → ¬ IsAnswer round d
not_decisive-IsAnswer round d other answer =
    clash (is_decisive round d) (IsAnswer-is_decisive round d answer) other

made-ne : (d : Decision) → made d ≡ true → d.choice ≢ []
unfolding made
made-ne d h e = ground arith

-- An answer has a choice.
pub IsAnswer-ne : (round : Round) (d : Decision) → IsAnswer round d → d.choice ≢ []
IsAnswer-ne round d h = made-ne d (acceptable-made d h.is_acceptable)
