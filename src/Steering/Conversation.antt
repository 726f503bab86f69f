-- ===== src/Steering/Conversation.antt =====
-- internal/steering/session.go: the conversation that leads to a decision.
pub mod Contributors
pub mod Messages
use Prim.Native.Nat.{ℕ, ◌+◌}
use mathlib.Core.Path.{◌≡◌, refl, sym, ap, ◌∙◌, subst}
use mathlib.Core.Logic.{◌⊎◌, inl, inr, ◌↔◌, ◌≢◌}
use mathlib.Core.Bool.{Bool, true, false, not, ◌||◌}
use mathlib.Core.List.{List, [], ◌∷◌, ◌++◌, map, Memᴰ}
use mathlib.Core.List.Memᴰ
use native.Mathlib.Omega.{arith}
use temporal_agents.Prelude.{Text, has, has→Memᴰ, Memᴰ→has, if◌then◌else◌, trim_space, Bool-cases}
use temporal_agents.Steering.Decision.{is_blank, Decision}

-- `Message`, less its time.
pub record Message : Type 0 where
  pub session_id : Text
  pub sequence : ℕ
  pub role : Text
  pub author : Text
  pub text : Text
  pub tokens : ℕ

-- `Conversation`, with the decision of its session.
pub record Conversation : Type 0 where
  pub decision : Decision
  pub messages : List Message

unfoldable pub total_from : ℕ → List Message → ℕ
total_from total [] = total
total_from total (m ∷ ms) = total_from (total + m.tokens) ms

-- `Conversation.Tokens`.
unfoldable pub tokens : Conversation → ℕ
unfolding total_from
tokens c = total_from 0 c.messages

-- The closure `add` of `Contributors`. `seen` holds the principals that stand in `contributors`.
unfoldable pub add : List Text → Text → List Text
unfolding has
add contributors principal =
    let name = trim_space principal in
    if is_blank name || has name contributors then contributors else contributors ++ name ∷ []

unfoldable pub add_authors : List Text → List Message → List Text
unfolding add
add_authors contributors [] = contributors
add_authors contributors (m ∷ ms) = add_authors (add contributors m.author) ms

-- `Conversation.Contributors`.
unfoldable pub contributors : Conversation → List Text
unfolding add_authors add
contributors c = add (add_authors [] c.messages) c.decision.principal
