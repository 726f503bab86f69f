-- ===== src/Steering/Conversation/Messages.antt =====
-- internal/steering/session.go, `Message.Validate`: which turns may be appended.
use mathlib.Core.Path.{◌≡◌}
use mathlib.Core.Logic.{◌⊎◌, ◌↔◌, ◌≢◌}
use mathlib.Core.Bool.{Bool, true, not, ◌||◌}
use mathlib.Core.List.{[]}
use native.Mathlib.Omega.{arith}
use temporal_agents.Prelude.{Text, lit, same, Result, ok, ◌>>◌, require, trim_space}
use temporal_agents.Steering.Decision.{is_blank}
use temporal_agents.Steering.Conversation.{Message}

-- `RoleOperator` and `RoleAgent`.
abbrev pub operator : Text
operator = lit "operator"

abbrev pub agent : Text
agent = lit "agent"

-- The errors of `Message.Validate`.
pub data MessageError : Type 0 where
  unknown_role : Text → MessageError
  no_session empty_turn : MessageError

-- `Message.Validate`.
unfoldable pub validate_message : Message → Result MessageError (Unit {0})
validate_message m = do
  require (same m.role operator || same m.role agent) (unknown_role m.role)
  require (not (is_blank (trim_space m.session_id))) no_session
  require (not (is_blank (trim_space m.text))) empty_turn

-- A turn of one of the two roles, in a session, with something in it.
pub record IsTurn (m : Message) : Type 0 where
  pub has_role : (m.role ≡ operator) ⊎ (m.role ≡ agent)
  pub in_session : trim_space m.session_id ≢ []
  pub has_text : trim_space m.text ≢ []

turn-cases :
    (a b : Text) (r : Bool) (e1 e2 e3 : MessageError)
    → ((require r e1 >> (require (not (is_blank a)) e2 >> require (not (is_blank b)) e3)) ≡ ok tt)
      ↔ ((r ≡ true) × (a ≢ []) × (b ≢ []))
turn-cases a b r e1 e2 e3 = ground arith

role_iff :
    (role : Text)
    → ((same role operator || same role agent) ≡ true) ↔ ((role ≡ operator) ⊎ (role ≡ agent))
role_iff role = ground arith

-- A message is accepted exactly when its role is one of the two, and neither its session nor its text is
-- blank.
pub validate_message-ok_iff : (m : Message) → (validate_message m ≡ ok tt) ↔ IsTurn m
unfolding validate_message
validate_message-ok_iff m =
    let cases = turn-cases (trim_space m.session_id) (trim_space m.text) _ _ _ _ in
    (
      λ h.
          let (r, s, t) = cases.0 h in
          record { has_role = (role_iff m.role).0 r; in_session = s; has_text = t },
      λ turn. cases.1 ((role_iff m.role).1 turn.has_role, turn.in_session, turn.has_text),
    )
