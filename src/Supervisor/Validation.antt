-- ===== src/Supervisor/Validation.antt =====
-- core/supervisor.cpp: the checks before a message is handled.
use velix.Prelude.{
  str_eq, int_eq, ℤ, is_pos, Str, Option, none, some, Bool, true, not, ◌&&◌, ◌||◌, List, [], ◌∷◌,
  codes, ◌++◌, contains, is_empty, ◌==◌, if◌then◌else◌,
}
use velix.Supervisor.Messages.{Message, value}
use velix.Supervisor.State.{SupervisorConfig, minus_one}

unfoldable pub allowed_types : List Str
allowed_types =
    codes "REGISTER_PID"
    ∷ codes "HEARTBEAT"
    ∷ codes "LLM_REQUEST"
    ∷ codes "TREE_STATUS"
    ∷ codes "TREE_KILL"
    ∷ []

abbrev has_pos : Option ℤ → Bool
has_pos o = is_pos (value o minus_one)

module _ {D : Type 0} where
  -- The checks of validate_message_shape that depend on the type; the result is the error, if any.
  unfoldable pub shape_of_type : Message D → Str → Option Str
  shape_of_type m type =
      if type == codes "HEARTBEAT" && not (has_pos m.pid)
      then some (codes "HEARTBEAT requires positive integer pid")
      else if type == codes "REGISTER_PID"
          && value m.payload.register_intent [] == codes "JOIN_PARENT_TREE"
          && not (value m.payload.role (codes "unknown") == codes "handler")
          && not (has_pos m.source_pid)
      then some (codes "REGISTER_PID JOIN_PARENT_TREE requires source_pid")
      else none

  unfoldable pub validate_message_shape : Message D → Option Str
  unfolding shape_of_type allowed_types
  validate_message_shape m =
      if not m.is_object
      then some (codes "message must be a JSON object")
      else elim m.message_type [
        | none ↦ some (codes "missing or invalid message_type")
        | some type ↦
            if contains type allowed_types
            then shape_of_type m type
            else some (codes "unsupported message_type: " ++ type)
      ]

  unfoldable pub validate_auth : SupervisorConfig D → Message D → Bool
  validate_auth cfg m =
      if not cfg.require_auth_token
      then true
      else not (is_empty (value m.auth_token []) || not (value m.auth_token [] == cfg.auth_token))
