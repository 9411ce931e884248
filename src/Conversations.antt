-- ===== src/Conversations.antt =====
-- llm/session_io.cpp: append_message_unlocked and build_conversation_messages_safely, for a conversation
-- that is found. A request is the values that are read from it; a message has a text for its tool
-- calls, empty where it has none or no array, and so for the id of the call that it answers. The
-- layered system prompt, which is made from files, is an argument.
pub mod Prompts
use velix.Prelude.{
  ℕ, ◌+◌, Str, Option, none, some, Bool, true, false, not, ◌&&◌, ◌||◌, ◌==◌, str_eq, if◌then◌else◌,
  codes, List, [], ◌∷◌, ◌++◌, is_empty,
}
use velix.ContextFiles.{is_valid_role, canonicalize_role, estimate_text_tokens}

pub record Message : Type 0 where
  pub role : Str
  pub content : Str
  pub tool_calls : Str
  pub tool_call_id : Str

pub record Conversation : Type 0 where
  pub messages : List Message
  pub turn_count : ℕ
  pub current_context_tokens : ℕ
  pub total_tokens_used : ℕ

-- The message is refused, or it is appended.
unfoldable pub append_message : Message → Conversation → Option Conversation
unfolding is_valid_role canonicalize_role estimate_text_tokens
append_message m convo =
    if not (is_valid_role (canonicalize_role m.role))
      || (is_empty m.content && is_empty m.tool_calls)
    then none
    else some record {
      messages =
          convo.messages
          ++ ((record {
            role = canonicalize_role m.role;
            content = m.content;
            tool_calls = m.tool_calls;
            tool_call_id = m.tool_call_id;
          })
              ∷ []);
      turn_count = convo.turn_count + 1;
      current_context_tokens = convo.current_context_tokens + estimate_text_tokens m.content;
      total_tokens_used = convo.total_tokens_used + estimate_text_tokens m.content;
    }

-- The texts of a tool: its content and the id of the call.
abbrev pub ToolInput : Type 0
ToolInput = Str × Str

pub record Request : Type 0 where
  pub system_prompt : Option Str
  pub system_message : Option Str
  pub system_prompt_override : Bool
  pub user_message : Str
  pub tool_message : ToolInput
  pub tool_messages : List ToolInput
  pub tool_result : ToolInput

abbrev pub input_message : Str → Str → Str → Message
input_message role content id = record {
  role = role;
  content = content;
  tool_calls = [];
  tool_call_id = id;
}

unfoldable pub explicit_system_prompt : Request → Str
explicit_system_prompt req = elim req.system_prompt [
  | some s ↦ s
  | none ↦ elim req.system_message [ some s ↦ s | none ↦ [] ]
]

unfoldable pub tool_inputs : List ToolInput → List Message
tool_inputs [] = []
tool_inputs ((content, id) ∷ l) =
    let rest = tool_inputs l in
    if is_empty content then rest else input_message (codes "tool") content id ∷ rest

unfoldable pub pending_inputs : Request → List Message
unfolding tool_inputs
pending_inputs req =
    (if is_empty req.user_message
      then []
      else input_message (codes "user") req.user_message [] ∷ [])
    ++ tool_inputs (req.tool_message ∷ (req.tool_messages ++ (req.tool_result ∷ [])))

abbrev pub is_system : Message → Bool
is_system m = m.role == codes "system"

unfoldable pub without_system : List Message → List Message
without_system [] = []
without_system (m ∷ l) = let rest = without_system l in if is_system m then rest else m ∷ rest

abbrev pub with_messages : List Message → Conversation → Conversation
with_messages messages c = record {
  messages = messages;
  turn_count = c.turn_count;
  current_context_tokens = c.current_context_tokens;
  total_tokens_used = c.total_tokens_used;
}

-- The prompt of the request: it replaces the old ones, or opens an empty conversation.
unfoldable pub place_prompt : Bool → Str → Conversation → Option Conversation
unfolding append_message without_system
place_prompt override prompt convo =
    if is_empty prompt
    then some convo
    else if override
    then append_message (input_message (codes "system") prompt [])
        (with_messages (without_system convo.messages) convo)
    else if is_empty convo.messages
    then append_message (input_message (codes "system") prompt []) convo
    else some convo

unfoldable pub append_all : List Message → Conversation → Option Conversation
unfolding append_message
append_all [] convo = some convo
append_all (m ∷ l) convo = elim (append_message m convo) [
  | none ↦ none
  | some longer ↦ append_all l longer
]

unfoldable pub has_system : List Message → Bool
has_system [] = false
has_system (m ∷ l) = is_system m || has_system l

-- What is sent of a message, if it is sent.
abbrev pub kept_calls : Message → Str
kept_calls m = if canonicalize_role m.role == codes "assistant" then m.tool_calls else []

abbrev pub kept_id : Message → Str
kept_id m = if canonicalize_role m.role == codes "tool" then m.tool_call_id else []

unfoldable pub sent : List Message → List Message
unfolding is_valid_role canonicalize_role
sent [] = []
sent (m ∷ l) =
    let rest = sent l in
    if not (is_valid_role (canonicalize_role m.role))
      || (is_empty m.content && is_empty m.tool_calls)
    then rest
    else (record {
      role = canonicalize_role m.role;
      content = m.content;
      tool_calls = kept_calls m;
      tool_call_id = kept_id m;
    })
      ∷ rest

-- The array that is sent: a system message is made where the history has none.
unfoldable pub request_messages : (Str → Str) → Str → Conversation → List Message
unfolding has_system sent
request_messages layered prompt convo =
    if has_system convo.messages
    then sent convo.messages
    else input_message (codes "system") (layered prompt) [] ∷ sent convo.messages

-- The exceptions, or the new conversation and the messages.
pub data Built : Type 0 where
  missing_input append_failed : Built
  built : Conversation → List Message → Built

unfoldable pub build_messages : (Str → Str) → Request → Conversation → Built
unfolding explicit_system_prompt pending_inputs place_prompt append_all request_messages
build_messages layered req convo =
    if is_empty (pending_inputs req)
    then missing_input
    else elim (place_prompt req.system_prompt_override (explicit_system_prompt req) convo) [
      | none ↦ append_failed
      | some prompted ↦ elim (append_all (pending_inputs req) prompted) [
        | none ↦ append_failed
        | some after ↦ built after (request_messages layered (explicit_system_prompt req) after)
      ]
    ]
