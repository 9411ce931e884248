-- ===== src/Tests/ConversationTests.antt =====
-- The theorem on the system prompt of a conversation, for its first request.
use velix.Prelude.{Str, none, some, false, List, [], ◌∷◌, codes, ◌≡◌, refl, is_empty, str_beq}
use velix.Conversations.{
  Message, Conversation, Request, built, build_messages, input_message, explicit_system_prompt,
  append_message, place_prompt, append_all, pending_inputs, tool_inputs, request_messages,
  has_system, sent,
}
use velix.ContextFiles.{is_valid_role, canonicalize_role, estimate_text_tokens}
use velix.Conversations.Prompts.{build_messages_replaces_layers}

abbrev request : Request
request = record {
  system_prompt = some (codes "be brief");
  system_message = none;
  system_prompt_override = false;
  user_message = codes "hello";
  tool_message = ([], []);
  tool_messages = [];
  tool_result = ([], []);
}

abbrev no_turns : Conversation
no_turns = record {
  messages = [];
  turn_count = 0;
  current_context_tokens = 0;
  total_tokens_used = 0;
}

abbrev two_messages : List Message
two_messages =
    input_message (codes "system") (codes "be brief") []
    ∷ (input_message (codes "user") (codes "hello") [] ∷ [])

abbrev two_turns : Conversation
two_turns = record {
  messages = two_messages;
  turn_count = 2;
  current_context_tokens = 3;
  total_tokens_used = 3;
}

-- The guidelines and the soul of the assistant, before the prompt.
abbrev layers : Str → Str
layers prompt = codes "guidelines"

two_built : build_messages layers request no_turns ≡ built two_turns two_messages
unfolding build_messages append_message place_prompt append_all pending_inputs tool_inputs
    request_messages has_system sent is_valid_role canonicalize_role estimate_text_tokens
    explicit_system_prompt str_beq
two_built = refl

prompt_there : is_empty (explicit_system_prompt request) ≡ false
unfolding explicit_system_prompt
prompt_there = refl

build_messages_replaces_layers_example :
    (l : List Message) × (two_messages
      ≡ input_message (codes "system") (explicit_system_prompt request) [] ∷ l)
build_messages_replaces_layers_example =
    build_messages_replaces_layers layers request no_turns two_turns two_messages refl prompt_there
      two_built
