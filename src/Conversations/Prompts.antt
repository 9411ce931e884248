-- ===== src/Conversations/Prompts.antt =====
-- llm/session_io.cpp: where the system prompt of a request goes.
use velix.Prelude.{
  Str, some, Bool, true, false, str_eq, str_beq, codes, List, [], ◌∷◌, ◌++◌, is_empty, ◌≡◌, refl,
  arith, Option-cases, Bool-cases, inl, inr, ap, ◌∙◌,
}
use velix.ContextFiles.{is_valid_role, canonicalize_role}
use velix.Conversations.{
  Message, Conversation, append_message, Request, input_message, explicit_system_prompt,
  pending_inputs, without_system, with_messages, place_prompt, append_all, has_system, sent,
  request_messages, built, build_messages,
}

-- The conversation starts with a system message.
abbrev Opens : Str → Conversation → Type 0
Opens prompt c = (l : List Message) × (c.messages ≡ input_message (codes "system") prompt [] ∷ l)

append_message-Opens :
    (prompt : Str) (m : Message) (c c' : Conversation)
    → Opens prompt c
    → append_message m c ≡ some c'
    → Opens prompt c'
unfolding append_message
append_message-Opens prompt m c c' (l, e) h =
    let m' : Message = record {
      role = canonicalize_role m.role;
      content = m.content;
      tool_calls = m.tool_calls;
      tool_call_id = m.tool_call_id;
    } in
    let longer : c'.messages ≡ c.messages ++ (m' ∷ []) = ground (arith, h) in
    (l ++ (m' ∷ []), longer ∙ ap (λ k. k ++ (m' ∷ [])) e)

append_all-Opens :
    (prompt : Str) (ms : List Message) (c c' : Conversation)
    → Opens prompt c
    → append_all ms c ≡ some c'
    → Opens prompt c'
unfolding append_all
append_all-Opens prompt [] c c' o h = let q : c' ≡ c = ground (arith, h) in rw (q) o
append_all-Opens prompt (m ∷ ms) c c' o h = elim (Option-cases (append_message m c)) [
  | inl n ↦ absurd (ground (arith, n, h))
  | inr (longer, q) ↦
      append_all-Opens prompt ms longer c' (append_message-Opens prompt m c longer o q)
        (ground (arith, q, h))
]

request_messages-Opens :
    (layered : Str → Str) (prompt : Str) (c : Conversation)
    → is_empty prompt ≡ false
    → Opens prompt c
    → (l : List Message) × (request_messages layered prompt c
        ≡ input_message (codes "system") prompt [] ∷ l)
unfolding request_messages has_system sent is_valid_role canonicalize_role str_beq
request_messages-Opens layered prompt c p (l, e) = rw (e, p) (sent l, refl)

nothing : without_system [] ≡ []
unfolding without_system
nothing = refl

appended :
    (prompt : Str) (convo c : Conversation)
    → convo.messages ≡ []
    → is_empty prompt ≡ false
    → append_message (input_message (codes "system") prompt []) convo ≡ some c
    → Opens prompt c
unfolding append_message is_valid_role canonicalize_role str_beq
appended prompt convo c e p h =
    let m : Message = input_message (codes "system") prompt [] in
    let longer : c.messages ≡ convo.messages ++ (m ∷ []) = ground (arith, h, p) in
    ([], longer ∙ ap (λ k. k ++ (m ∷ [])) e)

place_prompt-Opens :
    (override : Bool) (prompt : Str) (convo c : Conversation)
    → convo.messages ≡ []
    → is_empty prompt ≡ false
    → place_prompt override prompt convo ≡ some c
    → Opens prompt c
unfolding place_prompt
place_prompt-Opens true prompt convo c e p h =
    appended prompt (with_messages (without_system convo.messages) convo) c
      (ap without_system e ∙ nothing) p (ground (arith, p, h))
place_prompt-Opens false prompt convo c e p h = appended prompt convo c e p (
    let opens_empty : is_empty convo.messages ≡ true = rw (e) refl in
    ground (arith, p, opens_empty, h))

-- The prompt of a first request, where it has one that is not empty, is the system message that is
-- sent, as it is: whatever the layered prompt would be, it is not in front of it.
pub build_messages_replaces_layers :
    (layered : Str → Str) (req : Request) (convo after : Conversation) (messages : List Message)
    → convo.messages ≡ []
    → is_empty (explicit_system_prompt req) ≡ false
    → build_messages layered req convo ≡ built after messages
    → (l : List Message) × (messages
        ≡ input_message (codes "system") (explicit_system_prompt req) [] ∷ l)
unfolding build_messages
build_messages_replaces_layers layered req convo after messages e p h =
    let prompt : Str = explicit_system_prompt req in
    elim (Bool-cases (is_empty (pending_inputs req))) [
      | inl none_left ↦ absurd (ground (arith, none_left, h))
      | inr some_left ↦ elim (Option-cases (place_prompt req.system_prompt_override prompt convo)) [
        | inl n ↦ absurd (ground (arith, some_left, n, h))
        | inr (prompted, q) ↦ elim (Option-cases (append_all (pending_inputs req) prompted)) [
          | inl n ↦ absurd (ground (arith, some_left, q, n, h))
          | inr (last, r) ↦
              let opens =
                place_prompt-Opens req.system_prompt_override prompt convo prompted e p q in
              let sent_first =
                request_messages-Opens layered prompt last p
                  (append_all-Opens prompt (pending_inputs req) prompted last opens r) in
              let same : messages ≡ request_messages layered prompt last =
                ground (arith, some_left, q, r, h) in
              (sent_first.0, same ∙ sent_first.1)
        ]
      ]
    ]
