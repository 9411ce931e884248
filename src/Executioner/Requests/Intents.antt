-- ===== src/Executioner/Requests/Intents.antt =====
-- execution/executioner.cpp: the intents that handle_exec_request takes.
use velix.Prelude.{is_pos, none, true, str_eq, ==_iff, codes, ◌≡◌, ◌↔◌, ◌⊎◌, arith}
use velix.Executioner.Requests.{Request, intent_error}

-- Whom a process may join: the tree of its parent, or, for a handler, a tree of its own.
pub record IsIntended (req : Request) : Type 0 where
  pub from_process : is_pos req.source_pid ≡ true
  pub join_or_new :
      (req.intent ≡ codes "JOIN_PARENT_TREE")
      ⊎ ((req.intent ≡ codes "NEW_TREE") × (req.is_handler ≡ true))

-- The checks of the intent pass exactly for a request from a process that joins its parent's tree, or
-- from a handler that starts a tree.
pub intent_error-IsIntended : (req : Request) → (intent_error req ≡ none) ↔ IsIntended req
unfolding intent_error
intent_error-IsIntended req =
    let join = ==_iff req.intent (codes "JOIN_PARENT_TREE") in
    let new = ==_iff req.intent (codes "NEW_TREE") in
    (
      λ e. record {
        from_process = ground (arith, e, join, new);
        join_or_new = ground (arith, e, join, new);
      },
      λ h. ground (arith, h.from_process, h.join_or_new, join, new),
    )
