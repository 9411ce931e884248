-- ===== src/Supervisor/Handlers.antt =====
-- core/supervisor.cpp: the other message handlers, and their dispatch. `now` and `later` are the clock's values at a
-- handler's successive readings. The registry's calls are atomic, and no other thread runs between the calls of one
-- handler.
use velix.Prelude.{
  str_eq, int_eq, ℕ, ℤ, is_pos, Str, Option, none, some, not, ◌&&◌, ◌||◌, List, [], ◌∷◌, codes,
  ◌++◌, is_empty, ◌==◌, if◌then◌else◌,
}
use velix.Double.{Double}
use velix.Registry.State.{ProcessInfo, ProcessStatus, Registry, is_terminal}
use velix.Registry.Trees.{increment_llm_request}
use velix.Registry.Processes.{update_heartbeat}
use velix.Registry.Ending.{kill_tree, terminate_process}
use velix.Registry.Queries.{
  TreeStatusResult, get_process, get_tree_processes, get_tree_status, get_all_tree_ids,
}
use velix.Termination.{Effect, kill_processes}
use velix.Watchdog.{live_targets}
use velix.Supervisor.Status.{parse_process_status, is_valid_process_status_text}
use velix.Supervisor.Messages.{
  Message, value, TreeView, Response, failed, bad_status, beaten, allowed, trees, tree, tree_killed,
}
use velix.Supervisor.State.{SupervisorConfig, Supervisor, minus_one}
use velix.Supervisor.Validation.{validate_message_shape, validate_auth}
use velix.Supervisor.Registering.{handle_register_pid}

abbrev view_of : Str → TreeStatusResult → TreeView
view_of id t = record { tree_id = id; status = t.status; root_pid = t.root_pid }

module _ {D : Type 0} where
  -- The status that a heartbeat reports; an empty text keeps the status.
  abbrev pub new_status : Str → ProcessInfo D → ProcessStatus
  new_status text p = if is_empty text then p.status else parse_process_status text

  unfoldable pub beat_process :
      Double D
      → ℕ
      → ℕ
      → ℤ
      → Message D
      → Registry D
      → Option (ProcessInfo D)
      → Registry D × Response D
  beat_process d now later pid m r none = (r, failed (codes "pid not registered"))
  beat_process d now later pid m r (some p) =
      let text = value m.payload.status [] in
      let r1 =
        update_heartbeat pid (new_status text p) (value m.payload.memory_mb d.minus_one) now r in
      if not (is_empty text) && not (is_valid_process_status_text text)
      then (r, bad_status (codes "invalid process status in HEARTBEAT") text)
      else (
        if not (is_terminal p.status) && is_terminal (new_status text p)
            then terminate_process later pid r1
            else r1,
        beaten pid,
      )

  unfoldable pub handle_heartbeat :
      Double D → ℕ → ℕ → Message D → Registry D → Registry D × Response D
  unfolding beat_process
  handle_heartbeat d now later m r =
      let pid = value m.pid minus_one in
      if not (is_pos pid)
      then (r, failed (codes "HEARTBEAT requires valid pid"))
      else beat_process d now later pid m r (get_process pid r)

  -- The checks of the mode, once the source is known.
  unfoldable pub mode_error : Message D → ProcessInfo D → Option (Response D)
  mode_error m p =
      let mode = value m.mode [] in
      let user_id = value m.user_id [] in
      if mode == codes "simple"
      then if not (is_empty (value m.convo_id [])) || not (is_empty user_id)
        then some (failed (codes "simple mode requires empty convo_id and user_id"))
        else none
      else if mode == codes "conversation"
      then if not (is_empty user_id)
        then some (failed (codes "conversation mode requires empty user_id"))
        else none
      else if not (p.role == codes "handler")
      then some (failed (codes "user_conversation only allowed for handler process"))
      else if is_empty user_id
      then some (failed (codes "user_conversation requires user_id"))
      else none

  unfoldable pub count_request :
      Message D → Registry D → Option (ProcessInfo D) → Registry D × Response D
  unfolding mode_error
  count_request m r none = (r, failed (codes "LLM_REQUEST source_pid not registered"))
  count_request m r (some p) = elim (mode_error m p) [
    | some e ↦ (r, e)
    | none ↦ (increment_llm_request p.tree_id r, allowed (p.role == codes "handler"))
  ]

  unfoldable pub handle_llm_request :
      SupervisorConfig D → Message D → Registry D → Registry D × Response D
  unfolding count_request
  handle_llm_request cfg m r =
      let mode = value m.mode [] in
      let source_pid = value m.source_pid minus_one in
      if not (mode == codes "simple")
        && not (mode == codes "conversation")
        && not (mode == codes "user_conversation")
      then (r, failed (codes "unsupported LLM mode"))
      else if not cfg.conversation_enabled && not (mode == codes "simple")
      then (r, failed (codes "conversation mode is disabled"))
      else if not (is_pos source_pid)
      then (r, failed (codes "LLM_REQUEST requires valid source_pid"))
      else count_request m r (get_process source_pid r)

  -- payload.value("tree_id", message.value("tree_id", ""))
  abbrev pub named_tree : Message D → Str
  named_tree m = value m.payload.tree_id (value m.tree_id [])

  unfoldable pub view_trees : List Str → Registry D → List TreeView
  view_trees [] r = []
  view_trees (id ∷ ids) r =
      let rest = view_trees ids r in
      if (get_tree_status id r).found then view_of id (get_tree_status id r) ∷ rest else rest

  unfoldable pub view_processes : List ℤ → Registry D → List (ProcessInfo D)
  view_processes [] r = []
  view_processes (pid ∷ pids) r =
      let rest = view_processes pids r in
      elim (get_process pid r) [ none ↦ rest | some p ↦ p ∷ rest ]

  unfoldable pub handle_tree_status : Message D → Registry D → Response D
  unfolding view_trees view_processes
  handle_tree_status m r =
      let id = named_tree m in
      let status = get_tree_status id r in
      if is_empty id
      then trees (view_trees (get_all_tree_ids r) r)
      else if not status.found
      then failed (codes "tree not found")
      else tree (view_of id status) (view_processes (get_tree_processes id r) r)

  -- kill_tree, and the termination of the processes that it collected.
  unfoldable pub reap : (ℕ → ℕ) → ℤ → Str → Str → Registry D → Registry D × List Effect
  reap clock grace reason id r =
      let killed = kill_tree id r in
      if is_empty killed.1
      then (killed.0, [])
      else kill_processes clock grace reason (live_targets id killed.1 killed.0) killed.0

  unfoldable pub handle_tree_kill :
      SupervisorConfig D → (ℕ → ℕ) → Message D → Registry D → Registry D × List Effect × Response D
  unfolding reap
  handle_tree_kill cfg clock m r =
      let id = named_tree m in
      let out = reap clock cfg.terminate_grace_ms (codes "tree_kill") id r in
      if is_empty id
      then (r, [], failed (codes "TREE_KILL requires tree_id"))
      else (out.0, out.1, tree_killed id)

  abbrev on_registry :
      Supervisor D → Registry D × Response D → Supervisor D × List Effect × Response D
  on_registry s (r, e) = (record s { registry = r }, [], e)

  abbrev on_all :
      Supervisor D → Registry D × List Effect × Response D → Supervisor D × List Effect × Response D
  on_all s (r, effects, e) = (record s { registry = r }, effects, e)

  abbrev on_supervisor : Supervisor D × Response D → Supervisor D × List Effect × Response D
  on_supervisor (s, e) = (s, [], e)

  -- By the type of a message that passed the checks.
  unfoldable pub dispatch :
      SupervisorConfig D
      → Double D
      → (ℕ → ℕ)
      → Message D
      → Supervisor D
      → Str
      → Supervisor D × List Effect × Response D
  unfolding handle_heartbeat handle_llm_request handle_tree_status handle_tree_kill
      handle_register_pid
  dispatch cfg d clock m s type =
      if type == codes "REGISTER_PID"
      then on_supervisor (handle_register_pid d (clock 0) m s)
      else if type == codes "HEARTBEAT"
      then on_registry s (handle_heartbeat d (clock 0) (clock 1) m s.registry)
      else if type == codes "LLM_REQUEST"
      then on_registry s (handle_llm_request cfg m s.registry)
      else if type == codes "TREE_STATUS"
      then (s, [], handle_tree_status m s.registry)
      else if type == codes "TREE_KILL"
      then on_all s (handle_tree_kill cfg clock m s.registry)
      else (s, [], failed (codes "unsupported message_type: " ++ type))

  unfoldable pub handle_message :
      SupervisorConfig D
      → Double D
      → (ℕ → ℕ)
      → Message D
      → Supervisor D
      → Supervisor D × List Effect × Response D
  unfolding validate_message_shape validate_auth dispatch
  handle_message cfg d clock m s = elim (validate_message_shape m) [
    | some e ↦ (s, [], failed e)
    | none ↦
        if not (validate_auth cfg m)
        then (s, [], failed (codes "auth failed"))
        else dispatch cfg d clock m s (value m.message_type [])
  ]
