-- ===== src/Supervisor/Registering.antt =====
-- core/supervisor.cpp: handle_register_pid. The registry's calls are atomic, and no other thread runs between the
-- calls of one handler.
use velix.Prelude.{
  str_eq, int_eq, ℕ, ℤ, is_pos, Str, Option, none, some, Bool, true, false, not, ◌&&◌, [], codes,
  is_empty, ◌==◌, if◌then◌else◌,
}
use velix.Double.{Double}
use velix.Registry.State.{ProcessInfo, Registry, tree_handler, is_terminal}
use velix.Registry.Processes.{Registration, RegisterResult, register_process}
use velix.Registry.Queries.{get_process, get_tree_processes}
use velix.Supervisor.Status.{parse_process_status, is_valid_process_status_text}
use velix.Supervisor.Messages.{
  Message, value, Response, failed, bad_status, os_pid_mismatch, bad_source, registered,
}
use velix.Supervisor.State.{Supervisor, minus_one}

-- A registration that passed the checks: the tree and the parent for the registry, and two flags of the answer.
pub record Admission : Type 0 where
  pub tree_id : Str
  pub source_pid : ℤ
  pub is_tree_root : Bool
  pub is_handler_process : Bool

pub data Choice (D : Type 0) : Type 0 where
  refuse : Response D → Choice D
  admit : Admission → Choice D

module _ {D : Type 0} where
  -- The case JOIN_PARENT_TREE.
  unfoldable pub join_parent : ℤ → Option (ProcessInfo D) → Choice D
  join_parent source_pid none = refuse (bad_source (codes "source_pid not registered") source_pid)
  join_parent source_pid (some parent) =
      if is_terminal parent.status
      then refuse (bad_source (codes "source_pid is not active") source_pid)
      else admit (record {
        tree_id = parent.tree_id;
        source_pid = source_pid;
        is_tree_root = false;
        is_handler_process = false;
      })

  unfoldable pub bootstrap : ℤ → ℤ → Choice D
  bootstrap expected os_pid =
      if is_pos expected && not (os_pid == expected)
      then refuse (os_pid_mismatch expected os_pid)
      else admit (record {
        tree_id = tree_handler;
        source_pid = minus_one;
        is_tree_root = true;
        is_handler_process = true;
      })

  -- The choice of the tree, by role and intent.
  unfoldable pub choose : Message D → ℤ → Supervisor D → Choice D
  unfolding join_parent bootstrap
  choose m os_pid s =
      let role = value m.payload.role (codes "unknown") in
      let source_pid = value m.source_pid minus_one in
      if role == codes "handler"
      then if is_empty (get_tree_processes tree_handler s.registry)
        then bootstrap s.handler_os_pid os_pid
        else refuse (failed (codes "handler_role_reserved_for_bootstrap"))
      else if value m.payload.register_intent [] == codes "NEW_TREE"
      then admit (record {
        tree_id = [];
        source_pid = source_pid;
        is_tree_root = true;
        is_handler_process = false;
      })
      else if not (is_pos source_pid)
      then refuse (failed (codes "JOIN_PARENT_TREE requires valid source_pid"))
      else join_parent source_pid (get_process source_pid s.registry)

  -- The checks before the choice; none is no error.
  unfoldable pub check_register : Message D → Option (Response D)
  check_register m =
      let status_text = value m.payload.status (codes "STARTING") in
      let intent = value m.payload.register_intent [] in
      if not (is_valid_process_status_text status_text)
      then some (bad_status (codes "invalid process status in REGISTER_PID") status_text)
      else if not (is_pos (value m.payload.os_pid minus_one))
      then some (failed (codes "REGISTER_PID requires payload.os_pid"))
      else if not (intent == codes "NEW_TREE") && not (intent == codes "JOIN_PARENT_TREE")
      then some
          (failed (codes "REGISTER_PID requires register_intent = NEW_TREE or JOIN_PARENT_TREE"))
      else none

  -- The arguments of the registry's register_process.
  abbrev pub registration : Double D → Message D → Admission → Registration D
  registration d m a =
      let role = value m.payload.role (codes "unknown") in
      record {
        os_pid = value m.payload.os_pid minus_one;
        tree_id = a.tree_id;
        parent_pid = a.source_pid;
        role = role;
        trace_id = value m.payload.trace_id [];
        initial_status = parse_process_status (value m.payload.status (codes "STARTING"));
        initial_memory_mb = value m.payload.memory_mb d.zero;
        is_system_handler = role == codes "handler";
      }

  -- The answer, and the tracking of the handler.
  unfoldable pub finish :
      Message D
      → Admission
      → Supervisor D
      → Registry D
      → RegisterResult D
      → Option (ProcessInfo D)
      → Supervisor D × Response D
  finish m a s r res none = (record s { registry = r }, failed res.error)
  finish m a s r res (some p) =
      if value m.payload.role (codes "unknown") == codes "handler"
      then (
        record s {
          registry = r;
          handler_velix_pid = p.pid;
          handler_needs_restart = false;
          handler_dead_since = 0;
        },
        registered res.tree_id (value m.payload.register_intent []) a.is_tree_root
            a.is_handler_process p,
      )
      else (
        record s { registry = r },
        registered res.tree_id (value m.payload.register_intent []) a.is_tree_root
            a.is_handler_process p,
      )

  unfoldable pub enter :
      Double D → ℕ → Message D → Supervisor D → Choice D → Supervisor D × Response D
  unfolding finish
  enter d now m s (refuse e) = (s, e)
  enter d now m s (admit a) =
      let out = register_process now (registration d m a) s.registry in
      finish m a s out.0 out.1 out.1.process

  unfoldable pub handle_register_pid :
      Double D → ℕ → Message D → Supervisor D → Supervisor D × Response D
  unfolding check_register choose enter
  handle_register_pid d now m s = elim (check_register m) [
    | some e ↦ (s, e)
    | none ↦ enter d now m s (choose m (value m.payload.os_pid minus_one) s)
  ]
