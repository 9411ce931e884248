-- ===== src/Registry/Processes.antt =====
-- core/process_registry.cpp: the operations on processes. `now` is the clock's value at the call.
use velix.Prelude.{
  str_eq, int_eq, ℕ, ℤ, pos, is_pos, Str, Option, none, some, Bool, true, false, [], ◌-◌, ◌^◌, find,
  insert, modify, add_member, is_empty, codes, ltb, if◌then◌else◌,
}
use velix.Prelude.Words.{add64}
use velix.Registry.State.{ProcessStatus, ProcessInfo, TreeInfo, Registry, tree_handler, is_active}
use velix.Registry.Trees.{create_tree_locked}

abbrev pub int_max : ℕ
int_max = 2 ^ 31 - 1

-- The arguments of register_process.
pub record Registration (D : Type 0) : Type 0 where
  pub os_pid : ℤ
  pub tree_id : Str
  pub parent_pid : ℤ
  pub role : Str
  pub trace_id : Str
  pub initial_status : ProcessStatus
  pub initial_memory_mb : D
  pub is_system_handler : Bool

pub record RegisterResult (D : Type 0) : Type 0 where
  pub success : Bool
  pub error : Str
  pub process : Option (ProcessInfo D)
  pub tree_id : Str

module _ {D : Type 0} where
  abbrev pub rejected : Str → Str → RegisterResult D
  rejected e id = record { success = false; error = e; process = none; tree_id = id }

  abbrev pub registered : ProcessInfo D → Str → RegisterResult D
  registered p id = record { success = true; error = []; process = some p; tree_id = id }

  abbrev pub new_process : ℕ → ℤ → Str → Registration D → ProcessInfo D
  new_process now pid id a = record {
    pid = pid;
    os_pid = a.os_pid;
    parent_pid = a.parent_pid;
    tree_id = id;
    role = a.role;
    trace_id = a.trace_id;
    status = a.initial_status;
    memory_mb = a.initial_memory_mb;
    last_heartbeat_ms = now;
    alive = true;
    termination_time_ms = 0;
  }

  unfoldable pub on_process_registered_unlocked : ProcessInfo D → Registry D → Registry D
  on_process_registered_unlocked p r = record r {
    tree_process_index = add_member p.tree_id p.pid r.tree_process_index;
    process_children =
        if is_pos p.parent_pid
        then add_member p.parent_pid p.pid r.process_children
        else r.process_children;
  }

  -- From the construction of the process to the end of register_process.
  unfoldable pub admit :
      ℕ → ℤ → Bool → Str → Registration D → Registry D → Registry D × RegisterResult D
  unfolding on_process_registered_unlocked
  admit now pid is_root id a r =
      let p = new_process now pid id a in
      let r1 =
        on_process_registered_unlocked p
          (record r { process_table = insert pid p r.process_table }) in
      (
        record r1 {
          tree_table =
              if is_root
              then modify id (λ t. record t { root_pid = pid }) r1.tree_table
              else r1.tree_table;
        },
        registered p id,
      )

  -- The branch for a tree that the caller names.
  unfoldable pub join_tree :
      ℕ → ℤ → Registration D → Registry D → Option TreeInfo → Registry D × RegisterResult D
  unfolding admit
  join_tree now pid a r none = (r, rejected (codes "tree not found") a.tree_id)
  join_tree now pid a r (some t) =
      if is_active t.status
      then admit now pid false a.tree_id a r
      else (r, rejected (codes "tree is not active") a.tree_id)

  unfoldable pub found_tree :
      ℕ → ℤ → Registration D → Registry D × Str → Registry D × RegisterResult D
  unfolding admit
  found_tree now pid a (r, id) = admit now pid true id a r

  -- The choice of the tree, for a pid that fits an int.
  unfoldable pub place : ℕ → ℤ → Registration D → Registry D → Registry D × RegisterResult D
  unfolding join_tree found_tree admit
  place now pid a r =
      if a.is_system_handler
      then admit now pid true tree_handler a r
      else if is_empty a.tree_id
      then found_tree now pid a (create_tree_locked now [] r)
      else join_tree now pid a r (find a.tree_id r.tree_table)

  unfoldable pub register_process : ℕ → Registration D → Registry D → Registry D × RegisterResult D
  unfolding place
  register_process now a r =
      let r1 = record r { process_counter = add64 r.process_counter 1 } in
      if ltb int_max r.process_counter
      then (r1, rejected (codes "pid space exhausted") [])
      else place now (pos r.process_counter) a r1

  -- The stores of a heartbeat, which a dead process ignores.
  abbrev pub beat : ProcessStatus → D → ℕ → ProcessInfo D → ProcessInfo D
  beat status memory_mb now p =
      if p.alive
      then record p { status = status; memory_mb = memory_mb; last_heartbeat_ms = now }
      else p

  unfoldable pub update_heartbeat : ℤ → ProcessStatus → D → ℕ → Registry D → Registry D
  update_heartbeat pid status memory_mb now r = record r {
    process_table = modify pid (beat status memory_mb now) r.process_table;
  }
