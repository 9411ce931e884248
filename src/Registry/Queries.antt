-- ===== src/Registry/Queries.antt =====
-- core/process_registry.cpp: the operations that only read.
use velix.Prelude.{
  str_eq, int_eq, ℕ, ℤ, pos, negsuc, Str, Map, Option, none, some, Bool, true, false, List, [], ◌∷◌,
  map, find, members, length, if◌then◌else◌,
}
use velix.Registry.State.{ProcessStatus, ProcessInfo, TreeInfo, TreeStatus, Registry}

pub record ProcessInfoSnapshot (D : Type 0) : Type 0 where
  pub pid : ℤ
  pub os_pid : ℤ
  pub tree_id : Str
  pub parent_pid : ℤ
  pub role : Str
  pub status : ProcessStatus
  pub memory_mb : D

pub record WatchdogEntry (D : Type 0) : Type 0 where
  pub pid : ℤ
  pub os_pid : ℤ
  pub tree_id : Str
  pub parent_pid : ℤ
  pub trace_id : Str
  pub last_heartbeat_ms : ℕ
  pub tree_created_at_ms : ℕ
  pub memory_mb : D
  pub status : ProcessStatus
  pub alive : Bool

pub record TreeStatusResult : Type 0 where
  pub found : Bool
  pub status : TreeStatus
  pub root_pid : ℤ
  pub llm_request_count : ℤ

abbrev pub created_at : Option TreeInfo → ℕ
created_at none = 0
created_at (some t) = t.created_at_ms

module _ {D : Type 0} where
  unfoldable pub get_process : ℤ → Registry D → Option (ProcessInfo D)
  get_process pid r = find pid r.process_table

  unfoldable pub get_process_children : ℤ → Registry D → List ℤ
  get_process_children pid r = members pid r.process_children

  abbrev pub snapshot_of : ℤ × ProcessInfo D → ProcessInfoSnapshot D
  snapshot_of (k, p) = record {
    pid = k;
    os_pid = p.os_pid;
    tree_id = p.tree_id;
    parent_pid = p.parent_pid;
    role = p.role;
    status = p.status;
    memory_mb = p.memory_mb;
  }

  unfoldable pub get_process_snapshot : Registry D → List (ProcessInfoSnapshot D)
  get_process_snapshot r = map snapshot_of r.process_table

  unfoldable pub get_tree_status : Str → Registry D → TreeStatusResult
  get_tree_status id r = elim (find id r.tree_table) [
    | none ↦ record {
      found = false;
      status = TreeStatus.failed;
      root_pid = negsuc 0;
      llm_request_count = pos 0;
    }
    | some t ↦ record {
      found = true;
      status = t.status;
      root_pid = t.root_pid;
      llm_request_count = t.llm_request_count;
    }
  ]

  unfoldable pub get_tree_llm_request_count : Str → Registry D → ℤ
  get_tree_llm_request_count id r = elim (find id r.tree_table) [
    | none ↦ pos 0
    | some t ↦ t.llm_request_count
  ]

  unfoldable pub get_tree_processes : Str → Registry D → List ℤ
  get_tree_processes id r = members id r.tree_process_index

  unfoldable pub get_tree_process_count : Str → Registry D → ℕ
  get_tree_process_count id r = length (members id r.tree_process_index)

  -- The loop over the pids of the tree, with addition on double.
  unfoldable pub sum_memory : (D → D → D) → Map ℤ (ProcessInfo D) → List ℤ → D → D
  sum_memory add m [] total = total
  sum_memory add m (pid ∷ pids) total =
      sum_memory add m pids (elim (find pid m) [ none ↦ total | some p ↦ add total p.memory_mb ])

  unfoldable pub compute_tree_memory_mb : D → (D → D → D) → Str → Registry D → D
  unfolding sum_memory
  compute_tree_memory_mb zero_mb add id r =
      sum_memory add r.process_table (members id r.tree_process_index) zero_mb

  abbrev pub watchdog_entry : Map Str TreeInfo → ℤ → ProcessInfo D → WatchdogEntry D
  watchdog_entry trees k p = record {
    pid = k;
    os_pid = p.os_pid;
    tree_id = p.tree_id;
    parent_pid = p.parent_pid;
    trace_id = p.trace_id;
    last_heartbeat_ms = p.last_heartbeat_ms;
    tree_created_at_ms = created_at (find p.tree_id trees);
    memory_mb = p.memory_mb;
    status = p.status;
    alive = true;
  }

  unfoldable pub snapshot_loop : Map Str TreeInfo → Map ℤ (ProcessInfo D) → List (WatchdogEntry D)
  snapshot_loop trees [] = []
  snapshot_loop trees ((k, p) ∷ m) =
      let rest = snapshot_loop trees m in if p.alive then watchdog_entry trees k p ∷ rest else rest

  unfoldable pub snapshot_for_watchdog : Registry D → List (WatchdogEntry D)
  unfolding snapshot_loop
  snapshot_for_watchdog r = snapshot_loop r.tree_table r.process_table

  unfoldable pub get_all_tree_ids : Registry D → List Str
  get_all_tree_ids r = map (λ e. e.0) r.tree_table

  unfoldable pub get_all_tree_ids_with_created_at : Registry D → List (Str × ℕ)
  get_all_tree_ids_with_created_at r = map (λ e. (e.0, e.1.created_at_ms)) r.tree_table

  unfoldable pub get_all_pids : Registry D → List ℤ
  get_all_pids r = map (λ e. e.0) r.process_table
