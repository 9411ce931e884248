-- ===== src/Registry/State.antt =====
-- core/process_registry.hpp: processes, trees and the registry's structural state.
-- `D` stands for the type double; the registry stores memory figures and does not look into them.
-- An int is a ℤ, a uint64_t is a number, std::string a list of bytes.
use velix.Prelude.{ℕ, ℤ, Str, Map, Bool, true, false, List, [], codes}

pub data ProcessStatus : Type 0 where
  starting running waiting_llm waiting_exec finished error killed : ProcessStatus

pub data TreeStatus : Type 0 where
  active completed failed killed : TreeStatus

pub record ProcessInfo (D : Type 0) : Type 0 where
  pub pid : ℤ
  pub os_pid : ℤ
  pub parent_pid : ℤ
  pub tree_id : Str
  pub role : Str
  pub trace_id : Str
  pub status : ProcessStatus
  pub memory_mb : D
  pub last_heartbeat_ms : ℕ
  pub alive : Bool
  pub termination_time_ms : ℕ

pub record TreeInfo : Type 0 where
  pub tree_id : Str
  pub root_pid : ℤ
  pub created_at_ms : ℕ
  pub status : TreeStatus
  pub llm_request_count : ℤ

pub record Registry (D : Type 0) : Type 0 where
  pub process_table : Map ℤ (ProcessInfo D)
  pub tree_table : Map Str TreeInfo
  pub tree_process_index : Map Str (List ℤ)
  pub process_children : Map ℤ (List ℤ)
  pub process_counter : ℕ
  pub tree_counter : ℕ

-- ProcessRegistry(): empty tables, and the counters at their first values.
abbrev pub init : {D : Type 0} → Registry D
init = record {
  process_table = [];
  tree_table = [];
  tree_process_index = [];
  process_children = [];
  process_counter = 1000;
  tree_counter = 1;
}

-- The id of the system handler's tree.
unfoldable pub tree_handler : Str
tree_handler = codes "TREE_HANDLER"

abbrev pub is_active : TreeStatus → Bool
is_active TreeStatus.active = true
is_active _ = false

-- FINISHED, KILLED or ERROR.
abbrev pub is_terminal : ProcessStatus → Bool
is_terminal ProcessStatus.finished = true
is_terminal ProcessStatus.killed = true
is_terminal ProcessStatus.error = true
is_terminal _ = false
