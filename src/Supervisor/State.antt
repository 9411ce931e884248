-- ===== src/Supervisor/State.antt =====
-- core/supervisor.cpp: the configuration and the state of SupervisorService.
use velix.Prelude.{str_eq, int_eq, ℕ, ℤ, negsuc, Str, Map, Bool, List}
use velix.Registry.State.{Registry}

pub record SupervisorConfig (D : Type 0) : Type 0 where
  pub require_auth_token : Bool
  pub auth_token : Str
  pub conversation_enabled : Bool
  pub heartbeat_timeout_sec : ℤ
  pub max_tree_runtime_sec : ℤ
  pub max_memory_per_tree_mb : D
  pub max_llm_requests_per_tree : ℤ
  pub terminate_grace_ms : ℤ
  pub process_convo_ttl_sec : ℤ
  pub handler_auto_restart : Bool
  pub handler_binary : Str
  pub handler_restart_delay_ms : ℤ

-- A conversation's record, with the one field that the kernel reads.
pub record ConvMetadata : Type 0 where
  pub created_at_ms : ℕ

pub record Supervisor (D : Type 0) : Type 0 where
  pub registry : Registry D
  pub process_convos : Map ℤ (List Str)
  pub convo_metadata : Map Str ConvMetadata
  pub handler_os_pid : ℤ
  pub handler_velix_pid : ℤ
  pub handler_needs_restart : Bool
  pub handler_dead_since : ℕ

abbrev pub minus_one : ℤ
minus_one = negsuc 0
