-- ===== src/Tests/Samples.antt =====
-- A registry with a handler, an agent at the root of its own tree, and a child of the agent.
use velix.Prelude.{
  List, [], codes, false, leb, ltb, negsuc, none, pos, some, true, ℕ, ◌+◌, ◌/◌, ℤ, ◌∷◌,
}
use velix.Double.{Double}
use velix.Registry.Queries.{WatchdogEntry}
use velix.Termination.{TerminationTarget}
use velix.Watchdog.{Config}
use velix.Supervisor.State.{SupervisorConfig, Supervisor}
use velix.Supervisor.Messages.{Payload, Message}
use velix.Registry.State.{ProcessStatus, ProcessInfo, Registry, init}
use velix.Registry.Processes.{Registration, new_process}
use velix.Registry.Ending.{close}
use velix.Registry.Steps.{Call, registers, creates, terminates, run}

abbrev magnitude : ℤ → ℕ
magnitude (pos n) = n
magnitude (negsuc n) = n + 1

-- Natural numbers in place of double.
abbrev pub natural : Double ℕ
natural = record {
  zero = 0;
  minus_one = 0;
  add = λ a b. a + b;
  lt = ltb;
  le = leb;
  of_int = magnitude;
  div = λ a b. a / b;
}

abbrev pub handler_registration : Registration ℕ
handler_registration = record {
  os_pid = pos 40;
  tree_id = codes "TREE_HANDLER";
  parent_pid = negsuc 0;
  role = codes "handler";
  trace_id = [];
  initial_status = ProcessStatus.running;
  initial_memory_mb = 10;
  is_system_handler = true;
}

abbrev pub agent_registration : Registration ℕ
agent_registration = record {
  os_pid = pos 41;
  tree_id = [];
  parent_pid = negsuc 0;
  role = codes "agent";
  trace_id = [];
  initial_status = ProcessStatus.starting;
  initial_memory_mb = 20;
  is_system_handler = false;
}

abbrev pub tool_registration : Registration ℕ
tool_registration = record {
  os_pid = pos 42;
  tree_id = codes "TREE_1";
  parent_pid = pos 1001;
  role = codes "tool";
  trace_id = [];
  initial_status = ProcessStatus.running;
  initial_memory_mb = 30;
  is_system_handler = false;
}

-- The same for a tree that does not exist.
abbrev pub stray_registration : Registration ℕ
stray_registration = record tool_registration { tree_id = codes "TREE_9" }

abbrev pub calls : List (Call ℕ)
calls =
    creates 50 (codes "TREE_HANDLER")
    ∷ registers 100 handler_registration
    ∷ registers 200 agent_registration
    ∷ registers 300 tool_registration
    ∷ []

abbrev pub sample : Registry ℕ
sample = run init calls

-- The calls of an agent that registers alone and ends.
abbrev pub ended_calls : List (Call ℕ)
ended_calls = registers 200 agent_registration ∷ terminates 400 (pos 1000) ∷ []

abbrev pub ended : Registry ℕ
ended = run init ended_calls

-- The agent there, at its end.
abbrev pub agent_ended : ProcessInfo ℕ
agent_ended = close 400 (new_process 200 (pos 1000) (codes "TREE_1") agent_registration)

abbrev pub agent : ProcessInfo ℕ
agent = new_process 200 (pos 1001) (codes "TREE_1") agent_registration

abbrev pub tool : ProcessInfo ℕ
tool = new_process 300 (pos 1002) (codes "TREE_1") tool_registration

abbrev pub tool_target : TerminationTarget
tool_target = record {
  velix_pid = pos 1002;
  os_pid = pos 42;
  tree_id = codes "TREE_1";
  trace_id = [];
  parent_pid = pos 1001;
}

-- The watchdogs' view of the tool.
abbrev pub entry : WatchdogEntry ℕ
entry = record {
  pid = pos 1002;
  os_pid = pos 42;
  tree_id = codes "TREE_1";
  parent_pid = pos 1001;
  trace_id = [];
  last_heartbeat_ms = 300;
  tree_created_at_ms = 200;
  memory_mb = 30;
  status = ProcessStatus.running;
  alive = true;
}

abbrev pub watchdog_config : Config ℕ
watchdog_config = record {
  heartbeat_timeout_sec = pos 15;
  max_tree_runtime_sec = pos 3600;
  max_memory_per_tree_mb = 2048;
  max_llm_requests_per_tree = pos 1000;
  watchdog_interval_ms = pos 1000;
  terminate_grace_ms = pos 1500;
  exempt_system_tree_limits = true;
}

abbrev pub config : SupervisorConfig ℕ
config = record {
  require_auth_token = false;
  auth_token = [];
  conversation_enabled = true;
  heartbeat_timeout_sec = pos 15;
  max_tree_runtime_sec = pos 3600;
  max_memory_per_tree_mb = 2048;
  max_llm_requests_per_tree = pos 1000;
  terminate_grace_ms = pos 1500;
  process_convo_ttl_sec = pos 86400;
  handler_auto_restart = true;
  handler_binary = codes "handler";
  handler_restart_delay_ms = pos 2000;
}

abbrev pub supervisor : Supervisor ℕ
supervisor = record {
  registry = sample;
  process_convos = [];
  convo_metadata = [];
  handler_os_pid = pos 40;
  handler_velix_pid = pos 1000;
  handler_needs_restart = false;
  handler_dead_since = 0;
}

abbrev pub empty_payload : Payload ℕ
empty_payload = record {
  register_intent = none;
  role = none;
  os_pid = none;
  status = none;
  memory_mb = none;
  trace_id = none;
  tree_id = none;
}

-- TREE_KILL of the agent's tree.
abbrev pub kill_message : Message ℕ
kill_message = record {
  is_object = true;
  message_type = some (codes "TREE_KILL");
  auth_token = none;
  pid = none;
  source_pid = none;
  tree_id = some (codes "TREE_1");
  convo_id = none;
  user_id = none;
  mode = none;
  payload = empty_payload;
}

abbrev pub handler : ProcessInfo ℕ
handler = new_process 100 (pos 1000) (codes "TREE_HANDLER") handler_registration

abbrev pub handler_target : TerminationTarget
handler_target = record {
  velix_pid = pos 1000;
  os_pid = pos 40;
  tree_id = codes "TREE_HANDLER";
  trace_id = [];
  parent_pid = negsuc 0;
}

-- REGISTER_PID of a new handler.
abbrev pub handler_message : Message ℕ
handler_message = record {
  is_object = true;
  message_type = some (codes "REGISTER_PID");
  auth_token = none;
  pid = none;
  source_pid = none;
  tree_id = none;
  convo_id = none;
  user_id = none;
  mode = none;
  payload = record {
    register_intent = some (codes "NEW_TREE");
    role = some (codes "handler");
    os_pid = some (pos 77);
    status = none;
    memory_mb = none;
    trace_id = none;
    tree_id = none;
  };
}
