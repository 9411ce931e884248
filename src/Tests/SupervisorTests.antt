-- ===== src/Tests/SupervisorTests.antt =====
-- The theorems on killing, on the watchdogs and on the supervisor, at the sample registry.
use velix.Prelude.{
  ◌&&◌, ◌==◌, if◌then◌else◌, none, str_beq, pos, ◌+◌, ◌-◌, ◌*◌, [], ◌∷◌, some, true, false, codes,
  int_eq, str_eq, ◌≡◌, refl, find, ltb, arith, int_beq,
}
use velix.Registry.State.{tree_handler}
use velix.Registry.Trees.{mark_tree_completed_if_done}
use velix.Registry.Ending.{set_killed, cleanup_historical_processes}
use velix.Registry.Invariant.{IsValid}
use velix.Termination.{kill_processes}
use velix.Termination.Leaks.{targets, killed_process_leaks}
use velix.Supervisor.Status.{is_valid_process_status_text}
use velix.Supervisor.Round.{reap_silent}
use velix.Supervisor.Handlers.{handle_message}
use velix.Supervisor.Sessions.{handle_message-IsValid}
use velix.Supervisor.Messages.{failed}
use velix.Supervisor.Registering.{check_register, handle_register_pid}
use velix.Supervisor.Handlers.{handle_tree_kill, named_tree}
use velix.Supervisor.TreeKill.{tree_kill_exact}
use velix.Supervisor.Silence.{reap_silent_exact}
use velix.Supervisor.Lockout.{killed_handler_locks_out}
use velix.Tests.Samples.{
  handler, handler_target, handler_message, natural, sample, tool, tool_target, config, supervisor,
  kill_message,
}
use velix.Tests.RegistryTests.{sample-IsValid, tool_there, sample_room, handler_there}

hit : targets (pos 1002) (tool_target ∷ []) ≡ true
unfolding int_beq
hit = refl

killed_process_leaks_example :
    let swept =
      cleanup_historical_processes 900000 300000
        (kill_processes (λ n. 500) (pos 1500) (codes "tree_kill") (tool_target ∷ []) sample).0 in
    (find (pos 1002) swept.process_table ≡ some (set_killed tool))
    × ((mark_tree_completed_if_done (codes "TREE_1") swept).1 ≡ false)
killed_process_leaks_example =
    killed_process_leaks (λ n. 500) (pos 1500) (codes "tree_kill") (tool_target ∷ []) sample
      (pos 1002) tool 900000 300000 sample-IsValid tool_there refl hit

handle_message-IsValid_example :
    IsValid (handle_message config natural (λ n. 400 + n) kill_message supervisor).0.registry
handle_message-IsValid_example =
    handle_message-IsValid config natural (λ n. 400 + n) kill_message supervisor sample_room
      sample-IsValid

target_hit : targets (pos 1000) (handler_target ∷ []) ≡ true
unfolding int_beq
target_hit = refl

well_formed : check_register handler_message ≡ none
unfolding check_register is_valid_process_status_text str_beq
well_formed = refl

handler_home : handler.tree_id ≡ tree_handler
unfolding tree_handler
handler_home = refl

killed_handler_locks_out_example :
    let s' = record supervisor {
      registry =
          (kill_processes
            (λ n. 500)
            (pos 1500)
            (codes "heartbeat_timeout")
            (handler_target ∷ [])
            sample).0;
    } in
    handle_register_pid natural 900 handler_message s'
    ≡ (s', failed (codes "handler_role_reserved_for_bootstrap"))
killed_handler_locks_out_example =
    killed_handler_locks_out natural (λ n. 500) (pos 1500) (codes "heartbeat_timeout")
      (handler_target ∷ []) supervisor (pos 1000) handler 900 handler_message sample-IsValid
      handler_there refl handler_home target_hit refl well_formed

tree_kill_exact_example :
    find (pos 1002) (handle_tree_kill config (λ n. 400 + n) kill_message sample).0.process_table
    ≡ some (if tool.alive && tool.tree_id == named_tree kill_message then set_killed tool else tool)
tree_kill_exact_example =
    tree_kill_exact config (λ n. 400 + n) kill_message sample (pos 1002) tool sample-IsValid refl
      tool_there

reap_silent_exact_example :
    find (pos 1002) (reap_silent config 20000 (λ n. 20000 + n) sample).0.process_table
    ≡ some (if ltb (15 * 1000) (20000 - tool.last_heartbeat_ms) then set_killed tool else tool)
reap_silent_exact_example =
    reap_silent_exact config 20000 15 (λ n. 20000 + n) sample (pos 1002) tool sample-IsValid
      tool_there refl refl (omega arith) (omega arith) (omega arith)
