-- ===== src/Registry/Steps.antt =====
-- The calls that change a ProcessRegistry, as one type; each holds the registry's lock or writes
-- atomics only, and is one step here.
pub mod Registering
pub mod Validity
use velix.Prelude.{ℕ, ℤ, Str, List, [], ◌∷◌}
use velix.Registry.State.{ProcessStatus, Registry}
use velix.Registry.Trees.{
  create_tree, increment_llm_request, mark_tree_completed_if_done, mark_tree_failed,
}
use velix.Registry.Processes.{Registration, register_process, update_heartbeat}
use velix.Registry.Ending.{
  kill_tree, mark_process_killed, terminate_process, cleanup_historical_processes,
}

pub data Call (D : Type 0) : Type 0 where
  registers : ℕ → Registration D → Call D
  heartbeats : ℤ → ProcessStatus → D → ℕ → Call D
  kills_tree : Str → Call D
  kills : ℤ → Call D
  terminates : ℕ → ℤ → Call D
  counts_request : Str → Call D
  cleans : ℕ → ℕ → Call D
  completes : Str → Call D
  fails : Str → Call D
  creates : ℕ → Str → Call D

module _ {D : Type 0} where
  unfoldable pub step : Registry D → Call D → Registry D
  step r (registers now a) = (register_process now a r).0
  step r (heartbeats pid status memory_mb now) = update_heartbeat pid status memory_mb now r
  step r (kills_tree id) = (kill_tree id r).0
  step r (kills pid) = mark_process_killed pid r
  step r (terminates now pid) = terminate_process now pid r
  step r (counts_request id) = increment_llm_request id r
  step r (cleans now retention) = cleanup_historical_processes now retention r
  step r (completes id) = (mark_tree_completed_if_done id r).0
  step r (fails id) = mark_tree_failed id r
  step r (creates now id) = (create_tree now id r).0

  unfoldable pub run : Registry D → List (Call D) → Registry D
  unfolding step
  run r [] = r
  run r (c ∷ cs) = run (step r c) cs
