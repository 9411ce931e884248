-- ===== src/Watchdog.antt =====
-- core/termination_engine.hpp and .cpp: WatchdogEngine. `pass` is one round of watchdog_loop, with `now` the
-- clock's value at its start; the other threads do not run inside a pass.
pub mod Heartbeat
use velix.Prelude.{
  str_eq, codes, int_eq, ℕ, ℤ, is_pos, Str, Map, Option, none, some, Bool, true, false, not, ◌&&◌,
  ◌||◌, List, [], ◌∷◌, ◌++◌, find, insert, members, set_insert, ltb, ◌==◌, is_empty, if◌then◌else◌,
}
use velix.Prelude.Words.{sub64, mul64, to_u64}
use velix.Double.{Double}
use velix.Registry.State.{ProcessInfo, Registry, tree_handler}
use velix.Registry.Trees.{mark_tree_completed_if_done, mark_tree_failed}
use velix.Registry.Queries.{
  WatchdogEntry, snapshot_for_watchdog, get_all_tree_ids, get_process, get_tree_status,
  compute_tree_memory_mb,
}
use velix.Termination.{TerminationTarget, Effect, kill_processes}

pub record Config (D : Type 0) : Type 0 where
  pub heartbeat_timeout_sec : ℤ
  pub max_tree_runtime_sec : ℤ
  pub max_memory_per_tree_mb : D
  pub max_llm_requests_per_tree : ℤ
  pub watchdog_interval_ms : ℤ
  pub terminate_grace_ms : ℤ
  pub exempt_system_tree_limits : Bool

unfoldable pub should_exempt_tree : Str → Bool
should_exempt_tree id = id == tree_handler

-- pids_by_tree and failed_trees.
pub record Failures : Type 0 where
  pub pids_by_tree : Map Str (List ℤ)
  pub failed_trees : List Str

module _ {D : Type 0} where
  unfoldable pub is_heartbeat_timeout : Config D → WatchdogEntry D → ℕ → Bool
  is_heartbeat_timeout cfg e now =
      ltb (mul64 (to_u64 cfg.heartbeat_timeout_sec) 1000) (sub64 now e.last_heartbeat_ms)

  unfoldable pub is_tree_runtime_exceeded : Config D → Str → ℕ → ℕ → Bool
  unfolding should_exempt_tree
  is_tree_runtime_exceeded cfg id created_ms now =
      if not (is_pos cfg.max_tree_runtime_sec)
      then false
      else if should_exempt_tree id
      then false
      else ltb (mul64 (to_u64 cfg.max_tree_runtime_sec) 1000) (sub64 now created_ms)

  unfoldable pub is_tree_memory_exceeded : Double D → Config D → Str → Registry D → Bool
  unfolding should_exempt_tree
  is_tree_memory_exceeded d cfg id r =
      if d.le cfg.max_memory_per_tree_mb d.zero
      then false
      else if should_exempt_tree id
      then false
      else d.lt cfg.max_memory_per_tree_mb (compute_tree_memory_mb d.zero d.add id r)

  unfoldable pub is_tree_llm_limit_exceeded : Config D → Str → Registry D → Bool
  unfolding should_exempt_tree
  is_tree_llm_limit_exceeded cfg id r =
      if not (is_pos cfg.max_llm_requests_per_tree)
      then false
      else if should_exempt_tree id
      then false
      else if not (get_tree_status id r).found
      then false
      else false

  unfoldable pub has_failure : Double D → Config D → ℕ → Registry D → WatchdogEntry D → Bool
  unfolding is_heartbeat_timeout is_tree_memory_exceeded is_tree_llm_limit_exceeded
  has_failure d cfg now r e =
      is_heartbeat_timeout cfg e now
      || is_tree_memory_exceeded d cfg e.tree_id r
      || is_tree_llm_limit_exceeded cfg e.tree_id r

  unfoldable pub collect : (WatchdogEntry D → Bool) → List (WatchdogEntry D) → Failures → Failures
  collect fails [] f = f
  collect fails (e ∷ es) f = collect fails es (
      if fails e
      then record {
        pids_by_tree =
            insert e.tree_id (members e.tree_id f.pids_by_tree ++ (e.pid ∷ [])) f.pids_by_tree;
        failed_trees = set_insert e.tree_id f.failed_trees;
      }
      else f)

  unfoldable pub fail_all : List Str → Registry D → Registry D
  fail_all [] r = r
  fail_all (id ∷ ids) r = fail_all ids (mark_tree_failed id r)

  abbrev pub target_of : ℤ → Str → ProcessInfo D → TerminationTarget
  target_of pid id p = record {
    velix_pid = pid;
    os_pid = p.os_pid;
    tree_id = id;
    trace_id = p.trace_id;
    parent_pid = p.parent_pid;
  }

  -- The targets among the pids of one tree: the live processes.
  unfoldable pub live_targets : Str → List ℤ → Registry D → List TerminationTarget
  live_targets id [] r = []
  live_targets id (pid ∷ pids) r =
      let rest = live_targets id pids r in
      elim (get_process pid r) [
        | none ↦ rest
        | some p ↦ if p.alive then target_of pid id p ∷ rest else rest
      ]

  unfoldable pub build_targets : Map Str (List ℤ) → Registry D → List TerminationTarget
  unfolding live_targets
  build_targets [] r = []
  build_targets ((id, pids) ∷ m) r = live_targets id pids r ++ build_targets m r

  unfoldable pub complete_all : List Str → Registry D → Registry D
  complete_all [] r = r
  complete_all (id ∷ ids) r = complete_all ids (mark_tree_completed_if_done id r).0

  unfoldable pub kill_if_any :
      (ℕ → ℕ) → ℤ → Str → List TerminationTarget → Registry D → Registry D × List Effect
  kill_if_any clock grace reason [] r = (r, [])
  kill_if_any clock grace reason (t ∷ ts) r = kill_processes clock grace reason (t ∷ ts) r

  unfoldable pub pass : Double D → Config D → ℕ → (ℕ → ℕ) → Registry D → Registry D × List Effect
  unfolding collect fail_all build_targets complete_all kill_if_any
  pass d cfg now clock r =
      let failures =
        collect (has_failure d cfg now r) (snapshot_for_watchdog r)
          (record { pids_by_tree = []; failed_trees = [] }) in
      let r1 = fail_all failures.failed_trees r in
      let targets = build_targets failures.pids_by_tree r1 in
      let killed = kill_if_any clock cfg.terminate_grace_ms (codes "watchdog_policy") targets r1 in
      (complete_all (get_all_tree_ids killed.0) killed.0, killed.1)
