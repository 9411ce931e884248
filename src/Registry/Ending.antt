-- ===== src/Registry/Ending.antt =====
-- core/process_registry.cpp: how processes end. `now` is the clock's value at the call.
use velix.Prelude.{
  str_eq, int_eq, ℕ, ℤ, is_pos, Str, Map, none, some, Bool, false, not, ◌&&◌, List, [], ◌∷◌, find,
  erase, modify, members, remove_member, ltb, if◌then◌else◌,
}
use velix.Prelude.Words.{sub64}
use velix.Registry.State.{ProcessStatus, ProcessInfo, TreeStatus, Registry}
use velix.Registry.Trees.{set_tree_status}

module _ {D : Type 0} where
  abbrev pub set_status : ProcessStatus → ProcessInfo D → ProcessInfo D
  set_status s p = record p { status = s }

  -- `find` succeeds and the process is alive.
  unfoldable pub is_alive : ℤ → Map ℤ (ProcessInfo D) → Bool
  is_alive pid m = elim (find pid m) [ none ↦ false | some p ↦ p.alive ]

  -- The loop of kill_tree: the pids collected, and the table with their statuses written.
  unfoldable pub kill_loop : List ℤ → Map ℤ (ProcessInfo D) → List ℤ × Map ℤ (ProcessInfo D)
  unfolding is_alive
  kill_loop [] m = ([], m)
  kill_loop (pid ∷ pids) m =
      let hit = is_alive pid m in
      let rest =
        kill_loop pids (if hit then modify pid (set_status ProcessStatus.killed) m else m) in
      (if hit then pid ∷ rest.0 else rest.0, rest.1)

  unfoldable pub kill_tree : Str → Registry D → Registry D × List ℤ
  unfolding kill_loop
  kill_tree id r =
      let swept = kill_loop (members id r.tree_process_index) r.process_table in
      (
        record r {
          tree_table = modify id (set_tree_status TreeStatus.killed) r.tree_table;
          process_table = swept.1;
        },
        swept.0,
      )

  abbrev pub set_killed : ProcessInfo D → ProcessInfo D
  set_killed p = record p { status = ProcessStatus.killed; alive = false }

  unfoldable pub mark_process_killed : ℤ → Registry D → Registry D
  mark_process_killed pid r = record r { process_table = modify pid set_killed r.process_table }

  -- Take a process out of the indexes.
  unfoldable pub unlink : ℤ → ProcessInfo D → Registry D → Registry D
  unlink pid p r = record r {
    tree_process_index = remove_member p.tree_id pid r.tree_process_index;
    process_children = erase pid (
        if is_pos p.parent_pid
        then remove_member p.parent_pid pid r.process_children
        else r.process_children);
  }

  unfoldable pub on_process_terminal_unlocked : ℤ → Registry D → Registry D
  unfolding unlink
  on_process_terminal_unlocked pid r = elim (find pid r.process_table) [
    | none ↦ r
    | some p ↦ unlink pid p r
  ]

  abbrev pub close : ℕ → ProcessInfo D → ProcessInfo D
  close now q = record q { alive = false; termination_time_ms = now }

  -- What terminate_process does once `alive` was exchanged from true to false.
  unfoldable pub retire : ℕ → ℤ → ProcessInfo D → Registry D → Registry D
  unfolding unlink
  retire now pid p r =
      let r1 = unlink pid p r in
      record r1 { process_table = modify pid (close now) r1.process_table }

  unfoldable pub terminate_process : ℕ → ℤ → Registry D → Registry D
  unfolding retire
  terminate_process now pid r = elim (find pid r.process_table) [
    | none ↦ r
    | some p ↦ if p.alive then retire now pid p r else r
  ]

  -- The test of the cleanup loop.
  unfoldable pub is_stale : ℕ → ℕ → ProcessInfo D → Bool
  is_stale now retention p =
      not p.alive
      && (ltb 0 p.termination_time_ms && ltb retention (sub64 now p.termination_time_ms))

  unfoldable pub cleanup_loop : ℕ → ℕ → Map ℤ (ProcessInfo D) → Map ℤ (ProcessInfo D)
  unfolding is_stale
  cleanup_loop now retention [] = []
  cleanup_loop now retention ((k, p) ∷ m) =
      let rest = cleanup_loop now retention m in
      if is_stale now retention p then rest else (k, p) ∷ rest

  unfoldable pub cleanup_historical_processes : ℕ → ℕ → Registry D → Registry D
  unfolding cleanup_loop
  cleanup_historical_processes now retention r = record r {
    process_table = cleanup_loop now retention r.process_table;
  }
