-- ===== src/Supervisor/TreeKill.antt =====
-- handle_tree_kill: which processes it kills.
use velix.Prelude.{
  str_eq, int_eq, ℕ, ℤ, Str, List, Map, [], ◌∷◌, some, Bool, false, ◌≡◌, ◌&&◌, ◌==◌, refl, arith,
  find, modify, find-modify, contains, members, is_empty, is_empty-nil, contains-nil, Bool-cases,
  Option-cases, inl, inr, ==_iff, if◌then◌else◌, codes,
}
use velix.Registry.State.{ProcessStatus, ProcessInfo, Registry}
use velix.Registry.Ending.{set_status, set_killed, is_alive, kill_loop, kill_tree}
use velix.Registry.Queries.{get_process}
use velix.Registry.Invariant.{IsValid}
use velix.Termination.Leaks.{targets, marks-find, kill_processes-eq-marks}
use velix.Watchdog.{live_targets}
use velix.Supervisor.State.{SupervisorConfig}
use velix.Supervisor.Messages.{Message}
use velix.Supervisor.Handlers.{reap, named_tree, handle_tree_kill}

module _ {D : Type 0} where
  -- What the loop of kill_tree does to a process.
  abbrev swept : Bool → ProcessInfo D → ProcessInfo D
  swept hit p = if hit && p.alive then set_status ProcessStatus.killed p else p

  record Sweeps (k : ℤ) (p : ProcessInfo D) (ks : List ℤ) (m : Map ℤ (ProcessInfo D)) : Type 0 where
    written : find k (kill_loop ks m).1 ≡ some (swept (contains k ks) p)
    collected : contains k (kill_loop ks m).0 ≡ (contains k ks && p.alive)

  kill_loop-Sweeps :
      (k : ℤ) (p : ProcessInfo D) (ks : List ℤ) (m : Map ℤ (ProcessInfo D))
      → find k m ≡ some p
      → Sweeps k p ks m
  unfolding kill_loop is_alive contains
  kill_loop-Sweeps k p [] m e = record { written = e; collected = refl }
  kill_loop-Sweeps k p (j ∷ ks) m e = elim (Bool-cases (is_alive j m)) [
    | inl on ↦
        let p1 = if j == k then set_status ProcessStatus.killed p else p in
        let e1 : find k (modify j (set_status ProcessStatus.killed) m) ≡ some p1 =
          ground (arith, e, find-modify j k (set_status ProcessStatus.killed) m) in
        let sub = kill_loop-Sweeps k p1 ks (modify j (set_status ProcessStatus.killed) m) e1 in
        record {
          written = rw (on, kill_loop) (ground (arith, on, e, sub.written, ==_iff j k));
          collected = rw (on, kill_loop) (ground (arith, on, e, sub.collected, ==_iff j k));
        }
    | inr off ↦
        let sub = kill_loop-Sweeps k p ks m e in
        record {
          written = rw (off, kill_loop) (ground (arith, off, e, sub.written, ==_iff j k));
          collected = rw (off, kill_loop) (ground (arith, off, e, sub.collected, ==_iff j k));
        }
  ]

  live_targets-targets :
      (k : ℤ) (p : ProcessInfo D) (id : Str) (ks : List ℤ) (r : Registry D)
      → find k r.process_table ≡ some p
      → targets k (live_targets id ks r) ≡ (contains k ks && p.alive)
  unfolding live_targets contains get_process
  live_targets-targets k p id [] r e = refl
  live_targets-targets k p id (j ∷ ks) r e = elim (Option-cases (find j r.process_table)) [
    | inl no_entry ↦ ground (arith, no_entry, e, live_targets-targets k p id ks r e, ==_iff j k)
    | inr (q, entry) ↦ ground (arith, entry, e, live_targets-targets k p id ks r e, ==_iff j k)
  ]

  -- After TREE_KILL of a named tree in a valid registry, each process on record is killed and dead if it was a live one
  -- of that tree, and is as it was otherwise.
  pub tree_kill_exact :
      (cfg : SupervisorConfig D) (clock : ℕ → ℕ) (m : Message D) (r : Registry D) (k : ℤ)
      (p : ProcessInfo D)
      → IsValid r
      → is_empty (named_tree m) ≡ false
      → find k r.process_table ≡ some p
      → find k (handle_tree_kill cfg clock m r).0.process_table
        ≡ some (if p.alive && p.tree_id == named_tree m then set_killed p else p)
  unfolding handle_tree_kill reap kill_tree
  tree_kill_exact cfg clock m r k p v named e =
      let id = named_tree m in
      let ks = members id r.tree_process_index in
      let sweep = kill_loop-Sweeps k p ks r.process_table e in
      let listed : (contains k ks && p.alive) ≡ (p.alive && p.tree_id == id) =
        ground (arith, e, v.indexed id k, v.listed k p e, ==_iff p.tree_id id) in
      elim (Bool-cases (is_empty (kill_tree id r).1)) [
        | inl nobody ↦
            rw (named, nobody, handle_tree_kill)
              (ground (
                arith,
                sweep.written,
                sweep.collected,
                listed,
                is_empty-nil (kill_loop ks r.process_table).0 nobody,
                contains-nil k,
              ))
        | inr some_pids ↦
            let p1 = swept (contains k ks) p in
            let r1 = (kill_tree id r).0 in
            let pids = (kill_tree id r).1 in
            let ts = live_targets id pids r1 in
            rw (named, some_pids, handle_tree_kill)
              (rw (kill_processes-eq-marks clock cfg.terminate_grace_ms (codes "tree_kill") ts r1) (
                ground (
                  arith,
                  marks-find k ts r1 p1 sweep.written,
                  live_targets-targets k p1 id pids r1 sweep.written,
                  sweep.collected,
                  listed,
                )))
      ]
