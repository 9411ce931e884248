-- ===== src/Supervisor/Upkeep.antt =====
-- The registry's invariant under terminations, messages and watchdog rounds.
use velix.Prelude.{str_eq, int_eq, ℕ, suc, ℤ, Str, List, [], ◌∷◌, members, is_empty, if_cases}
use velix.Double.{Double}
use velix.Registry.State.{Registry}
use velix.Registry.Ending.{kill_tree, mark_process_killed, cleanup_historical_processes}
use velix.Registry.Invariant.{IsValid}
use velix.Registry.Invariant.Modify.{modify-Agree}
use velix.Registry.Invariant.Sweep.{sweep-Agree}
use velix.Registry.Steps.Validity.{
  set_killed-Keeps, kill_loop-Agree, terminate_process-IsValid, complete-IsValid,
}
use velix.Termination.{TerminationTarget, kill_one, kill_processes}
use velix.Watchdog.{kill_if_any, live_targets}
use velix.Supervisor.State.{SupervisorConfig}
use velix.Supervisor.Handlers.{reap}
use velix.Registry.Queries.{snapshot_for_watchdog, get_all_tree_ids_with_created_at}
use velix.Supervisor.Round.{Work, registry_round, reap_silent, retention_ms, silent_targets}
use velix.Supervisor.RoundRule.{police_inv}

module _ {D : Type 0} where
  kill_one-IsValid :
      (now : ℕ) (t : TerminationTarget) (r : Registry D) → IsValid r → IsValid (kill_one now t r)
  unfolding kill_one mark_process_killed
  kill_one-IsValid now t r v =
      terminate_process-IsValid now t.velix_pid (mark_process_killed t.velix_pid r)
        (modify-Agree t.velix_pid _ set_killed-Keeps _ _ _ _ v)

  pub kill_processes-IsValid :
      (clock : ℕ → ℕ) (grace : ℤ) (reason : Str) (ts : List TerminationTarget) (r : Registry D)
      → IsValid r
      → IsValid (kill_processes clock grace reason ts r).0
  unfolding kill_processes
  kill_processes-IsValid clock grace reason [] r v = v
  kill_processes-IsValid clock grace reason (t ∷ ts) r v =
      kill_processes-IsValid (λ n. clock (suc n)) grace reason ts (kill_one (clock 0) t r)
        (kill_one-IsValid (clock 0) t r v)

  kill_if_any-IsValid :
      (clock : ℕ → ℕ) (grace : ℤ) (reason : Str) (ts : List TerminationTarget) (r : Registry D)
      → IsValid r
      → IsValid (kill_if_any clock grace reason ts r).0
  unfolding kill_if_any
  kill_if_any-IsValid clock grace reason [] r v = v
  kill_if_any-IsValid clock grace reason (t ∷ ts) r v =
      kill_processes-IsValid clock grace reason (t ∷ ts) r v

  kill_tree-IsValid : (id : Str) (r : Registry D) → IsValid r → IsValid (kill_tree id r).0
  unfolding kill_tree
  kill_tree-IsValid id r v = kill_loop-Agree (members id r.tree_process_index) _ _ _ _ v

  abbrev ValidWork : Work D → Type 0
  ValidWork w = IsValid w.0

  pub reap-IsValid :
      (clock : ℕ → ℕ) (grace : ℤ) (reason id : Str) (r : Registry D)
      → IsValid r
      → IsValid (reap clock grace reason id r).0
  unfolding reap
  reap-IsValid clock grace reason id r v =
      if_cases ValidWork (is_empty (kill_tree id r).1) _ _ (kill_tree-IsValid id r v) (
        kill_processes-IsValid clock grace reason
          (live_targets id (kill_tree id r).1 (kill_tree id r).0) (kill_tree id r).0
          (kill_tree-IsValid id r v))

  pub reap_silent-IsValid :
      (cfg : SupervisorConfig D) (now : ℕ) (clock : ℕ → ℕ) (r : Registry D)
      → IsValid r
      → IsValid (reap_silent cfg now clock r).0
  unfolding reap_silent cleanup_historical_processes
  reap_silent-IsValid cfg now clock r v =
      let r1 = cleanup_historical_processes now retention_ms r in
      kill_if_any-IsValid clock cfg.terminate_grace_ms _
        (silent_targets cfg now (snapshot_for_watchdog r1)) r1
        (sweep-Agree now retention_ms _ _ _ _ v)

  -- A round of the watchdog keeps the registry's invariant, whatever the limits, the clocks and the effects.
  registry_round-IsValid :
      (d : Double D) (cfg : SupervisorConfig D) (now : ℕ) (clock : ℕ → ℕ) (r : Registry D)
      → IsValid r
      → IsValid (registry_round d cfg now clock r).0
  unfolding registry_round
  registry_round-IsValid d cfg now clock r v =
      police_inv IsValid complete-IsValid d cfg now clock
        (get_all_tree_ids_with_created_at (reap_silent cfg now clock r).0)
        (reap_silent cfg now clock r)
        (λ reason id r ne v. reap-IsValid clock cfg.terminate_grace_ms reason id r v)
        (reap_silent-IsValid cfg now clock r v)
