-- ===== src/Registry/Steps/Validity.antt =====
-- The registry's invariant under each call.
use velix.Prelude.{
  str_eq, int_eq, ℕ, ◌+◌, ◌<◌, ◌≤◌, ℤ, Str, Map, List, [], ◌∷◌, refl, arith, find, members,
  contains, length, Bool-cases, Option-cases, inl, inr,
}
use velix.Prelude.Words.{u64_mod, add64_lt}
use velix.Registry.State.{ProcessStatus, ProcessInfo, Registry, init}
use velix.Registry.Trees.{
  create_tree, increment_llm_request, mark_tree_completed_if_done, mark_tree_failed, is_done,
}
use velix.Registry.Processes.{
  register_process, place, join_tree, found_tree, admit, update_heartbeat, beat,
}
use velix.Registry.Ending.{
  set_status, set_killed, kill_loop, is_alive, kill_tree, mark_process_killed, terminate_process,
  retire, cleanup_historical_processes,
}
use velix.Registry.Invariant.{Agree, IsValid}
use velix.Registry.Invariant.Modify.{Keeps, modify-Agree}
use velix.Registry.Invariant.Retire.{retire-Agree}
use velix.Registry.Invariant.Sweep.{sweep-Agree}
use velix.Registry.Steps.{
  Call, registers, heartbeats, kills_tree, kills, terminates, counts_request, cleans, completes,
  fails, creates, step, run,
}
use velix.Registry.Steps.Registering.{register_process-IsValid}

module _ {D : Type 0} where
  pub set_status-Keeps : (s : ProcessStatus) → Keeps {D = D} (set_status s)
  set_status-Keeps s = record {
    pid = λ p. refl;
    tree_id = λ p. refl;
    parent_pid = λ p. refl;
    time = λ p. refl;
    alive = λ p a. a;
  }

  pub set_killed-Keeps : Keeps {D = D} set_killed
  set_killed-Keeps = record {
    pid = λ p. refl;
    tree_id = λ p. refl;
    parent_pid = λ p. refl;
    time = λ p. refl;
    alive = λ p a. cc;
  }

  pub beat-Keeps : (s : ProcessStatus) (memory_mb : D) (now : ℕ) → Keeps (beat s memory_mb now)
  beat-Keeps s memory_mb now = record {
    pid = λ p. ground arith;
    tree_id = λ p. ground arith;
    parent_pid = λ p. ground arith;
    time = λ p. ground arith;
    alive = λ p a. ground arith;
  }

  pub kill_loop-Agree :
      (pids : List ℤ) (table : Map ℤ (ProcessInfo D)) (index : Map Str (List ℤ))
      (children : Map ℤ (List ℤ)) (c : ℕ)
      → Agree table index children c
      → Agree (kill_loop pids table).1 index children c
  unfolding kill_loop
  kill_loop-Agree [] table index children c v = v
  kill_loop-Agree (pid ∷ pids) table index children c v =
      kill_loop-Agree pids _ index children c (elim (Bool-cases (is_alive pid table)) [
        | inl e ↦
            rw e
              (modify-Agree pid _ (set_status-Keeps ProcessStatus.killed) table index children c v)
        | inr e ↦ rw e v
      ])

  pub terminate_process-IsValid :
      (now : ℕ) (pid : ℤ) (r : Registry D) → IsValid r → IsValid (terminate_process now pid r)
  unfolding terminate_process retire
  terminate_process-IsValid now pid r v = elim (Option-cases (find pid r.process_table)) [
    | inl e ↦ rw (e, terminate_process) v
    | inr (p, e) ↦ elim (Bool-cases p.alive) [
      | inl on ↦
          rw (e, on, terminate_process)
            (retire-Agree r.process_table r.tree_process_index r.process_children r.process_counter
              now pid p v e)
      | inr off ↦ rw (e, off, terminate_process) v
    ]
  ]

  pub complete-IsValid :
      (id : Str) (r : Registry D) → IsValid r → IsValid (mark_tree_completed_if_done id r).0
  unfolding mark_tree_completed_if_done
  complete-IsValid id r v = elim (Bool-cases (is_done id r)) [
    | inl e ↦ rw (e, mark_tree_completed_if_done) v
    | inr e ↦ rw (e, mark_tree_completed_if_done) v
  ]

  -- One more call keeps the invariant, if the 64-bit pid counter does not wrap at it.
  pub step-IsValid :
      (r : Registry D) (c : Call D)
      → r.process_counter + 1 < u64_mod
      → IsValid r
      → IsValid (step r c)
  unfolding step update_heartbeat kill_tree mark_process_killed increment_llm_request create_tree
      cleanup_historical_processes mark_tree_failed mark_tree_completed_if_done
  step-IsValid r (registers now a) h v = register_process-IsValid now a r h v
  step-IsValid r (heartbeats pid s memory_mb now) h v =
      modify-Agree pid _ (beat-Keeps s memory_mb now) _ _ _ _ v
  step-IsValid r (kills_tree id) h v = kill_loop-Agree (members id r.tree_process_index) _ _ _ _ v
  step-IsValid r (kills pid) h v = modify-Agree pid _ set_killed-Keeps _ _ _ _ v
  step-IsValid r (terminates now pid) h v = terminate_process-IsValid now pid r v
  step-IsValid r (counts_request id) h v = v
  step-IsValid r (cleans now retention) h v = sweep-Agree now retention _ _ _ _ v
  step-IsValid r (completes id) h v = complete-IsValid id r v
  step-IsValid r (fails id) h v = v
  step-IsValid r (creates now id) h v = v

  pub counter-step :
      (r : Registry D) (c : Call D)
      → r.process_counter + 1 < u64_mod
      → (step r c).process_counter ≤ r.process_counter + 1
  unfolding step update_heartbeat kill_tree mark_process_killed increment_llm_request create_tree
      cleanup_historical_processes mark_tree_failed mark_tree_completed_if_done register_process
      place found_tree admit join_tree terminate_process retire
  counter-step r (registers now a) h = ground (arith, add64_lt r.process_counter 1)
  counter-step r (completes id) h = ground arith
  counter-step r (terminates now pid) h = ground arith
  counter-step r c h = omega arith

  -- Every registry that calls lead to from a valid one is valid, if the 64-bit pid counter does not wrap even when each
  -- of the calls takes a pid.
  pub run-IsValid :
      (r : Registry D) (cs : List (Call D))
      → IsValid r
      → r.process_counter + length cs < u64_mod
      → IsValid (run r cs)
  unfolding run
  run-IsValid r [] v h = v
  run-IsValid r (c ∷ cs) v h =
      run-IsValid (step r c) cs (step-IsValid r c (omega arith) v)
        (omega (arith, counter-step r c (omega arith)))

  pub init-IsValid : IsValid {D = D} init
  unfolding members contains find
  init-IsValid = record {
    unique = tt;
    keyed = λ k p e. cc;
    bounded = λ k p e. cc;
    indexed = λ t k h. cc;
    listed = λ k p e a. cc;
    parented = λ q k h. cc;
    retired = λ k p e t. cc;
  }
