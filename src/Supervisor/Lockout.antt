-- ===== src/Supervisor/Lockout.antt =====
-- The registration of a handler after kill_processes.
use velix.Prelude.{
  str_eq, int_eq, ℕ, ℤ, Str, List, some, none, true, false, codes, ◌≡◌, refl, arith, find,
  contains-nil, is_empty, is_empty-nil, members, ==_refl,
}
use velix.Double.{Double}
use velix.Registry.State.{ProcessInfo, tree_handler}
use velix.Registry.Queries.{get_tree_processes}
use velix.Registry.Invariant.{IsValid}
use velix.Termination.{TerminationTarget, kill_processes}
use velix.Termination.Leaks.{targets, kill_processes_leaves_links}
use velix.Supervisor.State.{Supervisor, minus_one}
use velix.Supervisor.Messages.{Message, value, failed}
use velix.Supervisor.Registering.{refuse, choose, check_register, enter, handle_register_pid}

module _ {D : Type 0} where
  choose-refuses :
      (m : Message D) (os_pid : ℤ) (s : Supervisor D)
      → value m.payload.role (codes "unknown") ≡ codes "handler"
      → is_empty (get_tree_processes tree_handler s.registry) ≡ false
      → choose m os_pid s ≡ refuse (failed (codes "handler_role_reserved_for_bootstrap"))
  unfolding choose
  choose-refuses m os_pid s h e = rw (h, e, ==_refl (codes "handler"), choose) refl

  -- Once a live handler process of a valid registry has been killed by kill_processes, no handler can register: a
  -- message in the handler's role that passes the first checks is refused and changes nothing.
  pub killed_handler_locks_out :
      (d : Double D) (clock : ℕ → ℕ) (grace : ℤ) (reason : Str) (ts : List TerminationTarget)
      (s : Supervisor D) (pid : ℤ) (p : ProcessInfo D) (now : ℕ) (m : Message D)
      → IsValid s.registry
      → find pid s.registry.process_table ≡ some p
      → p.alive ≡ true
      → p.tree_id ≡ tree_handler
      → targets pid ts ≡ true
      → value m.payload.role (codes "unknown") ≡ codes "handler"
      → check_register m ≡ none
      → let s' = record s { registry = (kill_processes clock grace reason ts s.registry).0 } in
        handle_register_pid d now m s' ≡ (s', failed (codes "handler_role_reserved_for_bootstrap"))
  unfolding handle_register_pid enter get_tree_processes
  killed_handler_locks_out d clock grace reason ts s pid p now m v e on home hit role ok =
      rw
        (
          ok,
          choose-refuses m (value m.payload.os_pid minus_one)
              (record s { registry = (kill_processes clock grace reason ts s.registry).0 }) role
              still,
          handle_register_pid,
        )
        refl
    where
      kept :
          members tree_handler
            (kill_processes clock grace reason ts s.registry).0.tree_process_index
          ≡ members tree_handler s.registry.tree_process_index
      kept = rw (kill_processes_leaves_links clock grace reason ts s.registry pid p e hit).1 refl

      still :
          is_empty
            (get_tree_processes tree_handler (kill_processes clock grace reason ts s.registry).0)
          ≡ false
      still = ground (
        arith,
        kept,
        v.listed pid p e on,
        contains-nil pid,
        is_empty-nil (members tree_handler s.registry.tree_process_index),
      )
