-- ===== src/Termination.antt =====
-- core/termination_engine.hpp and .cpp: TerminationEngine. The calls to the operating system and to the bus
-- are recorded as effects, in their order; `clock` gives the registry's clock at each termination.
pub mod Leaks
use velix.Prelude.{
  ℕ, suc, ◌+◌, ℤ, pos, is_pos, Str, Bool, true, false, not, ◌||◌, ◌&&◌, List, [], ◌∷◌, ◌++◌,
  is_empty, if◌then◌else◌,
}
use velix.Registry.State.{Registry}
use velix.Registry.Ending.{mark_process_killed, terminate_process}

pub record TerminationTarget : Type 0 where
  pub velix_pid : ℤ
  pub os_pid : ℤ
  pub tree_id : Str
  pub trace_id : Str
  pub parent_pid : ℤ

pub data Signal : Type 0 where
  terminate force_kill : Signal

-- The CHILD_TERMINATED message to the bus: its target, trace, reason and pid.
pub record TerminationMessage : Type 0 where
  pub target_pid : ℤ
  pub trace_id : Str
  pub reason : Str
  pub pid : ℤ

pub data Effect : Type 0 where
  to_bus : TerminationMessage → Effect
  signal : ℤ → Signal → Effect
  sleep : ℤ → Effect

-- What kill(2) answers.
pub data KillResult : Type 0 where
  delivered no_such_process failed : KillResult

abbrev pub is_gone : KillResult → Bool
is_gone KillResult.delivered = true
is_gone KillResult.no_such_process = true
is_gone KillResult.failed = false

unfoldable pub send_signal_to_os_process : (ℤ → Signal → KillResult) → ℤ → Signal → Bool
send_signal_to_os_process os_kill os_pid s =
    if is_pos os_pid then is_gone (os_kill os_pid s) else false

unfoldable pub notify_bus_child_terminated : TerminationTarget → Str → List Effect
notify_bus_child_terminated t reason =
    if is_empty t.trace_id || not (is_pos t.parent_pid)
    then []
    else to_bus (record {
      target_pid = t.parent_pid;
      trace_id = t.trace_id;
      reason = reason;
      pid = t.velix_pid;
    })
      ∷ []

unfoldable pub signal_effect : TerminationTarget → Signal → List Effect
signal_effect t s = if is_pos t.os_pid then signal t.os_pid s ∷ [] else []

-- Steps 2 to 5 of the loop body.
unfoldable pub target_effects : ℤ → Str → TerminationTarget → List Effect
unfolding notify_bus_child_terminated signal_effect
target_effects grace reason t =
    notify_bus_child_terminated t reason
    ++ (signal_effect t terminate ++ (sleep grace ∷ signal_effect t force_kill))

module _ {D : Type 0} where
  -- Steps 1 and 6.
  unfoldable pub kill_one : ℕ → TerminationTarget → Registry D → Registry D
  kill_one now t r = terminate_process now t.velix_pid (mark_process_killed t.velix_pid r)

  unfoldable pub kill_processes :
      (ℕ → ℕ) → ℤ → Str → List TerminationTarget → Registry D → Registry D × List Effect
  unfolding kill_one target_effects
  kill_processes clock grace reason [] r = (r, [])
  kill_processes clock grace reason (t ∷ ts) r =
      let rest = kill_processes (λ n. clock (suc n)) grace reason ts (kill_one (clock 0) t r) in
      (rest.0, target_effects grace reason t ++ rest.1)
