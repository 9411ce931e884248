-- ===== src/Supervisor/Round.antt =====
-- core/supervisor.cpp: one round of watchdog_loop. `now` is the system clock at its start, `steady` the steady clock in
-- milliseconds, `forked` what fork() gives; no other thread runs inside a round.
use velix.Prelude.{
  str_eq, int_eq, ℕ, ℤ, ◌/◌, pos, is_pos, Str, Map, Option, none, some, Bool, true, false, not,
  ◌&&◌, List, [], ◌∷◌, ◌++◌, codes, ◌-◌, ltb, erase, set_erase, is_empty, ◌==◌, if◌then◌else◌,
}
use velix.Prelude.Int.{ltb_ℤ}
use velix.Prelude.Words.{sub64, mul64, to_u64}
use velix.Double.{Double}
use velix.Registry.State.{Registry, tree_handler}
use velix.Registry.Ending.{cleanup_historical_processes}
use velix.Registry.Queries.{
  WatchdogEntry, snapshot_for_watchdog, get_process, get_all_tree_ids_with_created_at,
  get_tree_status, compute_tree_memory_mb,
}
use velix.Termination.{TerminationTarget, Effect}
use velix.Watchdog.{complete_all, kill_if_any}
use velix.Supervisor.State.{SupervisorConfig, Supervisor, ConvMetadata, minus_one}
use velix.Supervisor.Handlers.{reap}

-- The retention that cleanup_historical_processes has by default.
abbrev pub retention_ms : ℕ
retention_ms = 60000

abbrev pub Work : Type 0 → Type 0
Work D = Registry D × List Effect

abbrev pub Reaper : Type 0 → Type 0
Reaper D = Str → Str → Registry D → Work D

unfoldable pub tree_ids : List (Str × ℕ) → List Str
tree_ids [] = []
tree_ids ((id, created_at_ms) ∷ ts) = id ∷ tree_ids ts

unfoldable pub forget : Str → Map ℤ (List Str) → Map ℤ (List Str)
forget id [] = []
forget id ((pid, ids) ∷ m) = (pid, set_erase id ids) ∷ forget id m

module _ {D : Type 0} where
  abbrev pub entry_target : WatchdogEntry D → TerminationTarget
  entry_target e = record {
    velix_pid = e.pid;
    os_pid = e.os_pid;
    tree_id = e.tree_id;
    trace_id = e.trace_id;
    parent_pid = e.parent_pid;
  }

  unfoldable pub is_silent : SupervisorConfig D → ℕ → WatchdogEntry D → Bool
  is_silent cfg now e =
      ltb (mul64 (to_u64 cfg.heartbeat_timeout_sec) 1000) (sub64 now e.last_heartbeat_ms)

  -- The loop over the snapshot.
  unfoldable pub silent_targets :
      SupervisorConfig D → ℕ → List (WatchdogEntry D) → List TerminationTarget
  unfolding is_silent
  silent_targets cfg now [] = []
  silent_targets cfg now (e ∷ es) =
      let rest = silent_targets cfg now es in
      if is_silent cfg now e then entry_target e ∷ rest else rest

  -- One limit: if it is exceeded the tree is reaped.
  unfoldable pub enforce : Reaper D → Bool → Str → Str → Work D → Work D
  enforce reaper exceeded reason id (r, effects) =
      let out = reaper reason id r in if exceeded then (out.0, effects ++ out.1) else (r, effects)

  unfoldable pub runtime_exceeded : SupervisorConfig D → ℕ → ℕ → Bool
  runtime_exceeded cfg now created_at_ms =
      ltb (to_u64 cfg.max_tree_runtime_sec) (sub64 now created_at_ms / 1000)

  unfoldable pub memory_exceeded : Double D → SupervisorConfig D → Str → Registry D → Bool
  memory_exceeded d cfg id r =
      d.lt cfg.max_memory_per_tree_mb (compute_tree_memory_mb d.zero d.add id r)

  unfoldable pub requests_exceeded : SupervisorConfig D → Str → Registry D → Bool
  requests_exceeded cfg id r =
      let status = get_tree_status id r in
      status.found
      && is_pos cfg.max_llm_requests_per_tree
      && ltb_ℤ cfg.max_llm_requests_per_tree status.llm_request_count

  unfoldable pub limit_runtime : SupervisorConfig D → ℕ → Reaper D → Str → ℕ → Work D → Work D
  unfolding enforce runtime_exceeded
  limit_runtime cfg now reaper id created_at_ms w =
      enforce reaper (runtime_exceeded cfg now created_at_ms) (codes "tree_runtime_limit") id w

  unfoldable pub limit_memory : Double D → SupervisorConfig D → Reaper D → Str → Work D → Work D
  unfolding enforce memory_exceeded
  limit_memory d cfg reaper id w =
      enforce reaper (memory_exceeded d cfg id w.0) (codes "tree_memory_limit") id w

  unfoldable pub limit_requests : SupervisorConfig D → Reaper D → Str → Work D → Work D
  unfolding enforce requests_exceeded
  limit_requests cfg reaper id w =
      enforce reaper (requests_exceeded cfg id w.0) (codes "tree_llm_limit") id w

  -- The body of the loop over the trees: the three limits in turn.
  unfoldable pub enforce_tree :
      Double D → SupervisorConfig D → ℕ → Reaper D → Str × ℕ → Work D → Work D
  unfolding limit_runtime limit_memory limit_requests
  enforce_tree d cfg now reaper (id, created_at_ms) w =
      if id == tree_handler
      then w
      else limit_requests cfg reaper id
          (limit_memory d cfg reaper id (limit_runtime cfg now reaper id created_at_ms w))

  unfoldable pub enforce_all :
      Double D → SupervisorConfig D → ℕ → Reaper D → List (Str × ℕ) → Work D → Work D
  unfolding enforce_tree
  enforce_all d cfg now reaper [] w = w
  enforce_all d cfg now reaper (t ∷ ts) w =
      enforce_all d cfg now reaper ts (enforce_tree d cfg now reaper t w)

  -- The cleanup, and the termination of the silent processes.
  unfoldable pub reap_silent : SupervisorConfig D → ℕ → (ℕ → ℕ) → Registry D → Work D
  unfolding silent_targets kill_if_any
  reap_silent cfg now clock r =
      let r1 = cleanup_historical_processes now retention_ms r in
      kill_if_any clock cfg.terminate_grace_ms (codes "heartbeat_timeout")
        (silent_targets cfg now (snapshot_for_watchdog r1)) r1

  -- The loop over the trees, and the check for completed trees, from the list of trees at its start.
  unfoldable pub police :
      Double D → SupervisorConfig D → ℕ → (ℕ → ℕ) → List (Str × ℕ) → Work D → Work D
  unfolding enforce_all tree_ids complete_all
  police d cfg now clock trees w =
      let done = enforce_all d cfg now (reap clock cfg.terminate_grace_ms) trees w in
      (complete_all (tree_ids trees) done.0, done.1)

  -- The part of the round that works on the registry.
  unfoldable pub registry_round : Double D → SupervisorConfig D → ℕ → (ℕ → ℕ) → Registry D → Work D
  unfolding reap_silent police
  registry_round d cfg now clock r =
      let w = reap_silent cfg now clock r in
      police d cfg now clock (get_all_tree_ids_with_created_at w.0) w

  unfoldable pub expired_convos : SupervisorConfig D → ℕ → Map Str ConvMetadata → List Str
  expired_convos cfg now [] = []
  expired_convos cfg now ((id, c) ∷ m) =
      let rest = expired_convos cfg now m in
      if ltb (to_u64 cfg.process_convo_ttl_sec) (sub64 now c.created_at_ms / 1000)
      then id ∷ rest
      else rest

  unfoldable pub drop_convos : List Str → Supervisor D → Supervisor D
  unfolding forget
  drop_convos [] s = s
  drop_convos (id ∷ ids) s = drop_convos ids (record s {
    convo_metadata = erase id s.convo_metadata;
    process_convos = forget id s.process_convos;
  })

  -- spawn_handler_process: the handler's pid as the operating system has it afterwards.
  unfoldable pub spawn_handler_process : Option ℤ → Supervisor D → Supervisor D
  spawn_handler_process forked s =
      let cleared = if is_pos s.handler_os_pid then minus_one else s.handler_os_pid in
      record s { handler_os_pid = elim forked [ none ↦ cleared | some pid ↦ pid ] }

  unfoldable pub handler_alive : Supervisor D → Bool
  handler_alive s =
      is_pos s.handler_velix_pid
      && (elim (get_process s.handler_velix_pid s.registry) [ none ↦ false | some p ↦ p.alive ])

  unfoldable pub monitor_handler : SupervisorConfig D → ℕ → Option ℤ → Supervisor D → Supervisor D
  unfolding spawn_handler_process handler_alive
  monitor_handler cfg steady forked s =
      if not (cfg.handler_auto_restart && not (is_empty cfg.handler_binary))
      then s
      else if handler_alive s
      then record s { handler_needs_restart = false }
      else if not s.handler_needs_restart
      then record s { handler_needs_restart = true; handler_dead_since = steady }
      else if ltb_ℤ (pos (steady - s.handler_dead_since)) cfg.handler_restart_delay_ms
      then s
      else record (spawn_handler_process forked s) { handler_needs_restart = false }

  unfoldable pub round :
      Double D
      → SupervisorConfig D
      → ℕ
      → ℕ
      → (ℕ → ℕ)
      → Option ℤ
      → Supervisor D
      → Supervisor D × List Effect
  unfolding registry_round expired_convos drop_convos monitor_handler
  round d cfg now steady clock forked s =
      let w = registry_round d cfg now clock s.registry in
      let s1 = record s { registry = w.0 } in
      let s2 = drop_convos (expired_convos cfg now s1.convo_metadata) s1 in
      (monitor_handler cfg steady forked s2, w.1)
