-- ===== src/Supervisor/RoundRule.antt =====
-- The rule for the second half of a watchdog round: what reaping a tree and completing a tree keep, it keeps.
use velix.Prelude.{
  str_eq, ℕ, Str, Bool, List, [], ◌∷◌, ◌≢◌, arith, ==_iff, ◌==◌, if_cases, Bool-cases, inl, inr,
}
use velix.Double.{Double}
use velix.Registry.State.{Registry, tree_handler}
use velix.Registry.Trees.{mark_tree_completed_if_done}
use velix.Watchdog.{complete_all}
use velix.Supervisor.State.{SupervisorConfig}
use velix.Supervisor.Handlers.{reap}
use velix.Supervisor.Round.{
  Work, Reaper, enforce, limit_runtime, limit_memory, limit_requests, enforce_tree, enforce_all,
  tree_ids, police,
}

module _ {D : Type 0} (P : Registry D → Type 0) where
  module _ (reaper : Reaper D)
      (reaps : (reason id : Str) (r : Registry D)
        → id ≢ tree_handler
        → P r
        → P (reaper reason id r).0) where
    enforce_inv :
        (over : Bool) (reason id : Str) (w : Work D)
        → id ≢ tree_handler
        → P w.0
        → P (enforce reaper over reason id w).0
    unfolding enforce
    enforce_inv over reason id (r, effects) ne h =
        if_cases (λ (w : Work D). P w.0) over _ _ (reaps reason id r ne h) h

    limits_inv :
        (d : Double D) (cfg : SupervisorConfig D) (now created_at_ms : ℕ) (id : Str) (w : Work D)
        → id ≢ tree_handler
        → P w.0
        → P
            (limit_requests cfg reaper id
              (limit_memory d cfg reaper id (limit_runtime cfg now reaper id created_at_ms w))).0
    unfolding limit_requests limit_memory limit_runtime
    limits_inv d cfg now created_at_ms id w ne h =
        let w1 = limit_runtime cfg now reaper id created_at_ms w in
        let w2 = limit_memory d cfg reaper id w1 in
        enforce_inv _ _ id w2 ne (enforce_inv _ _ id w1 ne (enforce_inv _ _ id w ne h))

    enforce_tree_inv :
        (d : Double D) (cfg : SupervisorConfig D) (now : ℕ) (t : Str × ℕ) (w : Work D)
        → P w.0
        → P (enforce_tree d cfg now reaper t w).0
    enforce_tree_inv d cfg now (id, created_at_ms) w h = elim (Bool-cases (id == tree_handler)) [
      | inl e ↦ unfold enforce_tree in rw (e, enforce_tree) h
      | inr e ↦
          unfold enforce_tree in
          rw (e, enforce_tree)
            (limits_inv d cfg now created_at_ms id w (λ q. ground (arith, ==_iff id tree_handler))
              h)
    ]

    pub enforce_all_inv :
        (d : Double D) (cfg : SupervisorConfig D) (now : ℕ) (ts : List (Str × ℕ)) (w : Work D)
        → P w.0
        → P (enforce_all d cfg now reaper ts w).0
    unfolding enforce_all
    enforce_all_inv d cfg now [] w h = h
    enforce_all_inv d cfg now (t ∷ ts) w h =
        enforce_all_inv d cfg now ts (enforce_tree d cfg now reaper t w)
          (enforce_tree_inv d cfg now t w h)

  module _
      (completes : (id : Str) (r : Registry D) → P r → P (mark_tree_completed_if_done id r).0) where
    pub complete_all_inv : (ids : List Str) (r : Registry D) → P r → P (complete_all ids r)
    unfolding complete_all
    complete_all_inv [] r h = h
    complete_all_inv (id ∷ ids) r h =
        complete_all_inv ids (mark_tree_completed_if_done id r).0 (completes id r h)

    pub police_inv :
        (d : Double D) (cfg : SupervisorConfig D) (now : ℕ) (clock : ℕ → ℕ) (ts : List (Str × ℕ))
        (w : Work D)
        → ((reason id : Str) (r : Registry D)
            → id ≢ tree_handler
            → P r
            → P (reap clock cfg.terminate_grace_ms reason id r).0)
        → P w.0
        → P (police d cfg now clock ts w).0
    unfolding police
    police_inv d cfg now clock ts w reaps h =
        complete_all_inv (tree_ids ts)
          (enforce_all d cfg now (reap clock cfg.terminate_grace_ms) ts w).0
          (enforce_all_inv (reap clock cfg.terminate_grace_ms) reaps d cfg now ts w h)
