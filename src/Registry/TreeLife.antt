-- ===== src/Registry/TreeLife.antt =====
-- core/process_registry.cpp: the life of a tree, how each call of the registry may move its status.
pub mod Created
use velix.Prelude.{
  str_eq, ltb, pos, int_eq, ℕ, ℤ, Str, Map, Option, none, some, Bool, true, false, [], ◌≡◌, ◌≢◌,
  inl, inr, ap, ◌∙◌, arith, find, modify, is_empty, map_option, ==_iff, ◌==◌, find-modify,
  Bool-cases, Option-cases, if_cases, if◌then◌else◌,
}
use velix.Prelude.Words.{add64}
use velix.Registry.State.{tree_handler, TreeInfo, TreeStatus, Registry, is_active}
use velix.Registry.Trees.{
  auto_id, create_tree, create_tree_locked, increment_llm_request, mark_tree_failed, fail,
  mark_tree_completed_if_done, is_done, find-write_tree,
}
use velix.Registry.Processes.{
  Registration, int_max, RegisterResult, register_process, place, found_tree, join_tree, admit,
  update_heartbeat,
}
use velix.Registry.Ending.{
  kill_tree, mark_process_killed, terminate_process, retire, cleanup_historical_processes,
}
use velix.Registry.Steps.{
  Call, registers, heartbeats, kills_tree, kills, terminates, counts_request, cleans, completes,
  fails, creates, step,
}

-- The transitions of a tree that exists and is not created anew.
pub data Moves : TreeStatus → TreeStatus → Type 0 where
  stays : {s : TreeStatus} → Moves s s
  finishes : Moves TreeStatus.active TreeStatus.completed
  breaks : Moves TreeStatus.active TreeStatus.failed
  stops : {s : TreeStatus} → Moves s TreeStatus.killed

-- The status at `id` moves as `Moves` allows, and the tree stays on record.
pub record Evolves (id : Str) (t : TreeInfo) (m : Map Str TreeInfo) : Type 0 where
  pub tree : TreeInfo
  pub there : find id m ≡ some tree
  pub moves : Moves t.status tree.status

same : (id : Str) (t : TreeInfo) (m : Map Str TreeInfo) → find id m ≡ some t → Evolves id t m
same id t m e = record { tree = t; there = e; moves = stays }

modify-Evolves :
    (id j : Str) (f : TreeInfo → TreeInfo) (t : TreeInfo) (m : Map Str TreeInfo)
    → find id m ≡ some t
    → (j ≡ id → Moves t.status (f t).status)
    → Evolves id t (modify j f m)
modify-Evolves id j f t m e mv = elim (Bool-cases (j == id)) [
  | inl hit ↦ record {
    tree = f t;
    there = ground (arith, find-modify j id f m);
    moves = mv ((==_iff j id).0 hit);
  }
  | inr miss ↦ record { tree = t; there = ground (arith, find-modify j id f m); moves = stays }
]

is_active-eq : (s : TreeStatus) → is_active s ≡ true → s ≡ TreeStatus.active
is_active-eq s h = ground arith

fail-Moves : (t : TreeInfo) → Moves t.status (fail t).status
fail-Moves t = elim (Bool-cases (is_active t.status)) [
  | inl e ↦ rw (e, is_active-eq t.status e) breaks
  | inr e ↦ rw e stays
]

module _ {D : Type 0} where
  abbrev pub status_of : Str → Registry D → Option TreeStatus
  status_of id r = map_option (λ t. t.status) (find id r.tree_table)

  -- The tree that a call creates or resets.
  abbrev pub created : Registry D → Call D → Option Str
  created r (registers now a) =
      if ltb int_max r.process_counter
      then none
      else if a.is_system_handler
      then none
      else if is_empty a.tree_id
      then some (auto_id r.tree_counter)
      else none
  created r (creates now id) = some (if is_empty id then auto_id r.tree_counter else id)
  created r _ = none

  abbrev pub id_for : Str → Registry D → Str
  id_for j r = if is_empty j then auto_id r.tree_counter else j

  create-find :
      (now : ℕ) (j id : Str) (r : Registry D)
      → id_for j r ≢ id
      → find id (create_tree_locked now j r).0.tree_table ≡ find id r.tree_table
  unfolding create_tree_locked
  create-find now j id r ne =
      ground (arith, find-write_tree (id_for j r) id now r.tree_table, ==_iff (id_for j r) id)

  admit-Evolves :
      (now : ℕ) (pid : ℤ) (root : Bool) (j id : Str) (a : Registration D) (r : Registry D)
      (t : TreeInfo)
      → find id r.tree_table ≡ some t
      → Evolves id t (admit now pid root j a r).0.tree_table
  unfolding admit
  admit-Evolves now pid root j id a r t e =
      if_cases (Evolves id t) root _ _ (modify-Evolves id j _ t r.tree_table e (λ _. stays))
        (same id t r.tree_table e)

  join-Evolves :
      (now : ℕ) (pid : ℤ) (a : Registration D) (id : Str) (r : Registry D) (t : TreeInfo)
      → find id r.tree_table ≡ some t
      → (o : Option TreeInfo) → Evolves id t (join_tree now pid a r o).0.tree_table
  unfolding join_tree
  join-Evolves now pid a id r t e none = same id t r.tree_table e
  join-Evolves now pid a id r t e (some u) =
      if_cases (λ (x : Registry D × RegisterResult D). Evolves id t x.0.tree_table)
        (is_active u.status) _ _ (admit-Evolves now pid false a.tree_id id a r t e)
        (same id t r.tree_table e)

  register-Evolves :
      (now : ℕ) (a : Registration D) (id : Str) (t : TreeInfo) (r : Registry D)
      → find id r.tree_table ≡ some t
      → created r (registers now a) ≢ some id
      → Evolves id t (register_process now a r).0.tree_table
  unfolding register_process place found_tree join_tree
  register-Evolves now a id t r e ne = elim (Bool-cases (ltb int_max r.process_counter)) [
    | inl full ↦ rw full (same id t r.tree_table e)
    | inr room ↦ elim (Bool-cases a.is_system_handler) [
      | inl h ↦ rw (room, h, place) (admit-Evolves now pid true tree_handler id a r1 t e)
      | inr h ↦ elim (Bool-cases (is_empty a.tree_id)) [
        | inl f ↦
            rw (room, h, f, place)
              (admit-Evolves now pid true _ id a (create_tree_locked now [] r1).0 t
                (create-find now [] id r1 (λ q. ne (rw (room, h, f) (ap some q))) ∙ e))
        | inr f ↦
            rw (room, h, f, place) (join-Evolves now pid a id r1 t e (find a.tree_id r1.tree_table))
      ]
    ]
  ]
    where
      pid : ℤ
      pid = pos r.process_counter

      r1 : Registry D
      r1 = record r { process_counter = add64 r.process_counter 1 }

  terminate-Evolves :
      (now : ℕ) (pid : ℤ) (id : Str) (t : TreeInfo) (r : Registry D)
      → find id r.tree_table ≡ some t
      → Evolves id t (terminate_process now pid r).tree_table
  unfolding terminate_process retire
  terminate-Evolves now pid id t r e = elim (Option-cases (find pid r.process_table)) [
    | inl f ↦ rw (f, terminate_process) (same id t r.tree_table e)
    | inr (p, f) ↦
        rw (f, terminate_process)
          (if_cases (λ (q : Registry D). Evolves id t q.tree_table) p.alive _ r
            (same id t r.tree_table e) (same id t r.tree_table e))
  ]

  is_done-active :
      (j : Str) (t : TreeInfo) (r : Registry D)
      → is_done j r ≡ true
      → find j r.tree_table ≡ some t
      → t.status ≡ TreeStatus.active
  unfolding is_done
  is_done-active j t r d e = ground (arith, is_active-eq t.status)

  complete-Evolves :
      (j id : Str) (t : TreeInfo) (r : Registry D)
      → find id r.tree_table ≡ some t
      → Evolves id t (mark_tree_completed_if_done j r).0.tree_table
  unfolding mark_tree_completed_if_done
  complete-Evolves j id t r e = elim (Bool-cases (is_done j r)) [
    | inl d ↦
        rw (d, mark_tree_completed_if_done)
          (modify-Evolves id j _ t r.tree_table e
            (λ q. rw (is_done-active j t r d (ground arith)) finishes))
    | inr d ↦ rw (d, mark_tree_completed_if_done) (same id t r.tree_table e)
  ]

  -- A tree that the call does not create.
  pub step-Evolves :
      (r : Registry D) (c : Call D) (id : Str) (t : TreeInfo)
      → find id r.tree_table ≡ some t
      → created r c ≢ some id
      → Evolves id t (step r c).tree_table
  unfolding step update_heartbeat kill_tree mark_process_killed increment_llm_request create_tree
      cleanup_historical_processes mark_tree_failed terminate_process retire
  step-Evolves r (registers now a) id t e ne = register-Evolves now a id t r e ne
  step-Evolves r (heartbeats pid s memory_mb now) id t e ne = same id t r.tree_table e
  step-Evolves r (kills_tree j) id t e ne = modify-Evolves id j _ t r.tree_table e (λ _. stops)
  step-Evolves r (kills pid) id t e ne = same id t r.tree_table e
  step-Evolves r (terminates now pid) id t e ne = terminate-Evolves now pid id t r e
  step-Evolves r (counts_request j) id t e ne = modify-Evolves id j _ t r.tree_table e (λ _. stays)
  step-Evolves r (cleans now retention) id t e ne = same id t r.tree_table e
  step-Evolves r (completes j) id t e ne = complete-Evolves j id t r e
  step-Evolves r (fails j) id t e ne = modify-Evolves id j fail t r.tree_table e (λ _. fail-Moves t)
  step-Evolves r (creates now j) id t e ne = record {
    tree = t;
    there = create-find now j id r (λ q. ne (ap some q)) ∙ e;
    moves = stays;
  }
