-- ===== src/Registry/TreeLife/Created.antt =====
-- core/process_registry.cpp: the life of a tree over every call, those that create one included.
use velix.Prelude.{
  str_eq, ltb, pos, int_eq, ℕ, ℤ, Str, Map, Option, some, true, [], ◌≡◌, ◌≢◌, refl, ==_refl, inl,
  inr, ap, ◌∙◌, arith, find, is_empty, ==_iff, ◌==◌, find-modify, Bool-cases, Option-cases,
}
use velix.Prelude.Words.{add64}
use velix.Registry.State.{TreeInfo, TreeStatus, Registry}
use velix.Registry.Trees.{new_tree, auto_id, create_tree, create_tree_locked, find-write_tree}
use velix.Registry.Processes.{Registration, int_max, register_process, place, found_tree, admit}
use velix.Registry.Steps.{
  Call, registers, heartbeats, kills_tree, kills, terminates, counts_request, cleans, completes,
  fails, creates, step,
}
use velix.Registry.TreeLife.{Moves, Evolves, created, id_for, step-Evolves}

-- The tree is on record. If the call created one of that id, it is as new; if not, its status moved as `Moves` allows.
pub record Lives (made : Option Str) (id : Str) (t : TreeInfo) (m : Map Str TreeInfo) : Type 0 where
  pub tree : TreeInfo
  pub there : find id m ≡ some tree
  pub anew : made ≡ some id → (tree.status ≡ TreeStatus.active) × (tree.llm_request_count ≡ pos 0)
  pub moves : made ≢ some id → Moves t.status tree.status

-- A tree that is active and without requests.
record Anew (id : Str) (m : Map Str TreeInfo) : Type 0 where
  tree : TreeInfo
  there : find id m ≡ some tree
  active : tree.status ≡ TreeStatus.active
  unasked : tree.llm_request_count ≡ pos 0

Anew-Lives :
    (id : Str) (t : TreeInfo) (made : Option Str) (m : Map Str TreeInfo)
    → made ≡ some id
    → Anew id m
    → Lives made id t m
Anew-Lives id t made m e n = record {
  tree = n.tree;
  there = n.there;
  anew = λ _. (n.active, n.unasked);
  moves = λ other. absurd (other e);
}

Evolves-Lives :
    (id : Str) (t : TreeInfo) (made : Option Str) (m : Map Str TreeInfo)
    → made ≢ some id
    → Evolves id t m
    → Lives made id t m
Evolves-Lives id t made m other v = record {
  tree = v.tree;
  there = v.there;
  anew = λ e. absurd (other e);
  moves = λ _. v.moves;
}

module _ {D : Type 0} where
  create-Anew :
      (now : ℕ) (j : Str) (r : Registry D)
      → Anew (id_for j r) (create_tree_locked now j r).0.tree_table
  unfolding create_tree_locked
  create-Anew now j r = record {
    tree = new_tree (id_for j r) now;
    there =
        ground
          (arith, find-write_tree (id_for j r) (id_for j r) now r.tree_table, ==_refl (id_for j r));
    active = refl;
    unasked = refl;
  }

  admit-Anew :
      (now : ℕ) (pid : ℤ) (j id : Str) (a : Registration D) (r : Registry D)
      → Anew id r.tree_table
      → Anew id (admit now pid true j a r).0.tree_table
  unfolding admit
  admit-Anew now pid j id a r n = elim (Bool-cases (j == id)) [
    | inl hit ↦ record {
      tree = record n.tree { root_pid = pid };
      there = ground (
        arith,
        n.there,
        find-modify j id (λ (t : TreeInfo). record t { root_pid = pid }) r.tree_table,
        hit,
      );
      active = n.active;
      unasked = n.unasked;
    }
    | inr miss ↦ record {
      tree = n.tree;
      there = ground (
        arith,
        n.there,
        find-modify j id (λ (t : TreeInfo). record t { root_pid = pid }) r.tree_table,
        miss,
      );
      active = n.active;
      unasked = n.unasked;
    }
  ]

  register-Anew :
      (now : ℕ) (a : Registration D) (id : Str) (r : Registry D)
      → created r (registers now a) ≡ some id
      → Anew id (register_process now a r).0.tree_table
  unfolding register_process place found_tree
  register-Anew now a id r made = elim (Bool-cases (ltb int_max r.process_counter)) [
    | inl full ↦ absurd (ground (arith, full, made))
    | inr room ↦ elim (Bool-cases a.is_system_handler) [
      | inl h ↦ absurd (ground (arith, room, h, made))
      | inr h ↦ elim (Bool-cases (is_empty a.tree_id)) [
        | inr f ↦ absurd (ground (arith, room, h, f, made))
        | inl f ↦
            let r1 : Registry D = record r { process_counter = add64 r.process_counter 1 } in
            let here : auto_id r.tree_counter ≡ id = ground (arith, room, h, f, made) in
            rw (room, h, f, place)
              (admit-Anew now (pos r.process_counter) (create_tree_locked now [] r1).1 id a
                (create_tree_locked now [] r1).0 (rw (← here) (create-Anew now [] r1)))
      ]
    ]
  ]

  step-Anew :
      (r : Registry D) (c : Call D) (id : Str)
      → created r c ≡ some id
      → Anew id (step r c).tree_table
  unfolding step create_tree
  step-Anew r (registers now a) id made = register-Anew now a id r made
  step-Anew r (creates now j) id made =
      let here : id_for j r ≡ id = ground (arith, made) in rw (← here) (create-Anew now j r)
  step-Anew r (heartbeats pid s memory_mb now) id made = cc
  step-Anew r (kills_tree j) id made = cc
  step-Anew r (kills pid) id made = cc
  step-Anew r (terminates now pid) id made = cc
  step-Anew r (counts_request j) id made = cc
  step-Anew r (cleans now retention) id made = cc
  step-Anew r (completes j) id made = cc
  step-Anew r (fails j) id made = cc

  -- Whatever the call, a tree on record stays there. A call that creates a tree of that id leaves it active and without
  -- requests; after any other call its status is as it was, or went from active to completed or failed, or from any
  -- status to killed.
  pub step-Lives :
      (r : Registry D) (c : Call D) (id : Str) (t : TreeInfo)
      → find id r.tree_table ≡ some t
      → Lives (created r c) id t (step r c).tree_table
  step-Lives r c id t e = elim (Option-cases (created r c)) [
    | inl n ↦
        let other : created r c ≢ some id = λ made. cc in
        Evolves-Lives id t (created r c) _ other (step-Evolves r c id t e other)
    | inr (j, n) ↦ elim (Bool-cases (j == id)) [
      | inl hit ↦
          let made : created r c ≡ some id = n ∙ ap some ((==_iff j id).0 hit) in
          Anew-Lives id t (created r c) _ made (step-Anew r c id made)
      | inr miss ↦
          let other : created r c ≢ some id = λ made. ground (arith, made, n, miss, ==_iff j id) in
          Evolves-Lives id t (created r c) _ other (step-Evolves r c id t e other)
    ]
  ]
