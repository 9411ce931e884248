-- ===== src/Registry/Steps/Registering.antt =====
-- The registry's invariant under registration, by the branches of register_process.
use velix.Prelude.{
  str_eq, int_eq, ℕ, ◌+◌, ◌<◌, ◌≤◌, ℤ, pos, Str, Map, Option, none, some, Bool, true, false, List,
  [], ◌≡◌, refl, arith, ltb, Bool-cases, inl, inr, is_empty,
}
use velix.Prelude.Words.{u64_mod, add64, add64_lt}
use velix.Registry.State.{ProcessInfo, TreeInfo, Registry, tree_handler}
use velix.Registry.Trees.{create_tree_locked}
use velix.Registry.Processes.{
  Registration, int_max, new_process, register_process, place, join_tree, found_tree, admit,
}
use velix.Registry.Invariant.{Agree, IsValid, Below}
use velix.Registry.Invariant.Admit.{admit-Agree}

Below-mono : (k : ℤ) (c d : ℕ) → c ≤ d → Below k c → Below k d
Below-mono k c d h b = ground arith

module _ {D : Type 0} where
  -- The counter may move on by itself.
  bump-Agree :
      (table : Map ℤ (ProcessInfo D)) (index : Map Str (List ℤ)) (children : Map ℤ (List ℤ))
      (c d : ℕ)
      → c ≤ d
      → Agree table index children c
      → Agree table index children d
  bump-Agree table index children c d h v = record {
    unique = v.unique;
    keyed = v.keyed;
    bounded = λ k p e. Below-mono k c d h (v.bounded k p e);
    indexed = v.indexed;
    listed = v.listed;
    parented = v.parented;
    retired = v.retired;
  }

  module _ (c : ℕ) where
    -- The registry between the fetch_add and the insertion: the counter is one ahead.
    abbrev Pending : Registry D → Type 0
    Pending r =
        Agree r.process_table r.tree_process_index r.process_children c
        × (r.process_counter ≡ c + 1)

    admit-IsValid :
        (now : ℕ) (root : Bool) (id : Str) (a : Registration D) (r : Registry D)
        → Pending r
        → IsValid (admit now (pos c) root id a r).0
    unfolding admit
    admit-IsValid now root id a r v = rw v.1 (
        admit-Agree r.process_table r.tree_process_index r.process_children c v.0
          (new_process now (pos c) id a) refl refl)

    refused-IsValid : (r : Registry D) → Pending r → IsValid r
    refused-IsValid r v = rw v.1 (bump-Agree _ _ _ c (c + 1) (omega arith) v.0)

    join_tree-IsValid :
        (now : ℕ) (a : Registration D) (r : Registry D) (t : Option TreeInfo)
        → Pending r
        → IsValid (join_tree now (pos c) a r t).0
    unfolding join_tree
    join_tree-IsValid now a r none v = refused-IsValid r v
    join_tree-IsValid now a r (some t) v =
        ground (arith, refused-IsValid r v, admit-IsValid now false a.tree_id a r v)

    place-IsValid :
        (now : ℕ) (a : Registration D) (r : Registry D)
        → Pending r
        → IsValid (place now (pos c) a r).0
    unfolding place found_tree create_tree_locked
    place-IsValid now a r v = elim (Bool-cases a.is_system_handler) [
      | inl e ↦ rw (e, place) (admit-IsValid now true tree_handler a r v)
      | inr e ↦ elim (Bool-cases (is_empty a.tree_id)) [
        | inl f ↦
            rw (e, f, place)
              (admit-IsValid now true (create_tree_locked now [] r).1 a
                (create_tree_locked now [] r).0 v)
        | inr f ↦ rw (e, f, place) (join_tree-IsValid now a r _ v)
      ]
    ]

  pub register_process-IsValid :
      (now : ℕ) (a : Registration D) (r : Registry D)
      → r.process_counter + 1 < u64_mod
      → IsValid r
      → IsValid (register_process now a r).0
  unfolding register_process
  register_process-IsValid now a r h v =
      let e : add64 r.process_counter 1 ≡ r.process_counter + 1 = add64_lt _ 1 h in
      let r1 : Registry D = record r { process_counter = add64 r.process_counter 1 } in
      elim (Bool-cases (ltb int_max r.process_counter)) [
        | inl full ↦ rw (full, register_process) (refused-IsValid r.process_counter r1 (v, e))
        | inr room ↦ rw (room, register_process) (place-IsValid r.process_counter now a r1 (v, e))
      ]
