-- ===== src/Registry/Registration.antt =====
-- What register_process does on each of its branches.
use velix.Prelude.{
  str_eq, int_eq, is_empty-nil, ◌↔◌, map_option, List, Map, ℕ, ◌<◌, ℤ, Str, some, true, false, [],
  ◌≡◌, ◌≢◌, ◌⊎◌, arith, find, members, contains,
}
use velix.Registry.State.{ProcessInfo, Registry, is_active}
use velix.Registry.Trees.{create_tree_locked}
use velix.Registry.Processes.{
  Registration, RegisterResult, int_max, new_process, register_process, place, join_tree,
  found_tree, admit,
}

module _ {D : Type 0} where
  -- What an accepted registration leaves: the process at its pid, listed in its tree, and every
  -- other pid as it was.
  pub record Joined (now : ℕ) (a : Registration D) (table : Map ℤ (ProcessInfo D))
      (index : Map Str (List ℤ)) (r' : Registry D) (pid : ℤ) (id : Str) : Type 0 where
    pub stored : find pid r'.process_table ≡ some (new_process now pid id a)
    pub listed : contains pid (members id r'.tree_process_index) ≡ true
    pub others : (k : ℤ) → k ≢ pid → find k r'.process_table ≡ find k table
    pub peers :
        (t : Str) (k : ℤ)
        → k ≢ pid
        → contains k (members t r'.tree_process_index) ≡ contains k (members t index)

  abbrev Placed : ℕ → ℤ → Registration D → Registry D → Registry D × RegisterResult D → Type 0
  Placed now pid a r (r', res) =
      res.success ≡ true
      → (Joined now a r.process_table r.tree_process_index r' pid res.tree_id)
        × (res.process ≡ some (new_process now pid res.tree_id a))

  -- A registration that fails stores nothing. It fails exactly when the next pid does not fit an int, or when the
  -- caller, who is not the system handler, names a tree that is unknown or not active.
  pub register_process-refuses :
      (now : ℕ) (a : Registration D) (r : Registry D)
      → (((register_process now a r).1.success ≡ false) ↔ (
          (int_max < r.process_counter)
          ⊎ ((a.is_system_handler ≡ false)
              × (a.tree_id ≢ [])
              × (map_option (λ t. is_active t.status) (find a.tree_id r.tree_table) ≢ some true))))
        × ((register_process now a r).1.success ≡ false
            → ((register_process now a r).0.process_table ≡ r.process_table)
              × ((register_process now a r).0.tree_table ≡ r.tree_table)
              × ((register_process now a r).0.tree_process_index ≡ r.tree_process_index)
              × ((register_process now a r).0.process_children ≡ r.process_children))
  unfolding register_process place found_tree join_tree admit create_tree_locked
  register_process-refuses now a r = ground (arith, is_empty-nil a.tree_id)
