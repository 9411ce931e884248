-- ===== src/Registry/Completion.antt =====
-- When a tree is marked completed.
use velix.Prelude.{
  str_eq, Option-cases, find-modify, int_eq, ℤ, Str, Map, some, true, false, [], ◌∷◌, ◌≡◌, ◌≢◌, ◌↔◌,
  refl, arith, find, members, is_empty-nil, ==_iff, ==_refl, Unique, Bool-cases, inl, inr,
}
use velix.Registry.State.{ProcessInfo, TreeStatus, Registry, is_active, is_terminal, tree_handler}
use velix.Registry.Trees.{all_terminal, is_done, mark_tree_completed_if_done, set_tree_status}
use velix.Registry.Invariant.{IsValid}
use velix.Registry.TreeLife.{status_of}

is_active_iff : (s : TreeStatus) → (is_active s ≡ true) ↔ (s ≡ TreeStatus.active)
is_active_iff s = ground arith

module _ {D : Type 0} where
  all_terminal-find :
      (id : Str) (m : Map ℤ (ProcessInfo D)) (k : ℤ) (p : ProcessInfo D)
      → all_terminal id m ≡ true
      → find k m ≡ some p
      → p.tree_id ≡ id
      → is_terminal p.status ≡ true
  unfolding all_terminal find
  all_terminal-find id [] k p h e q = cc
  all_terminal-find id ((j, r) ∷ m) k p h e q =
      ground (arith, all_terminal-find id m k p, ==_iff r.tree_id id, ==_iff j k)

  all_terminal-of :
      (id : Str) (m : Map ℤ (ProcessInfo D))
      → Unique m
      → ((k : ℤ) (p : ProcessInfo D)
          → find k m ≡ some p
          → p.tree_id ≡ id
          → is_terminal p.status ≡ true)
      → all_terminal id m ≡ true
  unfolding all_terminal find
  all_terminal-of id [] u h = refl
  all_terminal-of id ((j, r) ∷ m) u h = ground (
    arith,
    h j r,
    ==_iff r.tree_id id,
    ==_refl j,
    all_terminal-of id m u.1 (λ k p e q. h k p (ground (arith, ==_iff j k, u.0)) q),
  )

  -- The conditions of a completed tree, read off the tables.
  pub record IsOver (id : Str) (r : Registry D) : Type 0 where
    pub not_handler : id ≢ tree_handler
    pub active : status_of id r ≡ some TreeStatus.active
    pub empty : members id r.tree_process_index ≡ []
    pub over :
        (k : ℤ) (p : ProcessInfo D)
        → find k r.process_table ≡ some p
        → p.tree_id ≡ id
        → is_terminal p.status ≡ true

  pub is_done-IsOver : (id : Str) (r : Registry D) → is_done id r ≡ true → IsOver id r
  unfolding is_done
  is_done-IsOver id r h = elim (Option-cases (find id r.tree_table)) [
    | inl e ↦ ground arith
    | inr (t, e) ↦ record {
      not_handler = λ q. ground (arith, ==_iff id tree_handler);
      active = ground (arith, is_active_iff t.status);
      empty = ground (arith, is_empty-nil (members id r.tree_process_index));
      over = λ k p. all_terminal-find id r.process_table k p (ground arith);
    }
  ]

  IsOver-is_done : (id : Str) (r : Registry D) → IsValid r → IsOver id r → is_done id r ≡ true
  unfolding is_done
  IsOver-is_done id r v o = elim (Option-cases (find id r.tree_table)) [
    | inl e ↦ ground (arith, o.active)
    | inr (t, e) ↦ ground (
      arith,
      is_active_iff t.status,
      o.active,
      o.empty,
      ==_iff id tree_handler,
      o.not_handler,
      all_terminal-of id r.process_table v.unique o.over,
    )
  ]

  -- In a valid registry mark_tree_completed_if_done answers true exactly for an active tree, not the handler's,
  -- that lists no process and all of whose processes on record finished, failed or were killed. The tree is then
  -- completed; with the answer false the registry is unchanged.
  pub mark_tree_completed_exact :
      (id : Str) (r : Registry D)
      → IsValid r
      → (((mark_tree_completed_if_done id r).1 ≡ true) ↔ IsOver id r)
        × ((mark_tree_completed_if_done id r).1 ≡ true
            → status_of id (mark_tree_completed_if_done id r).0 ≡ some TreeStatus.completed)
        × ((mark_tree_completed_if_done id r).1 ≡ false → (mark_tree_completed_if_done id r).0 ≡ r)
  unfolding mark_tree_completed_if_done
  mark_tree_completed_exact id r v = elim (Bool-cases (is_done id r)) [
    | inl d ↦
        rw (d, mark_tree_completed_if_done)
          (
            (λ _. is_done-IsOver id r d, λ _. refl),
            (λ _. ground (
              arith,
              find-modify id id (set_tree_status TreeStatus.completed) r.tree_table,
              ==_refl id,
              (is_done-IsOver id r d).active,
            )),
            λ h. cc,
          )
    | inr d ↦
        rw (d, mark_tree_completed_if_done)
          ((λ h. cc, λ o. absurd (ground (arith, IsOver-is_done id r v o))), (λ h. cc), λ h. refl)
  ]
