-- ===== src/Registry/Invariant/Admit.antt =====
-- The invariant under the registration of a process.
use velix.Prelude.{
  str_eq, int_eq, ℕ, ◌+◌, ℤ, pos, is_pos, Str, Map, none, List, ◌≡◌, arith, find, insert,
  add_member, ==_iff, find-insert, insert-Unique, Option-cases, contains-add_member, inl, inr,
  if◌then◌else◌,
}
use velix.Registry.State.{ProcessInfo}
use velix.Registry.Invariant.{Agree, Below}

module _ {D : Type 0} (table : Map ℤ (ProcessInfo D)) (index : Map Str (List ℤ))
    (children : Map ℤ (List ℤ)) (c : ℕ) (v : Agree table index children c) where
  -- The counter names no process yet.
  pub fresh : find (pos c) table ≡ none
  fresh = elim (Option-cases (find (pos c) table)) [
    | inl e ↦ e
    | inr (p, e) ↦ absurd (omega (arith, v.bounded (pos c) p e))
  ]

  Below-suc : (k : ℤ) → Below k c → Below k (c + 1)
  Below-suc k h = ground arith

  module _ (p : ProcessInfo D) (new : p.pid ≡ pos c) (t0 : p.termination_time_ms ≡ 0) where
    pub admit-Agree :
        Agree
          (insert (pos c) p table)
          (add_member p.tree_id (pos c) index)
          (if is_pos p.parent_pid then add_member p.parent_pid (pos c) children else children)
          (c + 1)
    admit-Agree = record {
      unique = insert-Unique (pos c) p table v.unique;
      keyed = λ k q h.
          ground (arith, find-insert (pos c) k p table, v.keyed k q, ==_iff (pos c) k, new);
      bounded = λ k q h.
          ground
            (arith, find-insert (pos c) k p table, v.bounded k q, ==_iff (pos c) k, Below-suc k);
      indexed = λ t k h. ground (
        arith,
        find-insert (pos c) k p table,
        v.indexed t k,
        ==_iff (pos c) k,
        ==_iff p.tree_id t,
        contains-add_member p.tree_id t (pos c) k index,
        fresh,
      );
      listed = λ k q h a. ground (
        arith,
        find-insert (pos c) k p table,
        v.listed k q,
        ==_iff (pos c) k,
        ==_iff p.tree_id q.tree_id,
        contains-add_member p.tree_id q.tree_id (pos c) k index,
      );
      parented = λ q k h. ground (
        arith,
        find-insert (pos c) k p table,
        v.parented q k,
        ==_iff (pos c) k,
        ==_iff p.parent_pid q,
        contains-add_member p.parent_pid q (pos c) k children,
        fresh,
      );
      retired = λ k q h t. ground (
        arith,
        find-insert (pos c) k p table,
        v.retired k q,
        ==_iff (pos c) k,
        contains-add_member p.tree_id q.tree_id (pos c) k index,
        contains-add_member p.parent_pid q.parent_pid (pos c) k children,
      );
    }
