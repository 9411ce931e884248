-- ===== src/Registry/Invariant/Retire.antt =====
-- The invariant under the termination of a process.
use velix.Prelude.{
  str_eq, int_eq, ℕ, ℤ, Str, List, Map, is_pos, some, ◌≡◌, arith, find, erase, modify, members,
  contains, remove_member, ==_iff, ◌==◌, ==_refl, not, ◌&&◌, find-modify, modify-Unique,
  contains-erase, contains-remove_member, contains, if◌then◌else◌,
}
use velix.Registry.State.{ProcessInfo}
use velix.Registry.Ending.{close}
use velix.Registry.Invariant.{Agree}

module _ {D : Type 0} (table : Map ℤ (ProcessInfo D)) (index : Map Str (List ℤ))
    (children : Map ℤ (List ℤ)) (c now : ℕ) (pid : ℤ) (p : ProcessInfo D)
    (v : Agree table index children c) (there : find pid table ≡ some p) where
  abbrev cut : Map ℤ (List ℤ)
  cut = if is_pos p.parent_pid then remove_member p.parent_pid pid children else children

  -- Nobody is the child of a process whose pid is not positive.
  contains-cut :
      (q k : ℤ)
      → contains k (members q cut)
        ≡ (not (p.parent_pid == q && pid == k) && contains k (members q children))
  contains-cut q k = ground (
    arith,
    contains-remove_member p.parent_pid q pid k children,
    v.parented q k,
    ==_iff p.parent_pid q,
  )

  pub retire-Agree :
      Agree (modify pid (close now) table) (remove_member p.tree_id pid index) (erase pid cut) c
  retire-Agree = record {
    unique = modify-Unique pid (close now) table v.unique;
    keyed = λ k q h.
        ground (
          arith,
          find-modify pid k (close now) table,
          v.keyed k q,
          v.keyed k p,
          there,
          ==_iff pid k,
        );
    bounded = λ k q h. ground (
      arith,
      find-modify pid k (close now) table,
      v.bounded k q,
      v.bounded k p,
      there,
      ==_iff pid k,
    );
    indexed = λ t k h. ground (
      arith,
      find-modify pid k (close now) table,
      v.indexed t k,
      ==_iff pid k,
      contains-remove_member p.tree_id t pid k index,
      there,
    );
    listed = λ k q h a. ground (
      arith,
      find-modify pid k (close now) table,
      v.listed k q,
      ==_iff pid k,
      contains-remove_member p.tree_id q.tree_id pid k index,
      there,
    );
    parented = λ q k h. ground (
      arith,
      find-modify pid k (close now) table,
      v.parented q k,
      ==_iff pid k,
      contains-erase pid q k cut,
      contains-cut q k,
      there,
    );
    retired = λ k q h t. ground (
      arith,
      find-modify pid k (close now) table,
      v.retired k q,
      ==_iff pid k,
      ==_refl p.tree_id,
      ==_refl p.parent_pid,
      contains-remove_member p.tree_id q.tree_id pid k index,
      contains-erase pid q.parent_pid k cut,
      contains-cut q.parent_pid k,
      there,
    );
  }
