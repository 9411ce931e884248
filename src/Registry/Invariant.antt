-- ===== src/Registry/Invariant.antt =====
-- The registry's invariant: the tables and the indexes agree. It does not speak of the tree table.
pub mod Modify
pub mod Retire
pub mod Admit
pub mod Sweep
use velix.Prelude.{
  str_eq, int_eq, ℕ, ◌<◌, ℤ, pos, negsuc, is_pos, Str, Map, Option, some, true, false, List, ◌≡◌,
  find, members, contains, map_option, Unique,
}
use velix.Registry.State.{ProcessInfo, Registry}

abbrev pub Below : ℤ → ℕ → Type 0
Below (pos n) c = n < c
Below (negsuc n) c = ⊥

module _ {D : Type 0} where
  -- The tree and the parent on record for a pid.
  abbrev pub tree_of : ℤ → Map ℤ (ProcessInfo D) → Option Str
  tree_of k m = map_option (λ p. p.tree_id) (find k m)

  abbrev pub parent_of : ℤ → Map ℤ (ProcessInfo D) → Option ℤ
  parent_of k m = map_option (λ p. p.parent_pid) (find k m)

  pub record Agree (table : Map ℤ (ProcessInfo D)) (index : Map Str (List ℤ))
      (children : Map ℤ (List ℤ)) (counter : ℕ) : Type 0 where
    pub unique : Unique table
    pub keyed : (k : ℤ) (p : ProcessInfo D) → find k table ≡ some p → p.pid ≡ k
    pub bounded : (k : ℤ) (p : ProcessInfo D) → find k table ≡ some p → Below k counter
    pub indexed : (t : Str) (k : ℤ) → contains k (members t index) ≡ true → tree_of k table ≡ some t
    pub listed :
        (k : ℤ) (p : ProcessInfo D)
        → find k table ≡ some p
        → p.alive ≡ true
        → contains k (members p.tree_id index) ≡ true
    pub parented :
        (q k : ℤ)
        → contains k (members q children) ≡ true
        → (parent_of k table ≡ some q) × (is_pos q ≡ true)
    pub retired :
        (k : ℤ) (p : ProcessInfo D)
        → find k table ≡ some p
        → 0 < p.termination_time_ms
        → (p.alive ≡ false)
          × (contains k (members p.tree_id index) ≡ false)
          × (contains k (members p.parent_pid children) ≡ false)

  abbrev pub IsValid : Registry D → Type 0
  IsValid r = Agree r.process_table r.tree_process_index r.process_children r.process_counter
