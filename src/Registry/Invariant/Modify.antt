-- ===== src/Registry/Invariant/Modify.antt =====
-- The invariant under writes to one process that keep its identity.
use velix.Prelude.{
  str_eq, int_eq, refl, ◌∙◌, ℕ, ℤ, Str, Map, some, true, List, ◌≡◌, arith, find, modify, ◌==◌,
  find-modify, modify-Unique, Option-cases, Bool-cases, inl, inr,
}
use velix.Registry.State.{ProcessInfo}
use velix.Registry.Invariant.{Agree, tree_of, parent_of}

module _ {D : Type 0} where
  -- A write that keeps the structural fields and brings nobody back to life.
  pub record Keeps (f : ProcessInfo D → ProcessInfo D) : Type 0 where
    pub pid : (p : ProcessInfo D) → (f p).pid ≡ p.pid
    pub tree_id : (p : ProcessInfo D) → (f p).tree_id ≡ p.tree_id
    pub parent_pid : (p : ProcessInfo D) → (f p).parent_pid ≡ p.parent_pid
    pub time : (p : ProcessInfo D) → (f p).termination_time_ms ≡ p.termination_time_ms
    pub alive : (p : ProcessInfo D) → (f p).alive ≡ true → p.alive ≡ true

  record Follows (q p : ProcessInfo D) : Type 0 where
    pid : q.pid ≡ p.pid
    tree_id : q.tree_id ≡ p.tree_id
    parent_pid : q.parent_pid ≡ p.parent_pid
    time : q.termination_time_ms ≡ p.termination_time_ms
    alive : q.alive ≡ true → p.alive ≡ true

  module _ (pid : ℤ) (f : ProcessInfo D → ProcessInfo D) (keep : Keeps f) where
    -- What stands at a key after the write stood there before it, perhaps written.
    found :
        (k : ℤ) (m : Map ℤ (ProcessInfo D)) (q : ProcessInfo D)
        → find k (modify pid f m) ≡ some q
        → (p : ProcessInfo D) × (find k m ≡ some p) × Follows q p
    found k m q h = elim (Option-cases (find k m)) [
      | inl e ↦ ground (arith, find-modify pid k f m)
      | inr (p, e) ↦ (
        p,
        e,
        elim (Bool-cases (pid == k)) [
          | inl hit ↦
              let w : q ≡ f p = ground (arith, find-modify pid k f m) in
              rw w (record {
                pid = keep.pid p;
                tree_id = keep.tree_id p;
                parent_pid = keep.parent_pid p;
                time = keep.time p;
                alive = keep.alive p;
              })
          | inr miss ↦
              let w : q ≡ p = ground (arith, find-modify pid k f m) in
              rw w (record {
                pid = refl;
                tree_id = refl;
                parent_pid = refl;
                time = refl;
                alive = λ a. a;
              })
        ],
      )
    ]

    tree_of-modify : (k : ℤ) (m : Map ℤ (ProcessInfo D)) → tree_of k (modify pid f m) ≡ tree_of k m
    tree_of-modify k m = elim (Option-cases (find k m)) [
      | inl e ↦ ground (arith, find-modify pid k f m)
      | inr (p, e) ↦ ground (arith, find-modify pid k f m, keep.tree_id p)
    ]

    parent_of-modify :
        (k : ℤ) (m : Map ℤ (ProcessInfo D)) → parent_of k (modify pid f m) ≡ parent_of k m
    parent_of-modify k m = elim (Option-cases (find k m)) [
      | inl e ↦ ground (arith, find-modify pid k f m)
      | inr (p, e) ↦ ground (arith, find-modify pid k f m, keep.parent_pid p)
    ]

    pub modify-Agree :
        (table : Map ℤ (ProcessInfo D)) (index : Map Str (List ℤ)) (children : Map ℤ (List ℤ))
        (counter : ℕ)
        → Agree table index children counter
        → Agree (modify pid f table) index children counter
    modify-Agree table index children counter v = record {
      unique = modify-Unique pid f table v.unique;
      keyed = λ k q h. let (p, e, s) = found k table q h in s.pid ∙ v.keyed k p e;
      bounded = λ k q h. let (p, e, s) = found k table q h in v.bounded k p e;
      indexed = λ t k h. tree_of-modify k table ∙ v.indexed t k h;
      listed =
          λ k q h a. let (p, e, s) = found k table q h in rw s.tree_id (v.listed k p e (s.alive a));
      parented = λ q k h. (parent_of-modify k table ∙ (v.parented q k h).0, (v.parented q k h).1);
      retired = λ k q h t.
          let (p, e, s) = found k table q h in
          let (dead, out, orphan) = v.retired k p e (rw s.time at t) in
          (ground (arith, s.alive), rw s.tree_id out, rw s.parent_pid orphan);
    }
