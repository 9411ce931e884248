-- ===== src/Registry/Invariant/Sweep.antt =====
-- The invariant under the removal of stale processes.
use velix.Prelude.{
  str_eq, int_eq, ℕ, ◌<◌, ℤ, Str, List, Map, Option, none, some, true, [], ◌∷◌, ◌≡◌, arith, find,
  ==_iff, Option-cases, Unique, inl, inr, if◌then◌else◌,
}
use velix.Registry.State.{ProcessInfo}
use velix.Registry.Ending.{is_stale, cleanup_loop}
use velix.Registry.Invariant.{Agree}

module _ {D : Type 0} (now retention : ℕ) where
  abbrev pub keep_fresh : Option (ProcessInfo D) → Option (ProcessInfo D)
  keep_fresh none = none
  keep_fresh (some p) = if is_stale now retention p then none else some p

  pub find-cleanup_loop :
      (k : ℤ) (m : Map ℤ (ProcessInfo D))
      → Unique m
      → find k (cleanup_loop now retention m) ≡ keep_fresh (find k m)
  unfolding find cleanup_loop
  find-cleanup_loop k [] u = ground arith
  find-cleanup_loop k ((j, p) ∷ m) u = ground (arith, find-cleanup_loop k m u.1, u.0, ==_iff j k)

  cleanup_loop-Unique :
      (m : Map ℤ (ProcessInfo D)) → Unique m → Unique (cleanup_loop now retention m)
  unfolding cleanup_loop
  cleanup_loop-Unique [] u = u
  cleanup_loop-Unique ((j, p) ∷ m) u =
      ground (arith, cleanup_loop-Unique m u.1, find-cleanup_loop j m u.1, u.0)

  -- A stale process was terminated.
  pub is_stale-time :
      (p : ProcessInfo D) → is_stale now retention p ≡ true → 0 < p.termination_time_ms
  unfolding is_stale
  is_stale-time p h = ground arith

  pub sweep-Agree :
      (table : Map ℤ (ProcessInfo D)) (index : Map Str (List ℤ)) (children : Map ℤ (List ℤ)) (c : ℕ)
      → Agree table index children c
      → Agree (cleanup_loop now retention table) index children c
  sweep-Agree table index children c v = record {
    unique = cleanup_loop-Unique table v.unique;
    keyed = λ k q h. v.keyed k q (before k q h);
    bounded = λ k q h. v.bounded k q (before k q h);
    indexed = λ t k h. elim (Option-cases (find k table)) [
      | inl e ↦ ground (arith, v.indexed t k)
      | inr (p, e) ↦
          ground (
            arith,
            find-cleanup_loop k table v.unique,
            v.indexed t k,
            is_stale-time p,
            v.retired k p,
          )
    ];
    listed = λ k q h a. v.listed k q (before k q h) a;
    parented = λ q k h. elim (Option-cases (find k table)) [
      | inl e ↦ ground (arith, v.parented q k)
      | inr (p, e) ↦ ground (
        arith,
        find-cleanup_loop k table v.unique,
        v.parented q k,
        is_stale-time p,
        v.retired k p,
      )
    ];
    retired = λ k q h t. v.retired k q (before k q h) t;
  }
    where
      before :
          (k : ℤ) (q : ProcessInfo D)
          → find k (cleanup_loop now retention table) ≡ some q
          → find k table ≡ some q
      before k q h = ground (arith, find-cleanup_loop k table v.unique)
