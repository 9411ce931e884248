-- ===== src/Termination/Leaks.antt =====
-- What kill_processes leaves of the indexes and of the termination times.
use velix.Prelude.{
  str_eq, Unique, modify-Unique, contains-nil, int_eq, ℕ, suc, ℤ, Str, some, Bool, true, false,
  ◌||◌, List, [], ◌∷◌, ◌≡◌, refl, ◌∙◌, ap, arith, find, ==_refl, ◌==◌, find-modify, Bool-cases, inl,
  inr, if◌then◌else◌,
}
use velix.Registry.State.{ProcessInfo, Registry}
use velix.Registry.Trees.{is_done, mark_tree_completed_if_done}
use velix.Registry.Ending.{
  set_killed, mark_process_killed, terminate_process, cleanup_loop, cleanup_historical_processes,
}
use velix.Registry.Invariant.{IsValid}
use velix.Registry.Invariant.Sweep.{find-cleanup_loop, is_stale-time}
use velix.Registry.Completion.{is_done-IsOver}
use velix.Termination.{TerminationTarget, kill_one, kill_processes}

-- Some target has this pid.
abbrev pub targets : ℤ → List TerminationTarget → Bool
targets pid [] = false
targets pid (t ∷ ts) = t.velix_pid == pid || targets pid ts

module _ {D : Type 0} where
  abbrev pub killed_if : Bool → ProcessInfo D → ProcessInfo D
  killed_if hit p = if hit then set_killed p else p

  -- The loop body is its first step alone.
  kill_one-eq-mark :
      (now : ℕ) (t : TerminationTarget) (r : Registry D)
      → kill_one now t r ≡ mark_process_killed t.velix_pid r
  unfolding kill_one terminate_process mark_process_killed
  kill_one-eq-mark now t r =
      ground
        (arith, find-modify t.velix_pid t.velix_pid set_killed r.process_table, ==_refl t.velix_pid)

  unfoldable pub marks : List TerminationTarget → Registry D → Registry D
  marks [] r = r
  marks (t ∷ ts) r = marks ts (mark_process_killed t.velix_pid r)

  pub kill_processes-eq-marks :
      (clock : ℕ → ℕ) (grace : ℤ) (reason : Str) (ts : List TerminationTarget) (r : Registry D)
      → (kill_processes clock grace reason ts r).0 ≡ marks ts r
  unfolding kill_processes marks
  kill_processes-eq-marks clock grace reason [] r = refl
  kill_processes-eq-marks clock grace reason (t ∷ ts) r =
      kill_processes-eq-marks (λ n. clock (suc n)) grace reason ts (kill_one (clock 0) t r)
      ∙ ap (marks ts) (kill_one-eq-mark (clock 0) t r)

  pub marks-indexes :
      (ts : List TerminationTarget) (r : Registry D)
      → ((marks ts r).tree_process_index ≡ r.tree_process_index)
        × ((marks ts r).process_children ≡ r.process_children)
        × ((marks ts r).tree_table ≡ r.tree_table)
  unfolding marks mark_process_killed
  marks-indexes [] r = (refl, refl, refl)
  marks-indexes (t ∷ ts) r = marks-indexes ts (mark_process_killed t.velix_pid r)

  pub marks-find :
      (pid : ℤ) (ts : List TerminationTarget) (r : Registry D) (p : ProcessInfo D)
      → find pid r.process_table ≡ some p
      → find pid (marks ts r).process_table ≡ some (killed_if (targets pid ts) p)
  unfolding marks mark_process_killed
  marks-find pid [] r p e = e
  marks-find pid (t ∷ ts) r p e =
      let m = mark_process_killed t.velix_pid r in
      ground (
        arith,
        find-modify t.velix_pid pid set_killed r.process_table,
        marks-find pid ts m p,
        marks-find pid ts m (set_killed p),
      )

  pub marks-Unique :
      (ts : List TerminationTarget) (r : Registry D)
      → Unique r.process_table
      → Unique (marks ts r).process_table
  unfolding marks mark_process_killed
  marks-Unique [] r u = u
  marks-Unique (t ∷ ts) r u =
      marks-Unique ts (mark_process_killed t.velix_pid r)
        (modify-Unique t.velix_pid set_killed r.process_table u)

  -- After kill_processes, whatever the targets, the trees' lists and the children's lists are the ones from before;
  -- the targets on record are marked killed and dead; and their termination times are unchanged.
  pub kill_processes_leaves_links :
      (clock : ℕ → ℕ) (grace : ℤ) (reason : Str) (ts : List TerminationTarget) (r : Registry D)
      (pid : ℤ) (p : ProcessInfo D)
      → find pid r.process_table ≡ some p
      → targets pid ts ≡ true
      → let r' = (kill_processes clock grace reason ts r).0 in
        (find pid r'.process_table ≡ some (set_killed p))
        × (r'.tree_process_index ≡ r.tree_process_index)
        × (r'.process_children ≡ r.process_children)
  kill_processes_leaves_links clock grace reason ts r pid p e hit =
      rw (kill_processes-eq-marks clock grace reason ts r)
        (rw hit at (marks-find pid ts r p e), (marks-indexes ts r).0, (marks-indexes ts r).1)

  -- When kill_processes ends a live process of a valid registry, no later cleanup drops it, whatever the clock and the
  -- retention, and its tree, which still lists it, is not completed by the check that follows.
  pub killed_process_leaks :
      (clock : ℕ → ℕ) (grace : ℤ) (reason : Str) (ts : List TerminationTarget) (r : Registry D)
      (pid : ℤ) (p : ProcessInfo D) (now retention : ℕ)
      → IsValid r
      → find pid r.process_table ≡ some p
      → p.alive ≡ true
      → targets pid ts ≡ true
      → let swept =
          cleanup_historical_processes now retention (kill_processes clock grace reason ts r).0 in
        (find pid swept.process_table ≡ some (set_killed p))
        × ((mark_tree_completed_if_done p.tree_id swept).1 ≡ false)
  unfolding mark_tree_completed_if_done cleanup_historical_processes
  killed_process_leaks clock grace reason ts r pid p now retention v e on hit =
      rw (kill_processes-eq-marks clock grace reason ts r) (
        ground (
          arith,
          find-cleanup_loop now retention pid (marks ts r).process_table
              (marks-Unique ts r v.unique),
          marks-find pid ts r p e,
          v.retired pid p e,
          is_stale-time now retention (set_killed p),
        ),
        ground (arith, still_listed),
      )
    where
      swept : Registry D
      swept = record (marks ts r) {
        process_table = cleanup_loop now retention (marks ts r).process_table;
      }

      still_listed : is_done p.tree_id swept ≡ false
      still_listed = elim (Bool-cases (is_done p.tree_id swept)) [
        | inl d ↦ absurd (
            ground (
              arith,
              (is_done-IsOver p.tree_id swept d).empty,
              (marks-indexes ts r).0,
              v.listed pid p e on,
              contains-nil pid,
            ))
        | inr d ↦ d
      ]
