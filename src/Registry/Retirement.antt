-- ===== src/Registry/Retirement.antt =====
-- terminate_process and cleanup_historical_processes: what they take away, and what they leave.
use velix.Prelude.{
  str_eq, int_eq, ℕ, ◌<◌, ◌≤◌, ◌-◌, ℤ, Str, none, some, true, false, ◌≡◌, ◌≢◌, arith, find, members,
  contains, ltb, ==_iff, ==_refl, find-modify, contains-remove_member, if◌then◌else◌, Map, List,
  is_pos, erase, remove_member, not, ◌&&◌, ◌==◌, contains-erase, Bool-cases, inl, inr,
}
use velix.Prelude.Words.{sub64_le, u64_mod}
use velix.Registry.State.{ProcessInfo, Registry}
use velix.Registry.Ending.{close, retire, terminate_process, is_stale, cleanup_historical_processes}
use velix.Registry.Invariant.{IsValid}
use velix.Registry.Invariant.Sweep.{find-cleanup_loop}

module _ {D : Type 0} where
  -- Terminating the same pid again, at any later time, changes nothing more.
  pub terminate_process_idem :
      (now later : ℕ) (pid : ℤ) (r : Registry D)
      → terminate_process later pid (terminate_process now pid r) ≡ terminate_process now pid r
  unfolding terminate_process retire
  terminate_process_idem now later pid r =
      ground (arith, find-modify pid pid (close now) r.process_table, ==_refl pid)

  -- The process is dead since that time, in no tree's list and in no parent's; nobody is listed as its child any more.
  -- The other pids keep their entries, their places in the trees' lists, and those in the lists of other parents.
  pub record Retired (now : ℕ) (pid : ℤ) (p : ProcessInfo D) (r r' : Registry D) : Type 0 where
    pub closed : find pid r'.process_table ≡ some (close now p)
    pub unlisted : (t : Str) → contains pid (members t r'.tree_process_index) ≡ false
    pub others : (k : ℤ) → k ≢ pid → find k r'.process_table ≡ find k r.process_table
    pub peers :
        (t : Str) (k : ℤ)
        → k ≢ pid
        → contains k (members t r'.tree_process_index) ≡ contains k (members t r.tree_process_index)
    pub unparented : (q : ℤ) → contains pid (members q r'.process_children) ≡ false
    pub childless : (k : ℤ) → contains k (members pid r'.process_children) ≡ false
    pub siblings :
        (q k : ℤ)
        → q ≢ pid
        → k ≢ pid
        → contains k (members q r'.process_children) ≡ contains k (members q r.process_children)

  -- Where a pid stands once another process was taken out of the lists of parents.
  dropped : ℤ → ℤ → Registry D → Map ℤ (List ℤ)
  dropped parent pid r =
      erase pid
        (if is_pos parent then remove_member parent pid r.process_children else r.process_children)

  contains-dropped :
      (parent pid q k : ℤ) (r : Registry D)
      → contains k (members q (dropped parent pid r)) ≡ (
          not (pid == q)
          && (not (is_pos parent && (parent == q && pid == k))
              && contains k (members q r.process_children)))
  unfolding dropped
  contains-dropped parent pid q k r = elim (Bool-cases (is_pos parent)) [
    | inl e ↦ ground (
      arith,
      e,
      contains-erase pid q k (remove_member parent pid r.process_children),
      contains-remove_member parent q pid k r.process_children,
    )
    | inr e ↦ ground (arith, e, contains-erase pid q k r.process_children)
  ]

  -- Terminating a live process of a valid registry marks it dead at that time and takes it out of every tree's list and
  -- of every parent's, and its own list of children goes; every other pid keeps its entry, its place in the trees'
  -- lists, and its place in the lists of parents that are not the terminated process.
  pub terminate_process-Retired :
      (now : ℕ) (pid : ℤ) (p : ProcessInfo D) (r : Registry D)
      → IsValid r
      → find pid r.process_table ≡ some p
      → p.alive ≡ true
      → Retired now pid p r (terminate_process now pid r)
  unfolding terminate_process
  terminate_process-Retired now pid p r v there on =
      rw (there, on, terminate_process)
        (unfold retire dropped in
          record {
            closed =
                ground (arith, there, find-modify pid pid (close now) r.process_table, ==_refl pid);
            unlisted = λ t. ground (
              arith,
              there,
              contains-remove_member p.tree_id t pid pid r.tree_process_index,
              v.indexed t pid,
              ==_iff p.tree_id t,
              ==_refl pid,
            );
            others =
                λ k ne. ground (arith, find-modify pid k (close now) r.process_table, ==_iff pid k);
            peers = λ t k ne. ground (
              arith,
              contains-remove_member p.tree_id t pid k r.tree_process_index,
              ==_iff pid k,
            );
            unparented = λ q. ground (
              arith,
              contains-dropped p.parent_pid pid q pid r,
              v.parented q pid,
              there,
              ==_iff p.parent_pid q,
              ==_refl pid,
            );
            childless = λ k. ground (arith, contains-dropped p.parent_pid pid pid k r, ==_refl pid);
            siblings = λ q k apart other.
                ground (arith, contains-dropped p.parent_pid pid q k r, ==_iff pid q, ==_iff pid k);
          })

  -- For a process that is on record, with a termination time not after the clock's: the cleanup drops it exactly
  -- when it is dead, was terminated at a time above 0, and has been so for longer than the retention.
  pub cleanup_exact :
      (now retention : ℕ) (pid : ℤ) (p : ProcessInfo D) (r : Registry D)
      → IsValid r
      → find pid r.process_table ≡ some p
      → p.termination_time_ms ≤ now
      → now < u64_mod
      → find pid (cleanup_historical_processes now retention r).process_table ≡ (
          if ltb 0 p.termination_time_ms
          then if ltb retention (now - p.termination_time_ms) then none else some p
          else some p)
  unfolding cleanup_historical_processes is_stale
  cleanup_exact now retention pid p r v there le lt = ground (
    arith,
    find-cleanup_loop now retention pid r.process_table v.unique,
    v.retired pid p there,
    sub64_le now p.termination_time_ms le lt,
  )
