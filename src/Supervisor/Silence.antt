-- ===== src/Supervisor/Silence.antt =====
-- The first half of a watchdog round: which processes it kills for silence.
use velix.Prelude.{
  str_eq, int_eq, ℕ, ◌*◌, ◌-◌, ◌<◌, ◌≤◌, ℤ, pos, Str, List, Map, [], ◌∷◌, Option, some, none, Bool,
  true, false, ◌≡◌, ◌&&◌, refl, ap, ◌∙◌, arith, find, Unique, codes, ltb, Bool-cases, inl, inr,
  ==_iff, if◌then◌else◌,
}
use velix.Prelude.Words.{sub64_le, u64_mod}
use velix.Registry.State.{ProcessInfo, TreeInfo, Registry}
use velix.Registry.Ending.{set_killed, cleanup_historical_processes, cleanup_loop}
use velix.Registry.Queries.{watchdog_entry, snapshot_loop, snapshot_for_watchdog}
use velix.Registry.Invariant.{IsValid}
use velix.Registry.Invariant.Sweep.{find-cleanup_loop, sweep-Agree}
use velix.Termination.{TerminationTarget}
use velix.Termination.Leaks.{targets, killed_if, marks, marks-find, kill_processes-eq-marks}
use velix.Watchdog.{kill_if_any}
use velix.Watchdog.Heartbeat.{timeout_ms}
use velix.Supervisor.State.{SupervisorConfig}
use velix.Supervisor.Round.{is_silent, silent_targets, reap_silent, retention_ms}

module _ {D : Type 0} where
  -- A process on record is live and silent.
  abbrev silent_entry :
      SupervisorConfig D → ℕ → Map Str TreeInfo → ℤ → Option (ProcessInfo D) → Bool
  silent_entry cfg now trees k none = false
  silent_entry cfg now trees k (some p) = p.alive && is_silent cfg now (watchdog_entry trees k p)

  silent_targets-snapshot_loop :
      (cfg : SupervisorConfig D) (now : ℕ) (trees : Map Str TreeInfo) (k : ℤ)
      (m : Map ℤ (ProcessInfo D))
      → Unique m
      → targets k (silent_targets cfg now (snapshot_loop trees m))
        ≡ silent_entry cfg now trees k (find k m)
  unfolding silent_targets snapshot_loop find
  silent_targets-snapshot_loop cfg now trees k [] u = refl
  silent_targets-snapshot_loop cfg now trees k ((j, p) ∷ m) u = elim (Bool-cases p.alive) [
    | inl on ↦ elim (Bool-cases (is_silent cfg now (watchdog_entry trees j p))) [
      | inl h ↦
          ground (arith, on, h, silent_targets-snapshot_loop cfg now trees k m u.1, u.0, ==_iff j k)
      | inr h ↦
          ground (arith, on, h, silent_targets-snapshot_loop cfg now trees k m u.1, u.0, ==_iff j k)
    ]
    | inr off ↦
        ground (arith, off, silent_targets-snapshot_loop cfg now trees k m u.1, u.0, ==_iff j k)
  ]

  kill_if_any-eq-marks :
      (clock : ℕ → ℕ) (grace : ℤ) (reason : Str) (ts : List TerminationTarget) (r : Registry D)
      → (kill_if_any clock grace reason ts r).0 ≡ marks ts r
  unfolding kill_if_any marks
  kill_if_any-eq-marks clock grace reason [] r = refl
  kill_if_any-eq-marks clock grace reason (t ∷ ts) r =
      kill_processes-eq-marks clock grace reason (t ∷ ts) r

  -- In a valid registry, the first half of a round kills a live process, whose last heartbeat is not after the round's
  -- clock, exactly when it has been silent for more than the timeout; otherwise it leaves it as it was.
  pub reap_silent_exact :
      (cfg : SupervisorConfig D) (now sec : ℕ) (clock : ℕ → ℕ) (r : Registry D) (k : ℤ)
      (p : ProcessInfo D)
      → IsValid r
      → find k r.process_table ≡ some p
      → p.alive ≡ true
      → cfg.heartbeat_timeout_sec ≡ pos sec
      → sec * 1000 < u64_mod
      → p.last_heartbeat_ms ≤ now
      → now < u64_mod
      → find k (reap_silent cfg now clock r).0.process_table
        ≡ some (if ltb (sec * 1000) (now - p.last_heartbeat_ms) then set_killed p else p)
  unfolding reap_silent cleanup_historical_processes snapshot_for_watchdog is_silent
  reap_silent_exact cfg now sec clock r k p v e on timeout fits le lt =
      rw (kill_if_any-eq-marks clock cfg.terminate_grace_ms (codes "heartbeat_timeout") ts r1)
        (marks-find k ts r1 p there ∙ ap (λ b. some (killed_if b p)) (hits ∙ decided))
    where
      table : Map ℤ (ProcessInfo D)
      table = cleanup_loop now retention_ms r.process_table

      r1 : Registry D
      r1 = record r { process_table = table }

      ts : List TerminationTarget
      ts = silent_targets cfg now (snapshot_loop r.tree_table table)

      there : find k table ≡ some p
      there = ground (
        arith,
        find-cleanup_loop now retention_ms k r.process_table v.unique,
        e,
        on,
        v.retired k p e,
      )

      hits : targets k ts ≡ silent_entry cfg now r.tree_table k (find k table)
      hits =
          silent_targets-snapshot_loop cfg now r.tree_table k table
            (sweep-Agree now retention_ms r.process_table r.tree_process_index r.process_children
              r.process_counter v).unique

      silent :
          is_silent cfg now (watchdog_entry r.tree_table k p)
          ≡ ltb (sec * 1000) (now - p.last_heartbeat_ms)
      silent = rw (timeout, timeout_ms sec fits, sub64_le now p.last_heartbeat_ms le lt) refl

      decided :
          silent_entry cfg now r.tree_table k (find k table)
          ≡ ltb (sec * 1000) (now - p.last_heartbeat_ms)
      decided = rw (there, on) silent
