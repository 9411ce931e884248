-- ===== src/Terminal/Operations.antt =====
-- core/persistant_applications/terminal_registry.cpp: the operations on existing sessions, the
-- watchdog's, and the registry's calls as one type. What an object of the class keeps is `Terminals`.
-- A driver's exec and cancel_current_job are arguments: they talk to a process. Log lines are left
-- out.
pub mod Bounds
pub mod Drivers
pub mod Eviction
pub mod Opening
use velix.Prelude.{
  ℕ, ℤ, Str, Option, none, some, Bool, false, not, ◌&&◌, ◌||◌, ◌++◌, List, [], ◌∷◌, if◌then◌else◌,
  is_empty, length, find, modify, keys_where, sub64, ltb, str_eq, codes,
}
use velix.Terminal.Jobs.{JobStore, Job, get, prune}
use velix.Terminal.Sessions.{
  SessionStatus, SessionInfo, Session, Sessions, Limits, Outcome, thrown, is_active, to_int,
  session_id_of, of_user, extract_locked, extract_all, get_or_create,
}

pub record Terminals (D C : Type 0) : Type 0 where
  pub sessions : Sessions D C
  pub job_store : JobStore
  pub limits : Limits

-- What evict_dead_and_idle returns.
unfoldable pub evicted_count : {D : Type 0} → List D → ℤ
evicted_count to_close = to_int (length to_close)

module _ {D C : Type 0} where
  abbrev pub used_at : ℕ → Session D C → Session D C
  used_at now s = record s { info = record s.info { last_used_ms = now } }

  -- exec: the lookup under the lock, then the driver's exec on the job store.
  unfoldable pub exec :
      (D → Bool)
      → (D → Str → ℤ → JobStore → JobStore × Outcome Str)
      → ℕ
      → Str
      → Str
      → Str
      → ℤ
      → Terminals D C
      → Terminals D C × Outcome Str
  exec alive driver_exec now user_id session_name cmd timeout_sec t =
      let id = session_id_of user_id session_name in
      elim (find id t.sessions) [
        | none ↦ (t, thrown (codes "No session: " ++ id))
        | some s ↦
            if not (alive s.driver)
            then (t, thrown (codes "Session shell is dead: " ++ id))
            else let done = driver_exec s.driver cmd timeout_sec t.job_store in
              (
                record t { sessions = modify id (used_at now) t.sessions; job_store = done.0 },
                done.1,
              )
      ]

  unfoldable pub poll_job : Str → Terminals D C → Option Job
  poll_job job_id t = get job_id t.job_store

  unfoldable pub cancel_job : (D → Bool) → Str → Str → Terminals D C → Bool
  cancel_job cancel user_id session_name t =
      elim (find (session_id_of user_id session_name) t.sessions) [
        | none ↦ false
        | some s ↦ cancel s.driver
      ]

  -- kill_session: an empty name means every session of the user.
  unfoldable pub kill_session : Str → Str → Sessions D C → List D × Sessions D C
  kill_session user_id session_name m =
      if is_empty session_name
      then extract_all (keys_where (of_user user_id) m) m
      else extract_locked (session_id_of user_id session_name) m

  unfoldable pub kill_session_by_id : Str → Sessions D C → List D × Sessions D C
  kill_session_by_id session_id m = extract_locked session_id m

  unfoldable pub snapshot : Sessions D C → List SessionInfo
  snapshot [] = []
  snapshot ((id, s) ∷ m) = s.info ∷ snapshot m

  -- snapshot(user_id)
  unfoldable pub snapshot_of : Str → Sessions D C → List SessionInfo
  snapshot_of user_id [] = []
  snapshot_of user_id ((id, s) ∷ m) =
      let rest = snapshot_of user_id m in if of_user user_id s then s.info ∷ rest else rest

  abbrev pub is_lost : (D → Bool) → Session D C → Bool
  is_lost alive s = is_active s.info.status && not (alive s.driver)

  abbrev pub mark_dead : Session D C → Session D C
  mark_dead s = record s {
    info = record s.info {
      status = SessionStatus.dead;
      last_error_msg = codes "shell process exited unexpectedly";
    };
  }

  unfoldable pub mark_all_dead : List Str → Sessions D C → Sessions D C
  mark_all_dead [] m = m
  mark_all_dead (id ∷ ids) m = mark_all_dead ids (modify id mark_dead m)

  -- detect_dead_sessions: the scan sees the sessions under the shared lock, `m` are those under the
  -- unique one.
  unfoldable pub detect_dead_sessions :
      (D → Bool) → Sessions D C → Sessions D C → List Str × Sessions D C
  unfolding mark_all_dead
  detect_dead_sessions alive seen m =
      let dead_ids = keys_where (is_lost alive) seen in (dead_ids, mark_all_dead dead_ids m)

  -- Not active, or idle for longer than the timeout, on uint64_t.
  abbrev pub is_evictable : ℕ → ℕ → Session D C → Bool
  is_evictable now idle_timeout_ms s =
      not (is_active s.info.status) || ltb idle_timeout_ms (sub64 now s.info.last_used_ms)

  unfoldable pub evict_dead_and_idle : ℕ → ℕ → Sessions D C → List D × Sessions D C
  unfolding extract_all keys_where
  evict_dead_and_idle now idle_timeout_ms m =
      extract_all (keys_where (is_evictable now idle_timeout_ms) m) m

  unfoldable pub prune_jobs : ℕ → Terminals D C → Terminals D C
  prune_jobs now t = record t { job_store = prune now t.limits.job_retention_ms t.job_store }

-- The steps that change the sessions.
pub data Event (D C : Type 0) : Type 0 where
  opens : Outcome (D × Str) → C → ℕ → Str → Str → (D → Bool) → Sessions D C → (D → Bool) → Event D C
  uses : Str → ℕ → Event D C
  kills : Str → Str → Event D C
  kills_id : Str → Event D C
  detects : (D → Bool) → Sessions D C → Event D C
  evicts : ℕ → Event D C

-- The sessions after a step, the drivers that it closes and the one that it spawns.
pub record Stepped (D C : Type 0) : Type 0 where
  pub sessions : Sessions D C
  pub closed : List D
  pub spawned : List D

module _ {D C : Type 0} where
  unfoldable pub step : Limits → Sessions D C → Event D C → Stepped D C
  step limits m (opens made cfg now user name alive_then seen alive) =
      let c = get_or_create limits made cfg now user name alive_then seen alive m in
      record { sessions = c.sessions; closed = c.closed; spawned = c.spawned }
  step limits m (uses id now) = record {
    sessions = modify id (used_at now) m;
    closed = [];
    spawned = [];
  }
  step limits m (kills user name) =
      let k = kill_session user name m in record { sessions = k.1; closed = k.0; spawned = [] }
  step limits m (kills_id id) =
      let k = kill_session_by_id id m in record { sessions = k.1; closed = k.0; spawned = [] }
  step limits m (detects alive seen) = record {
    sessions = (detect_dead_sessions alive seen m).1;
    closed = [];
    spawned = [];
  }
  step limits m (evicts now) =
      let k = evict_dead_and_idle now limits.idle_timeout_ms m in
      record { sessions = k.1; closed = k.0; spawned = [] }

  unfoldable pub run : Limits → Sessions D C → List (Event D C) → Stepped D C
  unfolding step
  run limits m [] = record { sessions = m; closed = []; spawned = [] }
  run limits m (e ∷ es) =
      let first = step limits m e in
      let rest = run limits first.sessions es in
      record {
        sessions = rest.sessions;
        closed = first.closed ++ rest.closed;
        spawned = first.spawned ++ rest.spawned;
      }
