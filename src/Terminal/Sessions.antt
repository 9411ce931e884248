-- ===== src/Terminal/Sessions.antt =====
-- core/persistant_applications/terminal_registry.cpp and .hpp: the sessions of the terminal
-- registry and its operations. `D` is the type of driver handles and `C` of driver configurations;
-- `alive` says which drivers' shells live when a lock is held. Each operation that holds
-- sessions_mx_ is one step. An operation that ends sessions also returns the drivers it closes,
-- in the order in which it closes them; close() is called after the lock is released.
pub mod Invariant
pub mod Cases
pub mod Keys
use velix.Prelude.{
  ℕ, ℤ, pos, negsuc, ◌+◌, ◌-◌, ◌%◌, ◌^◌, Str, Map, Option, none, some, Bool, true, false, not, ◌&&◌,
  ◌++◌, List, [], ◌∷◌, if◌then◌else◌, is_empty, length, find, insert, erase, ltb, ltb_ℤ, ◌==◌,
  str_eq, codes,
}

pub data SessionStatus : Type 0 where
  active dead error : SessionStatus

pub record SessionInfo : Type 0 where
  pub session_id : Str
  pub user_id : Str
  pub session_name : Str
  pub driver_type : Str
  pub status : SessionStatus
  pub created_at_ms : ℕ
  pub last_used_ms : ℕ
  pub last_error_msg : Str

pub record Session (D C : Type 0) : Type 0 where
  pub info : SessionInfo
  pub driver : D
  pub cfg : C

pub record Limits : Type 0 where
  pub max_sessions_total : ℤ
  pub max_sessions_per_user : ℤ
  pub idle_timeout_ms : ℕ
  pub job_retention_ms : ℕ

pub data Outcome (A : Type 0) : Type 0 where
  returned : A → Outcome A
  thrown : Str → Outcome A

-- The failures of get_or_create, for the texts of its error field.
pub data Refusal : Type 0 where
  empty_user too_many_sessions too_many_of_user : Refusal
  spawn_failed : Str → Refusal

pub data Opened : Type 0 where
  existing : Str → Opened
  created : Str → Opened
  refused : Refusal → Opened

abbrev pub is_active : SessionStatus → Bool
is_active SessionStatus.active = true
is_active _ = false

-- static_cast<int> of a size.
unfoldable pub to_int : ℕ → ℤ
to_int n = if ltb (n % 2 ^ 32) (2 ^ 31) then pos (n % 2 ^ 32) else negsuc (2 ^ 32 - 1 - n % 2 ^ 32)

unfoldable pub normalize_session_name : Str → Str
normalize_session_name name = if is_empty name then codes "default" else name

unfoldable pub make_session_key : Str → Str → Str
make_session_key user_id session_name =
    user_id ++ (codes ":" ++ normalize_session_name session_name)

-- The id under which a user's session of this name is kept.
abbrev pub session_id_of : Str → Str → Str
session_id_of user_id session_name = make_session_key user_id (normalize_session_name session_name)

-- sessions_: by session id.
abbrev pub Sessions : Type 0 → Type 0 → Type 0
Sessions D C = Map Str (Session D C)

-- What the write path leaves, answers, closes and spawns.
pub record Created (D C : Type 0) : Type 0 where
  pub sessions : Sessions D C
  pub result : Opened
  -- The driver of the evicted session, and the one that was spawned.
  pub closed : List D
  pub spawned : List D

module _ {D C : Type 0} where
  -- Active, and the driver's shell lives.
  abbrev pub is_healthy : (D → Bool) → Session D C → Bool
  is_healthy alive s = is_active s.info.status && alive s.driver

  abbrev pub of_user : Str → Session D C → Bool
  of_user user_id s = s.info.user_id == user_id

  unfoldable pub count_active : Str → Sessions D C → ℕ
  count_active user_id [] = 0
  count_active user_id ((id, s) ∷ m) =
      (if of_user user_id s && is_active s.info.status then 1 else 0) + count_active user_id m

  abbrev pub driver_list : Option (Session D C) → List D
  driver_list none = []
  driver_list (some s) = s.driver ∷ []

  -- extract_locked: the driver of the session, if it is there, and the sessions without it.
  unfoldable pub extract_locked : Str → Sessions D C → List D × Sessions D C
  extract_locked id m = (driver_list (find id m), erase id m)

  unfoldable pub extract_all : List Str → Sessions D C → List D × Sessions D C
  unfolding extract_locked
  extract_all [] m = ([], m)
  extract_all (id ∷ ids) m =
      let first = extract_locked id m in
      let rest = extract_all ids first.1 in (first.0 ++ rest.0, rest.1)

  abbrev pub new_session : Str → Str → Str → D → C → Str → ℕ → Session D C
  new_session id user_id name driver cfg driver_type now = record {
    info = record {
      session_id = id;
      user_id = user_id;
      session_name = name;
      driver_type = driver_type;
      status = SessionStatus.active;
      created_at_ms = now;
      last_used_ms = now;
      last_error_msg = [];
    };
    driver = driver;
    cfg = cfg;
  }

  -- The part of the write path behind the eviction: the limits, the spawn, the new entry.
  unfoldable pub admit_session :
      Limits → Outcome (D × Str) → C → ℕ → Str → Str → Str → List D → Sessions D C → Created D C
  unfolding count_active insert
  admit_session limits made cfg now id user_id name old m =
      if not (ltb_ℤ (to_int (length m)) limits.max_sessions_total)
      then record { sessions = m; result = refused too_many_sessions; closed = old; spawned = [] }
      else if not (ltb_ℤ (to_int (count_active user_id m)) limits.max_sessions_per_user)
      then record { sessions = m; result = refused too_many_of_user; closed = old; spawned = [] }
      else elim made [
        | thrown what ↦ record {
          sessions = m;
          result = refused (spawn_failed what);
          closed = old;
          spawned = [];
        }
        | returned made ↦ record {
          sessions = insert id (new_session id user_id name made.0 cfg made.1 now) m;
          result = created id;
          closed = old;
          spawned = made.0 ∷ [];
        }
      ]

  -- The write path, under the unique lock: look again, evict, admit.
  unfoldable pub recreate :
      Limits → (D → Bool) → Outcome (D × Str) → C → ℕ → Str → Str → Str → Sessions D C → Created D C
  unfolding find extract_locked admit_session
  recreate limits alive made cfg now id user_id name m = elim (find id m) [
    | none ↦ admit_session limits made cfg now id user_id name [] m
    | some s ↦
        if is_healthy alive s
        then record { sessions = m; result = existing id; closed = []; spawned = [] }
        else admit_session limits made cfg now id user_id name (s.driver ∷ []) (erase id m)
  ]

  -- The fast path, under the shared lock.
  unfoldable pub finds_healthy : (D → Bool) → Str → Sessions D C → Bool
  unfolding find
  finds_healthy alive id m = elim (find id m) [ none ↦ false | some s ↦ is_healthy alive s ]

  -- get_or_create. Between its two locks other calls may run: `seen` are the sessions under the
  -- shared lock and `alive_then` the drivers at that time, `m` and `alive` those under the unique
  -- one.
  unfoldable pub get_or_create :
      Limits
      → Outcome (D × Str)
      → C
      → ℕ
      → Str
      → Str
      → (D → Bool)
      → Sessions D C
      → (D → Bool)
      → Sessions D C
      → Created D C
  unfolding finds_healthy recreate
  get_or_create limits made cfg now user_id session_name alive_then seen alive m =
      let id = session_id_of user_id session_name in
      let name = normalize_session_name session_name in
      if is_empty user_id
      then record { sessions = m; result = refused empty_user; closed = []; spawned = [] }
      else if finds_healthy alive_then id seen
      then record { sessions = m; result = existing id; closed = []; spawned = [] }
      else recreate limits alive made cfg now id user_id name m
