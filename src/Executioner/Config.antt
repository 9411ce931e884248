-- ===== src/Executioner/Config.antt =====
-- execution/executioner.cpp: load_config, load_context_tool_limits, and how often FileLockGuard tries.
-- A configuration file is none where it cannot be opened, and has no value where it does not parse.
pub mod Cover
use velix.Prelude.{
  ℕ, zero, suc, ◌+◌, ◌-◌, ◌/◌, max, ℤ, pos, negsuc, Str, Option, none, some, Bool, true, false,
  if◌then◌else◌, codes, List, [], ◌∷◌, is_pos, ltb_ℤ,
}
use velix.Executioner.Json.{Json, value_int, value_text}
use velix.Compacter.{add_ms}

pub record ExecutionerConfig : Type 0 where
  pub socket_timeout_ms : ℤ
  pub max_client_threads : ℤ
  pub max_queue_size : ℤ
  pub prepare_timeout_ms : ℤ
  pub cache_lock_wait_ms : ℤ
  pub run_timeout_ms : ℤ
  pub cache_root : Str

abbrev pub default_config : ExecutionerConfig
default_config = record {
  socket_timeout_ms = pos 5000;
  max_client_threads = pos 128;
  max_queue_size = pos 1024;
  prepare_timeout_ms = pos 300000;
  cache_lock_wait_ms = pos 310000;
  run_timeout_ms = pos 0;
  cache_root = codes ".velix/build_cache";
}

abbrev pub with_limits : ℤ → ℤ → ℤ → ExecutionerConfig → ExecutionerConfig
with_limits socket threads queue c = record {
  socket_timeout_ms = socket;
  max_client_threads = threads;
  max_queue_size = queue;
  prepare_timeout_ms = c.prepare_timeout_ms;
  cache_lock_wait_ms = c.cache_lock_wait_ms;
  run_timeout_ms = c.run_timeout_ms;
  cache_root = c.cache_root;
}

abbrev pub with_times : ℤ → ℤ → ℤ → Str → ExecutionerConfig → ExecutionerConfig
with_times prepare lock run root c = record {
  socket_timeout_ms = c.socket_timeout_ms;
  max_client_threads = c.max_client_threads;
  max_queue_size = c.max_queue_size;
  prepare_timeout_ms = prepare;
  cache_lock_wait_ms = lock;
  run_timeout_ms = run;
  cache_root = root;
}

-- The lock wait covers the prepare time.
unfoldable pub clamped : ExecutionerConfig → ExecutionerConfig
clamped c =
    if ltb_ℤ c.prepare_timeout_ms c.cache_lock_wait_ms
    then c
    else with_times c.prepare_timeout_ms (add_ms c.prepare_timeout_ms 10000) c.run_timeout_ms
        c.cache_root c

-- The reads of the times and of the root: at one that throws, what was read before stays.
unfoldable pub read_times : Json → ExecutionerConfig → ExecutionerConfig
unfolding value_int value_text clamped
read_times doc c = elim (value_int (codes "prepare_timeout_ms") doc c.prepare_timeout_ms) [
  | none ↦ c
  | some prepare ↦ elim (value_int (codes "cache_lock_wait_ms") doc c.cache_lock_wait_ms) [
    | none ↦ with_times prepare c.cache_lock_wait_ms c.run_timeout_ms c.cache_root c
    | some lock ↦ elim (value_int (codes "run_timeout_ms") doc c.run_timeout_ms) [
      | none ↦ with_times prepare lock c.run_timeout_ms c.cache_root c
      | some run ↦ elim (value_text (codes "cache_root") doc c.cache_root) [
        | none ↦ with_times prepare lock run c.cache_root c
        | some root ↦ clamped (with_times prepare lock run root c)
      ]
    ]
  ]
]

unfoldable pub read_config : Json → ExecutionerConfig → ExecutionerConfig
unfolding value_int read_times
read_config doc c = elim (value_int (codes "socket_timeout_ms") doc c.socket_timeout_ms) [
  | none ↦ c
  | some socket ↦ elim (value_int (codes "max_client_threads") doc c.max_client_threads) [
    | none ↦ with_limits socket c.max_client_threads c.max_queue_size c
    | some threads ↦ elim (value_int (codes "max_queue_size") doc c.max_queue_size) [
      | none ↦ with_limits socket threads c.max_queue_size c
      | some queue ↦ read_times doc (with_limits socket threads queue c)
    ]
  ]
]

-- The first file that opens is the only one that is read.
unfoldable pub load_config : List (Option (Option Json)) → ExecutionerConfig
unfolding read_config
load_config [] = default_config
load_config (none ∷ l) = load_config l
load_config (some none ∷ l) = default_config
load_config (some (some doc) ∷ l) = read_config doc default_config

pub record ContextToolLimits : Type 0 where
  pub max_tool_output_chars : ℤ
  pub max_file_read_bytes : ℤ

abbrev pub default_limits : ContextToolLimits
default_limits = record { max_tool_output_chars = pos 4000; max_file_read_bytes = pos 32768 }

unfoldable pub read_limits : Json → ContextToolLimits
unfolding value_int
read_limits doc = elim (value_int (codes "max_tool_output_chars") doc (pos 4000)) [
  | none ↦ default_limits
  | some chars ↦ elim (value_int (codes "max_file_read_bytes") doc (pos 32768)) [
    | none ↦ record { max_tool_output_chars = chars; max_file_read_bytes = pos 32768 }
    | some bytes ↦ record { max_tool_output_chars = chars; max_file_read_bytes = bytes }
  ]
]

unfoldable pub positive_limits : ContextToolLimits → ContextToolLimits
positive_limits l = record {
  max_tool_output_chars =
      if is_pos l.max_tool_output_chars then l.max_tool_output_chars else pos 4000;
  max_file_read_bytes = if is_pos l.max_file_read_bytes then l.max_file_read_bytes else pos 32768;
}

unfoldable pub load_context_tool_limits : List (Option (Option Json)) → ContextToolLimits
unfolding read_limits positive_limits
load_context_tool_limits [] = positive_limits default_limits
load_context_tool_limits (none ∷ l) = load_context_tool_limits l
load_context_tool_limits (some none ∷ l) = positive_limits default_limits
load_context_tool_limits (some (some doc) ∷ l) = positive_limits (read_limits doc)

-- The tries of FileLockGuard: a division of ints, toward zero, and one at least.
unfoldable pub lock_attempts : ℤ → ℕ → ℕ
lock_attempts (pos wait_ms) retry_ms = max 1 (wait_ms / max 1 retry_ms)
lock_attempts (negsuc n) retry_ms = 1

-- flock's answer to a try.
pub data LockTry : Type 0 where
  locked would_block broken : LockTry

pub data LockResult : Type 0 where
  acquired lock_failed lock_timeout : LockResult

unfoldable pub lock_loop : ℕ → (ℕ → LockTry) → LockResult
lock_loop zero tries = lock_timeout
lock_loop (suc n) tries =
    let rest : LockResult = lock_loop n (λ i. tries (suc i)) in
    elim (tries 0) [ locked ↦ acquired | broken ↦ lock_failed | would_block ↦ rest ]
