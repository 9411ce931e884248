-- ===== src/Watchdog/Heartbeat.antt =====
-- The heartbeat test of the watchdogs.
use velix.Prelude.{ℕ, ◌+◌, ◌-◌, ◌*◌, ◌<◌, ◌≤◌, pos, true, ◌≡◌, arith, ltb}
use velix.Prelude.Words.{sub64_le, sub64_wraps, mul64, to_u64, u64_mod}
use velix.Registry.Queries.{WatchdogEntry}
use velix.Watchdog.{Config, is_heartbeat_timeout}

pub timeout_ms : (sec : ℕ) → sec * 1000 < u64_mod → mul64 (to_u64 (pos sec)) 1000 ≡ sec * 1000
unfolding mul64 to_u64
timeout_ms sec h = omega arith

module _ {D : Type 0} where
  -- A process whose last heartbeat is not after the round's clock times out exactly when it has been silent for more
  -- than the timeout.
  pub heartbeat_timeout_exact :
      (cfg : Config D) (e : WatchdogEntry D) (now sec : ℕ)
      → cfg.heartbeat_timeout_sec ≡ pos sec
      → sec * 1000 < u64_mod
      → now < u64_mod
      → e.last_heartbeat_ms ≤ now
      → is_heartbeat_timeout cfg e now ≡ ltb (sec * 1000) (now - e.last_heartbeat_ms)
  unfolding is_heartbeat_timeout
  heartbeat_timeout_exact cfg e now sec h fits lt le =
      rw (h, timeout_ms sec fits, sub64_le now e.last_heartbeat_ms le lt)

  -- A heartbeat later than the clock's value by some d > 0 makes the unsigned difference wrap, and the process times out
  -- at once, for a timeout and a d that together stay below 2^64 milliseconds.
  heartbeat_ahead_times_out :
      (cfg : Config D) (e : WatchdogEntry D) (now sec d : ℕ)
      → cfg.heartbeat_timeout_sec ≡ pos sec
      → sec * 1000 + d < u64_mod
      → 0 < d
      → e.last_heartbeat_ms ≡ now + d
      → now + d < u64_mod
      → is_heartbeat_timeout cfg e now ≡ true
  unfolding is_heartbeat_timeout
  heartbeat_ahead_times_out cfg e now sec d h fits late at lt =
      rw (h, at, timeout_ms sec (omega arith), sub64_wraps now (now + d) (omega arith) lt)
        (ground arith)
