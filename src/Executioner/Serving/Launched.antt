-- ===== src/Executioner/Serving/Launched.antt =====
-- execution/executioner.cpp: when a process is launched.
use mathlib.Core.Path.{subst}
use velix.Prelude.{
  ℤ, is_pos, Option, none, some, Bool, true, false, ◌≡◌, ◌⊎◌, inl, inr, refl, arith, Bool-cases,
  find, nat_eq, str_eq,
}
use velix.Executioner.Coalescer.{Coalescer, ready}
use velix.Executioner.PrepareRunner.{prepared, execute_prepare}
use velix.Executioner.Leading.{Led, Refusal, prepare_error, prepare_reply, lead, is_ready_status}
use velix.Executioner.Leading.Settling.{Prepared, lead-IsLed}
use velix.Executioner.Requests.{passes, and_pass, Spawned, spawn_throws, spawned, launch}
use velix.Executioner.Serving.{Turn, of_refusal, serve_leader}

launch-passes : (spawner : Spawned) (pid : ℤ) → launch spawner ≡ passes pid → is_pos pid ≡ true
unfolding launch
launch-passes (spawn_throws e) pid h = absurd (ground (arith, h))
launch-passes (spawned os_pid e) pid h = elim (Bool-cases (is_pos os_pid)) [
  | inl b ↦ let q : pid ≡ os_pid = ground (arith, b, h) in rw (q) b
  | inr b ↦ absurd (ground (arith, b, h))
]

refusal-passes :
    (r : Option Refusal) (spawner : Spawned) (pid : ℤ)
    → and_pass (of_refusal r) (λ (go : Bool). launch spawner) ≡ passes pid
    → (r ≡ none) × (launch spawner ≡ passes pid)
unfolding and_pass
refusal-passes none spawner pid h = (refl, h)
refusal-passes (some (prepare_error e)) spawner pid h = absurd (ground (arith, h))
refusal-passes (some (prepare_reply reply)) spawner pid h = absurd (ground (arith, h))

-- Why a leader launched a process: there is one, the threads that wait were told to go on, and the
-- steps succeeded or had before.
pub record IsLaunch (turn : Turn) (pid : ℤ) (after : Coalescer) : Type 0 where
  pub started : is_pos pid ≡ true
  pub followed : find turn.slot after.slots ≡ some ready
  pub earned :
      ((execute_prepare turn.run turn.steps).0 ≡ prepared)
      ⊎ ((turn.force_refresh ≡ false) × (is_ready_status turn.status ≡ true))

-- A leader launches a process only when its steps succeeded, or when the status file of the key said
-- that they had and no refresh was asked for; then the threads that wait go on too, and the process id
-- is positive.
pub serve_leader-IsLaunch :
    (turn : Turn) (spawner : Spawned) (c : Coalescer) (pid : ℤ)
    → (serve_leader turn spawner c).0 ≡ passes pid
    → IsLaunch turn pid (serve_leader turn spawner c).1
unfolding serve_leader
serve_leader-IsLaunch turn spawner c pid h =
    let led : Led =
      lead turn.key turn.slot turn.force_refresh turn.locks turn.run turn.steps turn.status c in
    let all =
      lead-IsLed turn.key turn.slot turn.force_refresh turn.run turn.steps turn.status turn.locks
        c in
    let went = refusal-passes led.refusal spawner pid h in
    record {
      started = launch-passes spawner pid went.1;
      followed = elim all.released.told [ inl t ↦ t.1 | inr (e, t) ↦ absurd (t.0 went.0) ];
      earned =
          subst (Prepared turn.force_refresh turn.run turn.steps turn.status) went.0
            all.prepared_first;
    }
