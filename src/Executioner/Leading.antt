-- ===== src/Executioner/Leading.antt =====
-- execution/executioner.cpp: handle_exec_request, the prepare of a cache key by its leader. The status
-- file is its parsed value; a lock is an argument, the text of the exception where it is not had.
pub mod Settling
use velix.Prelude.{
  ℕ, ◌+◌, ℤ, pos, negsuc, Str, Option, none, some, Bool, true, false, if◌then◌else◌, codes, List,
  ◌∷◌, ◌++◌, ◌==◌, str_eq, to_string,
}
use velix.Executioner.Adapters.{PrepareStep}
use velix.Executioner.PrepareRunner.{
  reply_error, Ran, PrepareReply, prepared, step_exception, step_failed, ProcessResult,
  execute_prepare,
}
use velix.Executioner.Coalescer.{Coalescer, finish, fail}

pub data Status : Type 0 where
  missing corrupt : Status
  says_status : Str → Status

-- The three times that the lock of the status file is taken.
pub record Locks : Type 0 where
  pub to_check : Option Str
  pub to_begin : Option Str
  pub to_end : Option Str

-- Why the leader answers its caller at once.
pub data Refusal : Type 0 where
  prepare_error : Str → Refusal
  prepare_reply : PrepareReply → Refusal

-- The status file, the coalescer and the refusal, none where the launch goes on.
pub record Led : Type 0 where
  pub status : Status
  pub coalescer : Coalescer
  pub refusal : Option Refusal

abbrev pub is_ready_status : Status → Bool
is_ready_status (says_status s) = s == codes "ready"
is_ready_status s = false

unfoldable pub int_text : ℤ → Str
int_text (pos n) = to_string n
int_text (negsuc n) = 45 ∷ to_string (n + 1)

-- fail_reason after a failed prepare.
unfoldable pub fail_reason : PrepareReply → Str
unfolding int_text
fail_reason prepared = reply_error prepared
fail_reason (step_exception i command what) =
    reply_error (step_exception i command what) ++ (codes " command=" ++ command)
fail_reason (step_failed i command res) =
    reply_error (step_failed i command res)
    ++ (codes " command="
        ++ (command
            ++ (codes " exit_code="
                ++ (int_text res.exit_code
                    ++ (if res.timed_out then codes " timed_out=true" else codes "")))))

abbrev pub refuse : Str → ℕ → Status → Str → Coalescer → Led
refuse key slot status reason c = record {
  status = status;
  coalescer = fail key slot reason c;
  refusal = some (prepare_error reason);
}

-- What the status file says after a write under the lock.
abbrev pub written : Option Str → Str → Status
written none s = says_status s
written (some e) s = says_status (codes "preparing")

-- The answer to the result of the steps.
unfoldable pub conclude : Str → ℕ → Option Str → PrepareReply → Coalescer → Led
unfolding finish fail fail_reason
conclude key slot lock prepared c = record {
  status = written lock (codes "ready");
  coalescer = finish key slot c;
  refusal = none;
}
conclude key slot lock (step_exception i command what) c = record {
  status = written lock (codes "failed");
  coalescer = fail key slot (fail_reason (step_exception i command what)) c;
  refusal = some (prepare_reply (step_exception i command what));
}
conclude key slot lock (step_failed i command res) c = record {
  status = written lock (codes "failed");
  coalescer = fail key slot (fail_reason (step_failed i command res)) c;
  refusal = some (prepare_reply (step_failed i command res));
}

unfoldable pub prepare_cache :
    Str → ℕ → Locks → (ℕ → PrepareStep → Ran) → List PrepareStep → Coalescer → Led
unfolding conclude execute_prepare fail
prepare_cache key slot locks run steps c = elim locks.to_begin [
  | some e ↦ refuse key slot missing (codes "status_write_failed: " ++ e) c
  | none ↦ conclude key slot locks.to_end (execute_prepare run steps).0 c
]

-- A stale or a corrupt status file is removed, and a forced refresh removes the whole directory.
unfoldable pub lead :
    Str → ℕ → Bool → Locks → (ℕ → PrepareStep → Ran) → List PrepareStep → Status → Coalescer → Led
unfolding prepare_cache finish fail
lead key slot force_refresh locks run steps status c =
    if force_refresh then prepare_cache key slot locks run steps c else elim locks.to_check [
      | some e ↦ refuse key slot status (codes "status_lock_failed: " ++ e) c
      | none ↦
          if is_ready_status status
          then record { status = status; coalescer = finish key slot c; refusal = none }
          else prepare_cache key slot locks run steps c
    ]
