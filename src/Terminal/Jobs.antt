-- ===== src/Terminal/Jobs.antt =====
-- core/persistant_applications/terminal_driver.hpp: Job and JobStore. A command, an identifier and
-- an output are byte strings; `now` is the clock that a call reads.
pub mod Effects
pub mod Replay
use velix.Prelude.{
  ℕ, ℤ, negsuc, Str, Map, Option, none, some, Bool, true, false, not, ◌&&◌, ◌++◌, [], ◌≡◌, refl,
  if◌then◌else◌, is_empty, find, insert, modify, keep, sub64, ltb, str_eq,
}

pub data JobStatus : Type 0 where
  running finished error timeout : JobStatus

pub record Job : Type 0 where
  pub job_id : Str
  pub session_id : Str
  pub cmd : Str
  pub status : JobStatus
  pub exit_code : ℤ
  pub output : Str
  pub submitted_at_ms : ℕ
  pub finished_at_ms : ℕ

abbrev pub JobStore : Type 0
JobStore = Map Str Job

abbrev pub is_running : JobStatus → Bool
is_running JobStatus.running = true
is_running _ = false

-- jobs_[job.job_id] = make_shared<Job>(job)
unfoldable pub upsert : Job → JobStore → JobStore
upsert job jobs = insert job.job_id job jobs

unfoldable pub get : Str → JobStore → Option Job
get job_id jobs = find job_id jobs

abbrev pub with_output : Str → Job → Job
with_output chunk job = record job { output = job.output ++ chunk }

unfoldable pub append_output : Str → Str → JobStore → JobStore
append_output job_id chunk jobs =
    if is_empty chunk then jobs else modify job_id (with_output chunk) jobs

abbrev pub ended : JobStatus → ℤ → ℕ → Job → Job
ended status exit_code now job = record job {
  status = status;
  exit_code = exit_code;
  finished_at_ms = now;
}

unfoldable pub finish : Str → JobStatus → ℤ → ℕ → JobStore → JobStore
finish job_id status exit_code now jobs = modify job_id (ended status exit_code now) jobs

-- A record that prune drops: over, and more than max_age_ms old on uint64_t.
abbrev pub expired : ℕ → ℕ → Job → Bool
expired now max_age_ms job =
    not (is_running job.status) && ltb max_age_ms (sub64 now job.finished_at_ms)

unfoldable pub prune : ℕ → ℕ → JobStore → JobStore
prune now max_age_ms jobs = keep (λ job. not (expired now max_age_ms job)) jobs
