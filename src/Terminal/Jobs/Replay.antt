-- ===== src/Terminal/Jobs/Replay.antt =====
-- core/persistant_applications/terminal_driver.hpp: the job store against its specification, what each
-- call may make of the job under an id.
use velix.Prelude.{
  Str, none, not, List, [], ◌∷◌, Unique, find, modify, find-insert, find-modify, find-keep,
  insert-Unique, modify-Unique, keep-Unique, str_eq, is_empty, if_cases,
}
use velix.Terminal.Jobs.{
  JobStore, upsert, get, append_output, finish, prune, with_output, ended, expired,
}
use velix.Terminal.Jobs.Effects.{
  JobCall, upserts, appends, finishes, prunes, InRange, Ranged, Effect, Effects, ends, then_calls,
  upsert-Effect, finish-Effect, append-Effect, get-append_output, prune_all-Effect, Effect-Ranged,
}

unfoldable pub call : JobStore → JobCall → JobStore
call jobs (upserts job) = upsert job jobs
call jobs (appends job_id chunk) = append_output job_id chunk jobs
call jobs (finishes job_id status exit_code now) = finish job_id status exit_code now jobs
call jobs (prunes now max_age_ms) = prune now max_age_ms jobs

unfoldable pub calls : JobStore → List JobCall → JobStore
calls jobs [] = jobs
calls jobs (c ∷ cs) = calls (call jobs c) cs

get-call :
    (c : JobCall) (k : Str) (jobs : JobStore)
    → Unique jobs
    → InRange (c ∷ [])
    → Ranged (get k jobs)
    → Effect k c (get k jobs) (get k (call jobs c))
unfolding call upsert finish prune get
get-call (upserts job) k jobs u i f =
    rw (find-insert job.job_id k job jobs) (upsert-Effect job k (find k jobs))
get-call (appends id chunk) k jobs u i f =
    rw (get-append_output id chunk k jobs) (append-Effect id chunk k (find k jobs))
get-call (finishes id s code now) k jobs u i f =
    rw (find-modify id k (ended s code now) jobs) (finish-Effect id s code now k (find k jobs))
get-call (prunes now age) k jobs u i f =
    rw (find-keep (λ job. not (expired now age job)) k jobs u)
      (prune_all-Effect now age k (find k jobs) i.0 f)

call-Unique : (c : JobCall) (jobs : JobStore) → Unique jobs → Unique (call jobs c)
unfolding call upsert append_output finish prune
call-Unique (upserts job) jobs u = insert-Unique job.job_id job jobs u
call-Unique (appends id chunk) jobs u =
    if_cases (Unique) (is_empty chunk) jobs (modify id (with_output chunk) jobs) u
      (modify-Unique id (with_output chunk) jobs u)
call-Unique (finishes id s code now) jobs u = modify-Unique id (ended s code now) jobs u
call-Unique (prunes now age) jobs u = keep-Unique (λ job. not (expired now age job)) jobs u

InRange-first : (c : JobCall) (cs : List JobCall) → InRange (c ∷ cs) → InRange (c ∷ []) × InRange cs
InRange-first (upserts job) cs i = ((i.0, tt), i.1)
InRange-first (appends id chunk) cs i = (tt, i)
InRange-first (finishes id s code now) cs i = ((i.0, tt), i.1)
InRange-first (prunes now age) cs i = ((i.0, tt), i.1)

calls-Effects :
    (cs : List JobCall) (jobs : JobStore) (k : Str)
    → Unique jobs
    → InRange cs
    → Ranged (get k jobs)
    → Effects k cs (get k jobs) (get k (calls jobs cs))
unfolding calls
calls-Effects [] jobs k u i f = ends (get k jobs)
calls-Effects (c ∷ cs) jobs k u i f =
    let r = InRange-first c cs i in
    let first : Effect k c (get k jobs) (get k (call jobs c)) = get-call c k jobs u r.0 f in
    then_calls c cs first
      (calls-Effects cs (call jobs c) k (call-Unique c jobs u) r.1 (Effect-Ranged first r.0 f))

-- After any sequence of calls on an empty store, whose clock readings fit 64 bits, the lookup of any
-- id finds what the calls make, one after the other, of an id that is not on record: a job stored
-- under the id replaces what was there, a chunk is appended to its output, a finish sets its status,
-- its exit code and its end, and a prune drops it exactly when it is not running and its end lies
-- longer back than the retention on a clock of 64 bits; a call for another id changes nothing.
pub calls_refine-Effects :
    (cs : List JobCall) (k : Str) → InRange cs → Effects k cs none (get k (calls [] cs))
unfolding get find
calls_refine-Effects cs k i = calls-Effects cs [] k tt i tt
