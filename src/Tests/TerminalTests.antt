-- ===== src/Tests/TerminalTests.antt =====
-- The terminal registry's theorems at a registry with a session of one user.
use velix.Prelude.{
  ℕ, ◌+◌, pos, Str, some, none, true, false, List, [], ◌∷◌, ◌≡◌, refl, arith, ltb, codes, find,
  insert, erase, str_eq, str_beq, nat_eq,
}
use velix.Terminal.Jobs.{Job, JobStatus, get}
use velix.Terminal.Jobs.Effects.{JobCall, upserts, appends, finishes, prunes, Effects}
use velix.Terminal.Jobs.Replay.{calls, calls_refine-Effects}
use velix.Terminal.Sessions.{
  Session, Sessions, Limits, Outcome, returned, new_session, session_id_of, make_session_key,
  normalize_session_name, get_or_create, existing, count_active,
}
use velix.Terminal.Sessions.Invariant.{Within, insert-Within}
use velix.Terminal.Sessions.Keys.{get_or_create_shares}
use velix.Terminal.Operations.{Event, opens, evicts, run}
use velix.Terminal.Operations.Bounds.{Sized, init-Within, run_bounded}
use velix.Terminal.Operations.Drivers.{in_table, tally, drivers_conserved}
use velix.Terminal.Operations.Opening.{Opens, get_or_create_answers}

abbrev job : Job
job = record {
  job_id = codes "j1";
  session_id = codes "ann:default";
  cmd = codes "ls";
  status = JobStatus.running;
  exit_code = pos 0;
  output = [];
  submitted_at_ms = 100;
  finished_at_ms = 0;
}

abbrev job_calls : List JobCall
job_calls =
    upserts job
    ∷ appends (codes "j1") (codes "x")
    ∷ finishes (codes "j1") JobStatus.finished (pos 0) 150
    ∷ prunes 200 60
    ∷ []

calls_refine-Effects_example :
    Effects (codes "j1") job_calls none (get (codes "j1") (calls [] job_calls))
calls_refine-Effects_example = calls_refine-Effects job_calls (codes "j1") (omega arith)

abbrev limits : Limits
limits = record {
  max_sessions_total = pos 3;
  max_sessions_per_user = pos 2;
  idle_timeout_ms = 900000;
  job_retention_ms = 3600000;
}

limits-Sized : Sized 3 2 limits
limits-Sized = record { total = refl; per_user = refl; int = omega arith }

abbrev made : Outcome (ℕ × Str)
made = returned (7, codes "local_pty")

-- Ann opens a session, opens it again when its shell is dead, and is evicted.
abbrev events : List (Event ℕ ℕ)
events =
    opens made 0 100 (codes "ann") [] (λ _. true) [] (λ _. true)
    ∷ opens made 0 200 (codes "ann") [] (λ _. false) [] (λ _. false)
    ∷ evicts 2000000
    ∷ []

run_bounded_example : Within 3 2 (run limits [] events).sessions
run_bounded_example = run_bounded 3 2 limits events limits-Sized

drivers_conserved_example :
    in_table (ltb 6) (run limits [] events).sessions + tally (ltb 6) (run limits [] events).closed
    ≡ tally (ltb 6) (run limits [] events).spawned
drivers_conserved_example = drivers_conserved (ltb 6) 3 2 limits events limits-Sized

-- The session of user "a" under the name "b:c".
abbrev key : Str
key = codes "a:b:c"

abbrev session : Session ℕ ℕ
session = new_session key (codes "a") (codes "b:c") 7 0 (codes "local_pty") 1000

abbrev table : Sessions ℕ ℕ
table = (key, session) ∷ []

table-Within : Within 3 2 table
unfolding insert erase make_session_key normalize_session_name count_active
table-Within =
    insert-Within 3 2 key session [] (record { id = refl; key = refl; user = refl; name = refl })
      (omega arith) (omega arith) (init-Within 3 2)

session_there : find key table ≡ some session
unfolding find str_beq
session_there = refl

key_there : find (session_id_of (codes "a") (codes "b:c")) table ≡ some session
unfolding find str_beq make_session_key normalize_session_name
key_there = refl

get_or_create_answers_example :
    Opens
      (ltb 6)
      made
      0
      2000
      (codes "a")
      (codes "d")
      table
      (get_or_create limits made 0 2000 (codes "a") (codes "d") (ltb 6) table (ltb 6) table)
get_or_create_answers_example =
    get_or_create_answers limits (ltb 6) made 0 2000 (codes "a") (codes "d") table

get_or_create_shares_example :
    (get_or_create limits made 0 2000 (codes "a:b") (codes "c") (ltb 6) table (ltb 6) table).result
    ≡ existing (session_id_of (codes "a") (codes "b:c"))
get_or_create_shares_example =
    get_or_create_shares limits made 0 2000 (codes "a") (codes "b") (codes "c") (ltb 6) table
      session refl key_there refl
