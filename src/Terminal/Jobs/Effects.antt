-- ===== src/Terminal/Jobs/Effects.antt =====
-- core/persistant_applications/terminal_driver.hpp: what a call of the job store makes of the job
-- under an id, said by itself, and that the functions do it.
use velix.Prelude.{
  ℕ, ℤ, ◌+◌, ◌<◌, ◌≤◌, Str, Option, none, some, true, false, not, ◌++◌, List, [], ◌∷◌, ◌≡◌, ◌≢◌,
  ◌⊎◌, inl, inr, refl, arith, if◌then◌else◌, ◌==◌, ==_iff, Bool-cases, find, map_option,
  filter_option, find-modify, str_eq, if_cases, ltb, sub64,
}
use velix.Prelude.Words.{u64_mod, sub64_le, sub64_wraps}
use velix.Terminal.Jobs.{
  JobStatus, Job, JobStore, get, append_output, with_output, ended, expired, is_running,
}

pub data JobCall : Type 0 where
  upserts : Job → JobCall
  appends : Str → Str → JobCall
  finishes : Str → JobStatus → ℤ → ℕ → JobCall
  prunes : ℕ → ℕ → JobCall

-- The range of the clock's readings, which are stored in uint64_t.
abbrev pub InRange : List JobCall → Type 0
InRange [] = Unit {0}
InRange (upserts job ∷ cs) = (job.finished_at_ms < u64_mod) × InRange cs
InRange (appends job_id chunk ∷ cs) = InRange cs
InRange (finishes job_id status exit_code now ∷ cs) = (now < u64_mod) × InRange cs
InRange (prunes now max_age_ms ∷ cs) = (now < u64_mod) × InRange cs

-- The time d from a job's end to the clock's reading, on a clock of 64 bits that may be behind.
abbrev pub Passed : ℕ → ℕ → ℕ → Type 0
Passed finished now d = (d < u64_mod) × ((finished + d ≡ now) ⊎ (finished + d ≡ now + u64_mod))

-- The specification: what a call may make of the job on record under the id k.
pub data Effect (k : Str) : JobCall → Option Job → Option Job → Type 0 where
  stored : (job : Job) (o : Option Job) → job.job_id ≡ k → Effect k (upserts job) o (some job)
  stored_other : (job : Job) (o : Option Job) → job.job_id ≢ k → Effect k (upserts job) o o
  extended :
      (id chunk : Str) (j : Job)
      → id ≡ k
      → Effect k (appends id chunk) (some j) (some record j { output = j.output ++ chunk })
  extended_other : (id chunk : Str) (o : Option Job) → id ≢ k → Effect k (appends id chunk) o o
  extended_none : (id chunk : Str) → Effect k (appends id chunk) none none
  closed :
      (id : Str) (status : JobStatus) (exit_code : ℤ) (now : ℕ) (j : Job)
      → id ≡ k
      → Effect k
          (finishes id status exit_code now)
          (some j)
          (some record j { status = status; exit_code = exit_code; finished_at_ms = now })
  closed_other :
      (id : Str) (status : JobStatus) (exit_code : ℤ) (now : ℕ) (o : Option Job)
      → id ≢ k
      → Effect k (finishes id status exit_code now) o o
  closed_none :
      (id : Str) (status : JobStatus) (exit_code : ℤ) (now : ℕ)
      → Effect k (finishes id status exit_code now) none none
  dropped :
      (now max_age_ms d : ℕ) (j : Job)
      → j.status ≢ JobStatus.running
      → Passed j.finished_at_ms now d
      → max_age_ms < d
      → Effect k (prunes now max_age_ms) (some j) none
  young :
      (now max_age_ms d : ℕ) (j : Job)
      → Passed j.finished_at_ms now d
      → d ≤ max_age_ms
      → Effect k (prunes now max_age_ms) (some j) (some j)
  at_work :
      (now max_age_ms : ℕ) (j : Job)
      → j.status ≡ JobStatus.running
      → Effect k (prunes now max_age_ms) (some j) (some j)
  pruned_none : (now max_age_ms : ℕ) → Effect k (prunes now max_age_ms) none none

-- The effects of the calls in their order.
pub data Effects (k : Str) : List JobCall → Option Job → Option Job → Type 0 where
  ends : (o : Option Job) → Effects k [] o o
  then_calls :
      {o p q : Option Job} (c : JobCall) (cs : List JobCall)
      → Effect k c o p
      → Effects k cs p q
      → Effects k (c ∷ cs) o q

pub upsert-Effect :
    (job : Job) (k : Str) (o : Option Job)
    → Effect k (upserts job) o (if job.job_id == k then some job else o)
upsert-Effect job k o = elim (Bool-cases (job.job_id == k)) [
  | inl hit ↦ rw hit (stored job o ((==_iff job.job_id k).0 hit))
  | inr miss ↦ rw miss (stored_other job o (λ e. ground (arith, miss, e, ==_iff job.job_id k)))
]

pub append-Effect :
    (id chunk k : Str) (o : Option Job)
    → Effect k (appends id chunk) o (if id == k then map_option (with_output chunk) o else o)
append-Effect id chunk k none =
    if_cases (Effect k (appends id chunk) none) (id == k) none none (extended_none id chunk)
      (extended_none id chunk)
append-Effect id chunk k (some j) = elim (Bool-cases (id == k)) [
  | inl hit ↦ rw hit (extended id chunk j ((==_iff id k).0 hit))
  | inr miss ↦
      rw miss (extended_other id chunk (some j) (λ e. ground (arith, miss, e, ==_iff id k)))
]

pub finish-Effect :
    (id : Str) (s : JobStatus) (code : ℤ) (now : ℕ) (k : Str) (o : Option Job)
    → Effect k (finishes id s code now) o (if id == k then map_option (ended s code now) o else o)
finish-Effect id s code now k none =
    if_cases (Effect k (finishes id s code now) none) (id == k) none none
      (closed_none id s code now) (closed_none id s code now)
finish-Effect id s code now k (some j) = elim (Bool-cases (id == k)) [
  | inl hit ↦ rw hit (closed id s code now j ((==_iff id k).0 hit))
  | inr miss ↦
      rw miss (closed_other id s code now (some j) (λ e. ground (arith, miss, e, ==_iff id k)))
]

is_running-eq : (s : JobStatus) → is_running s ≡ true → s ≡ JobStatus.running
is_running-eq s h = ground arith

is_running-ne : (s : JobStatus) → is_running s ≡ false → s ≢ JobStatus.running
is_running-ne s h e = ground arith

lt_or_le : (a b : ℕ) → (a < b) ⊎ (b ≤ a)
lt_or_le a b = ground arith

sub64-Passed :
    (now finished : ℕ)
    → now < u64_mod
    → finished < u64_mod
    → Passed finished now (sub64 now finished)
sub64-Passed now finished h f = elim (lt_or_le now finished) [
  | inl late ↦
      let e = sub64_wraps now finished late f in
      (omega (arith, h, f, late, e), inr (omega (arith, h, f, late, e)))
  | inr early ↦
      let e = sub64_le now finished early h in
      (omega (arith, h, early, e), inl (omega (arith, early, e)))
]

prune-Effect :
    (now age : ℕ) (k : Str) (j : Job)
    → now < u64_mod
    → j.finished_at_ms < u64_mod
    → Effect k (prunes now age) (some j) (filter_option (λ job. not (expired now age job)) (some j))
prune-Effect now age k j h f =
    let d : ℕ = sub64 now j.finished_at_ms in
    let passed : Passed j.finished_at_ms now d = sub64-Passed now j.finished_at_ms h f in
    elim (Bool-cases (is_running j.status)) [
      | inl on ↦ rw on (at_work now age j (is_running-eq j.status on))
      | inr off ↦ elim (Bool-cases (ltb age d)) [
        | inl old ↦
            rw (off, old)
              (dropped now age d j (is_running-ne j.status off) passed (ground (arith, old)))
        | inr new ↦ rw (off, new) (young now age d j passed (ground (arith, new)))
      ]
    ]

append_nil {ℓ} : {A : Type ℓ} (xs : List A) → (xs ++ []) ≡ xs
append_nil [] = refl
append_nil (x ∷ xs) = rw (append_nil xs)

with_output-nil : (o : Option Job) → map_option (with_output []) o ≡ o
with_output-nil none = refl
with_output-nil (some job) = rw (append_nil job.output)

pub get-append_output :
    (id chunk k : Str) (jobs : JobStore)
    → get k (append_output id chunk jobs)
      ≡ (if id == k then map_option (with_output chunk) (get k jobs) else get k jobs)
unfolding append_output get
get-append_output id [] k jobs = ground (arith, with_output-nil (find k jobs))
get-append_output id (c ∷ cs) k jobs = find-modify id k (with_output (c ∷ cs)) jobs

-- A job's end is a clock's reading.
abbrev pub Ranged : Option Job → Type 0
Ranged none = Unit {0}
Ranged (some j) = j.finished_at_ms < u64_mod

pub prune_all-Effect :
    (now age : ℕ) (k : Str) (o : Option Job)
    → now < u64_mod
    → Ranged o
    → Effect k (prunes now age) o (filter_option (λ job. not (expired now age job)) o)
prune_all-Effect now age k none h f = pruned_none now age
prune_all-Effect now age k (some j) h f = prune-Effect now age k j h f

pub Effect-Ranged :
    {k : Str} {c : JobCall} {o p : Option Job}
    → Effect k c o p
    → InRange (c ∷ [])
    → Ranged o
    → Ranged p
Effect-Ranged (stored job o e) i f = i.0
Effect-Ranged (stored_other job o e) i f = f
Effect-Ranged (extended id chunk j e) i f = f
Effect-Ranged (extended_other id chunk o e) i f = f
Effect-Ranged (extended_none id chunk) i f = f
Effect-Ranged (closed id status exit_code now j e) i f = i.0
Effect-Ranged (closed_other id status exit_code now o e) i f = f
Effect-Ranged (closed_none id status exit_code now) i f = f
Effect-Ranged (dropped now max_age_ms d j off passed old) i f = tt
Effect-Ranged (young now max_age_ms d j passed new) i f = f
Effect-Ranged (at_work now max_age_ms j on) i f = f
Effect-Ranged (pruned_none now max_age_ms) i f = f
