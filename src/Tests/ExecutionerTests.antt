-- ===== src/Tests/ExecutionerTests.antt =====
-- The theorems on the executioner, on small inputs.
use velix.Prelude.{
  ℕ, pos, Str, none, some, true, false, List, [], ◌∷◌, codes, ◌≡◌, refl, arith, find, insert,
  nat_eq, str_eq, str_beq,
}
use velix.Executioner.Json.{Json, text, object, no_members, member}
use velix.Executioner.Sha256.{sha256}
use velix.Executioner.Sha256.Standard.{reference}
use velix.Executioner.Sha256.Closing.{sha256-reference}
use velix.Executioner.CacheKey.{
  compute_cache_key, sort, kept, place, in_velix, path_less, str_less, File,
}
use velix.Executioner.CacheKey.Collisions.{Settled, joined, compute_cache_key_collides}
use velix.Executioner.Coalescer.{new_coalescer, enter}
use velix.Executioner.Coalescer.Moves.{
  System, idle, leads, after_enter, enters, Reachable, start, later,
}
use velix.Executioner.Coalescer.Exclusion.{one_leader}
use velix.Executioner.Adapters.{Machine, PrepareStep}
use velix.Executioner.PrepareRunner.{Ran, threw}
use velix.Executioner.Leading.{Locks, missing, says_status, lead}
use velix.Executioner.Leading.Settling.{IsLed, lead-IsLed}
use velix.Executioner.Packages.{Disk}
use velix.Executioner.Packages.Cached.{IsCache}
use velix.Executioner.Requests.{
  Request, Directories, spawned, plan_request, launch, and_pass, passes,
}
use velix.Executioner.Requests.Plans.{Requested, plan_request-Requested}
use velix.Executioner.Serving.{Turn, serve_leader}
use velix.Executioner.Serving.Launched.{IsLaunch, serve_leader-IsLaunch}

sha256-reference_example : sha256 (codes "abc") ≡ reference (codes "abc")
sha256-reference_example = sha256-reference (codes "abc")

abbrev a_path : List Str
a_path = codes "a.py" ∷ []

abbrev b_path : List Str
b_path = codes "b.py" ∷ []

abbrev pkg_path : List Str
pkg_path = codes "tools" ∷ (codes "echo" ∷ [])

abbrev one_file : List File
one_file = (a_path, joined (codes "x") b_path (codes "y")) ∷ []

abbrev two_files : List File
two_files = (a_path, codes "x") ∷ ((b_path, codes "y") ∷ [])

one_file-Settled : Settled pkg_path one_file
unfolding sort kept place in_velix path_less str_less str_beq
one_file-Settled = refl

two_files-Settled : Settled pkg_path two_files
unfolding sort kept place in_velix path_less str_less str_beq
two_files-Settled = refl

compute_cache_key_collides_example :
    compute_cache_key (codes "{}") (codes "python") (codes "3.12") pkg_path one_file
    ≡ compute_cache_key (codes "{}") (codes "python") (codes "3.12") pkg_path two_files
compute_cache_key_collides_example =
    compute_cache_key_collides (codes "{}") (codes "python") (codes "3.12") pkg_path [] [] a_path
      b_path (codes "x") (codes "y") one_file-Settled two_files-Settled

abbrev one_thread : System
one_thread = after_enter 7 (codes "k") idle

one_thread_reached : Reachable one_thread
unfolding find
one_thread_reached = later start (enters 7 (codes "k") refl)

one_thread_leads : find 7 one_thread.threads ≡ some (leads false (codes "k") 0)
unfolding find insert enter
one_thread_leads = refl

one_leader_example : ◌≡◌ {A = ℕ} 7 7
one_leader_example =
    one_leader one_thread 7 7 false false (codes "k") 0 0 one_thread_reached one_thread_leads
      one_thread_leads

-- A machine with node, and one script.
abbrev machine : Machine
machine = record {
  which = λ program. true;
  file_exists_in = λ workdir file. true;
  exists_in = λ workdir file. false;
  output = λ program args. some (codes "v22", []);
  cargo_target = λ workdir. workdir;
}

abbrev manifest : Json
manifest = object (
    member (codes "name") (text (codes "echo")) (
      member (codes "runtime") (text (codes "node"))
        (member (codes "entry") (text (codes "main.js")) no_members)))

abbrev no_locks : Locks
no_locks = record { to_check = none; to_begin = none; to_end = none }

abbrev never_runs : ℕ → PrepareStep → Ran
never_runs i step = threw (codes "no such program")

lead-IsLed_example :
    IsLed
      (codes "k")
      0
      true
      never_runs
      []
      missing
      (lead (codes "k") 0 true no_locks never_runs [] missing new_coalescer)
lead-IsLed_example = lead-IsLed (codes "k") 0 true never_runs [] missing no_locks new_coalescer

abbrev request : Request
request = record {
  intent = codes "JOIN_PARENT_TREE";
  is_handler = false;
  force_refresh = false;
  source_pid = pos 3;
  name = codes "echo";
  params = object no_members;
}

abbrev disk : Disk
disk = record {
  manifest_in = λ path. some (some manifest);
  files_in = λ path. one_file;
  components = λ path. path ∷ [];
  dump = λ value. codes "{}";
}

abbrev dirs : Directories
dirs = record { normal = λ path relative. path; is_directory = λ path. true }

no_packages-IsCache : IsCache []
unfolding find
no_packages-IsCache name pkg h = ground (arith, h)

plan_request-Requested_example :
    Requested machine dirs
      (pos 300000)
      request
      (plan_request machine disk dirs (pos 300000) [] request)
plan_request-Requested_example =
    plan_request-Requested machine dirs (pos 300000) request disk [] no_packages-IsCache

abbrev turn : Turn
turn = record {
  key = codes "k";
  slot = 0;
  force_refresh = false;
  locks = no_locks;
  run = never_runs;
  steps = [];
  status = says_status (codes "ready");
}

launches : (serve_leader turn (spawned (pos 42) []) new_coalescer).0 ≡ passes (pos 42)
unfolding serve_leader lead and_pass launch str_beq
launches = refl

serve_leader-IsLaunch_example :
    IsLaunch turn (pos 42) (serve_leader turn (spawned (pos 42) []) new_coalescer).1
serve_leader-IsLaunch_example =
    serve_leader-IsLaunch turn (spawned (pos 42) []) new_coalescer (pos 42) launches
