-- ===== src/Supervisor/Status.antt =====
-- core/supervisor.cpp: the names of statuses.
use velix.Prelude.{
  str_eq, Str, Bool, ◌||◌, ◌≡◌, refl, codes, ◌==◌, str_beq, arith, if◌then◌else◌, true, ==_iff,
}
use velix.Registry.State.{ProcessStatus, TreeStatus}

unfoldable pub to_string : ProcessStatus → Str
to_string ProcessStatus.starting = codes "STARTING"
to_string ProcessStatus.running = codes "RUNNING"
to_string ProcessStatus.waiting_llm = codes "WAITING_LLM"
to_string ProcessStatus.waiting_exec = codes "WAITING_EXEC"
to_string ProcessStatus.finished = codes "FINISHED"
to_string ProcessStatus.error = codes "ERROR"
to_string ProcessStatus.killed = codes "KILLED"

unfoldable pub tree_to_string : TreeStatus → Str
tree_to_string TreeStatus.active = codes "ACTIVE"
tree_to_string TreeStatus.completed = codes "COMPLETED"
tree_to_string TreeStatus.failed = codes "FAILED"
tree_to_string TreeStatus.killed = codes "KILLED"

unfoldable pub parse_process_status : Str → ProcessStatus
parse_process_status s =
    if s == codes "STARTING"
    then ProcessStatus.starting
    else if s == codes "RUNNING"
    then ProcessStatus.running
    else if s == codes "WAITING_LLM"
    then ProcessStatus.waiting_llm
    else if s == codes "WAITING_EXEC"
    then ProcessStatus.waiting_exec
    else if s == codes "FINISHED"
    then ProcessStatus.finished
    else if s == codes "KILLED"
    then ProcessStatus.killed
    else ProcessStatus.error

unfoldable pub is_valid_process_status_text : Str → Bool
is_valid_process_status_text s =
    s == codes "STARTING"
    || s == codes "RUNNING"
    || s == codes "WAITING_LLM"
    || s == codes "WAITING_EXEC"
    || s == codes "FINISHED"
    || s == codes "ERROR"
    || s == codes "KILLED"

read_name :
    (t : Str) → is_valid_process_status_text t ≡ true → to_string (parse_process_status t) ≡ t
unfolding to_string parse_process_status is_valid_process_status_text
read_name t = ground (
  arith,
  ==_iff t (codes "STARTING"),
  ==_iff t (codes "RUNNING"),
  ==_iff t (codes "WAITING_LLM"),
  ==_iff t (codes "WAITING_EXEC"),
  ==_iff t (codes "FINISHED"),
  ==_iff t (codes "ERROR"),
  ==_iff t (codes "KILLED"),
)

-- The texts that are accepted are exactly the names of the statuses: each status is read back from its name, its
-- name is accepted, and an accepted text is the name of the status that it is read as.
pub status_text_roundtrip :
    (s : ProcessStatus) (t : Str)
    → (parse_process_status (to_string s) ≡ s)
      × (is_valid_process_status_text (to_string s) ≡ true)
      × (is_valid_process_status_text t ≡ true → to_string (parse_process_status t) ≡ t)
unfolding to_string parse_process_status is_valid_process_status_text str_beq
status_text_roundtrip s t = (parse s, accepted s, read_name t)
  where
    parse : (s : ProcessStatus) → parse_process_status (to_string s) ≡ s
    parse ProcessStatus.starting = refl
    parse _ = refl

    accepted : (s : ProcessStatus) → is_valid_process_status_text (to_string s) ≡ true
    accepted ProcessStatus.starting = refl
    accepted _ = refl
