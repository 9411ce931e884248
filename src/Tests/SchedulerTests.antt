-- ===== src/Tests/SchedulerTests.antt =====
-- The scheduler's theorems: one worker with two requests of a key.
use velix.Prelude.{
  true, List, ℕ, ◌≤◌, pos, [], ◌∷◌, none, some, codes, str_eq, str_beq, ◌≡◌, refl, find, insert,
  erase,
}
use velix.Prelude.Words.{add64}
use velix.Scheduler.{
  PendingRequest, TreeQueue, Scheduler, accept, take_front, effective_tree_priority,
  enqueue_tree_candidate_if_eligible, push_candidate, pick_loop, pop_top, pick_next_request, submit,
}
use velix.Scheduler.Workers.{System, count, Reaches, here, onward, submits, picks, start}
use velix.Scheduler.Exclusion.{one_worker_per_key, idle_means_held}
use velix.Scheduler.Current.{
  Call, marks, clears, after, is_last, mark_request_active, clear_request_if_current, has_request,
  is_request_current, is_request_current_lem,
}
use velix.Tests.Samples.{natural}

abbrev request : ℕ → PendingRequest
request n = record {
  request_id = n ∷ [];
  trace_id = [];
  tree_id = codes "TREE_1";
  queue_key = codes "TREE_1";
  source_pid = pos 1000;
  base_priority = pos 1;
  enqueued_at = n;
}

abbrev queued : Scheduler ℕ
queued = submit natural 20 (request 2) (submit natural 10 (request 1) start.scheduler)

-- A worker holds the first request.
abbrev working : System ℕ
working = record { scheduler = (pick_next_request natural queued).0; in_flight = request 1 ∷ [] }

first : (pick_next_request natural queued).1 ≡ some (request 1)
unfolding pick_next_request pick_loop pop_top accept take_front submit
    enqueue_tree_candidate_if_eligible push_candidate effective_tree_priority find insert erase
    str_beq add64
first = refl

nothing : (pick_next_request natural working.scheduler).1 ≡ none
unfolding pick_next_request pick_loop pop_top accept take_front submit
    enqueue_tree_candidate_if_eligible push_candidate effective_tree_priority find insert erase
    str_beq add64
nothing = refl

abbrev left : TreeQueue
left = record { requests = request 2 ∷ []; has_active_key = true; version = 3 }

left_there : find (codes "TREE_1") working.scheduler.tree_queues ≡ some left
unfolding pick_next_request pick_loop pop_top accept take_front submit
    enqueue_tree_candidate_if_eligible push_candidate effective_tree_priority find insert erase
    str_beq add64
left_there = refl

reached : Reaches natural start working
reached =
    onward (onward (onward here (submits 10 (request 1))) (submits 20 (request 2)))
      (picks (request 1) first)

one_worker_per_key_example : count (codes "TREE_1") working.in_flight ≤ 1
one_worker_per_key_example = one_worker_per_key natural working (codes "TREE_1") reached

idle_means_held_example : count (codes "TREE_1") working.in_flight ≡ 1
idle_means_held_example =
    idle_means_held natural working (codes "TREE_1") left reached nothing left_there

-- The second request of a trace, after whose mark the first one ends.
abbrev two_marks : List Call
two_marks =
    clears (codes "t") (codes "r1")
    ∷ (marks (codes "t") (codes "r2") ∷ (marks (codes "t") (codes "r1") ∷ []))

second_current : is_request_current (codes "t") (codes "r2") (after two_marks) ≡ true
unfolding is_request_current after mark_request_active clear_request_if_current has_request find
    insert erase str_beq
second_current = refl

is_request_current_lem_example :
    is_request_current (codes "t") (codes "r2") (after two_marks)
    ≡ is_last (codes "t") (codes "r2") two_marks
is_request_current_lem_example = is_request_current_lem (codes "t") (codes "r2") two_marks refl refl
