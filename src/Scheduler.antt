-- ===== src/Scheduler.antt =====
-- llm/scheduler.cpp: the queues of pending requests, one for each key, and the heap of the keys that are ready. All of
-- it runs under queue_mutex. `now` is the steady clock in milliseconds. Among candidates of equal score the heap
-- here gives the one that was pushed last; the C++ library does not say which it gives, and no theorem uses it. The
-- payload, the callback and the promise of a request are not read here and are left out.
pub mod Waiting
pub mod Workers
pub mod Flights
pub mod Taking
pub mod Exclusion
pub mod Current
use velix.Prelude.{
  str_eq, nat_eq, ℕ, zero, suc, ◌-◌, ◌==◌, ◌&&◌, ◌++◌, not, ℤ, pos, Str, Map, Option, none, some,
  Bool, true, false, List, [], ◌∷◌, find, insert, erase, length, is_empty, if◌then◌else◌,
}
use velix.Prelude.Words.{add64}
use velix.Double.{Double}

pub record PendingRequest : Type 0 where
  pub request_id : Str
  pub trace_id : Str
  pub tree_id : Str
  pub queue_key : Str
  pub source_pid : ℤ
  pub base_priority : ℤ
  pub enqueued_at : ℕ

pub record TreeQueue : Type 0 where
  pub requests : List PendingRequest
  pub has_active_key : Bool
  pub version : ℕ

pub record TreeCandidate (D : Type 0) : Type 0 where
  pub queue_key : Str
  pub score : D
  pub version : ℕ

pub record Scheduler (D : Type 0) : Type 0 where
  pub tree_queues : Map Str TreeQueue
  pub ready_tree_queue : List (TreeCandidate D)

-- What tree_queues[key] finds or makes.
abbrev pub queue_or_new : Option TreeQueue → TreeQueue
queue_or_new (some q) = q
queue_or_new none = record { requests = []; has_active_key = false; version = 0 }

-- A candidate against its queue: the front request and what is left, if the queue is still at that version, idle and
-- not empty.
unfoldable pub take_front : List PendingRequest → TreeQueue → Option (PendingRequest × TreeQueue)
take_front [] q = none
take_front (req ∷ reqs) q =
    some (req, record { requests = reqs; has_active_key = true; version = add64 q.version 1 })

module _ {D : Type 0} where
  unfoldable pub accept : TreeCandidate D → Map Str TreeQueue → Option (PendingRequest × TreeQueue)
  unfolding take_front
  accept c m = elim (find c.queue_key m) [
    | none ↦ none
    | some q ↦
        if q.version == c.version && not q.has_active_key then take_front q.requests q else none
  ]

  unfoldable pub effective_tree_priority : Double D → ℕ → PendingRequest → D
  effective_tree_priority d now req =
      d.add (d.of_int req.base_priority)
        (d.div (d.of_int (pos (now - req.enqueued_at))) (d.of_int (pos 5000)))

  unfoldable pub push_candidate :
      Double D → ℕ → Str → TreeQueue → List PendingRequest → Scheduler D → Scheduler D
  unfolding effective_tree_priority
  push_candidate d now key q [] s = s
  push_candidate d now key q (req ∷ reqs) s = if q.has_active_key then s else record s {
    ready_tree_queue =
        (record { queue_key = key; score = effective_tree_priority d now req; version = q.version })
        ∷ s.ready_tree_queue;
  }

  unfoldable pub enqueue_tree_candidate_if_eligible : Double D → ℕ → Str → Scheduler D → Scheduler D
  unfolding push_candidate
  enqueue_tree_candidate_if_eligible d now key s = elim (find key s.tree_queues) [
    | none ↦ s
    | some q ↦ push_candidate d now key q q.requests s
  ]

  -- top() and pop() of the heap: a candidate that no other's score exceeds.
  unfoldable pub pop_top :
      Double D → List (TreeCandidate D) → Option (TreeCandidate D × List (TreeCandidate D))
  pop_top d [] = none
  pop_top d (c ∷ cs) = elim (pop_top d cs) [
    | none ↦ some (c, cs)
    | some (t, rest) ↦ if d.lt c.score t.score then some (t, c ∷ rest) else some (c, cs)
  ]

  -- The loop of pick_next_request, which pops one candidate in each turn; the fuel is the number of candidates.
  unfoldable pub pick_loop :
      Double D
      → ℕ
      → Map Str TreeQueue
      → List (TreeCandidate D)
      → Scheduler D × Option PendingRequest
  unfolding accept pop_top
  pick_loop d zero m ready = (record { tree_queues = m; ready_tree_queue = ready }, none)
  pick_loop d (suc n) m ready = elim (pop_top d ready) [
    | none ↦ (record { tree_queues = m; ready_tree_queue = ready }, none)
    | some (c, rest) ↦ elim (accept c m) [
      | none ↦ pick_loop d n m rest
      | some (req, q) ↦
          (record { tree_queues = insert c.queue_key q m; ready_tree_queue = rest }, some req)
    ]
  ]

  unfoldable pub pick_next_request : Double D → Scheduler D → Scheduler D × Option PendingRequest
  unfolding pick_loop
  pick_next_request d s = pick_loop d (length s.ready_tree_queue) s.tree_queues s.ready_tree_queue

  unfoldable pub release_tree_key : Double D → ℕ → Str → Scheduler D → Scheduler D
  unfolding enqueue_tree_candidate_if_eligible
  release_tree_key d now key s = elim (find key s.tree_queues) [
    | none ↦ s
    | some q ↦
        if is_empty q.requests
        then record s { tree_queues = erase key s.tree_queues }
        else enqueue_tree_candidate_if_eligible d now key (record s {
          tree_queues =
              insert key (record q { has_active_key = false; version = add64 q.version 1 })
                s.tree_queues;
        })
  ]

  -- The block of handle_client that queues a request.
  unfoldable pub submit : Double D → ℕ → PendingRequest → Scheduler D → Scheduler D
  unfolding enqueue_tree_candidate_if_eligible
  submit d now req s =
      let q = queue_or_new (find req.queue_key s.tree_queues) in
      enqueue_tree_candidate_if_eligible d now req.queue_key (record s {
        tree_queues =
            insert req.queue_key
              (record q { requests = q.requests ++ (req ∷ []); version = add64 q.version 1 })
              s.tree_queues;
      })
