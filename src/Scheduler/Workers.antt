-- ===== src/Scheduler/Workers.antt =====
-- The scheduler with its workers: the requests that workers hold, and the steps of the whole.
use velix.Prelude.{
  str_eq, nat_eq, ℕ, ◌+◌, ◌==◌, ◌&&◌, Str, Map, none, some, Bool, true, false, List, [], ◌∷◌, ◌≡◌,
  refl, arith, find, insert, erase, find-insert, find-erase, is_empty, ==_refl, Option-cases,
  Bool-cases, inl, inr, if◌then◌else◌, ◌++◌,
}
use velix.Prelude.Words.{add64}
use velix.Double.{Double}
use velix.Scheduler.{
  PendingRequest, TreeQueue, TreeCandidate, Scheduler, queue_or_new,
  enqueue_tree_candidate_if_eligible, pick_next_request, release_tree_key, submit,
}
use velix.Scheduler.Waiting.{Served, push-Served}

find-written : (k : Str) (q : TreeQueue) (m : Map Str TreeQueue) → find k (insert k q m) ≡ some q
find-written k q m = ground (arith, find-insert k k q m, ==_refl k)

is_empty-snoc :
    (reqs : List PendingRequest) (req : PendingRequest) → is_empty (reqs ++ (req ∷ [])) ≡ false
is_empty-snoc [] req = refl
is_empty-snoc (x ∷ reqs) req = refl

module _ {D : Type 0} where
  -- A queue that was just written and has a request is covered once its candidate is in the heap.
  enqueue-Served :
      (d : Double D) (now : ℕ) (key : Str) (q : TreeQueue) (s : Scheduler D)
      → Served s.tree_queues s.ready_tree_queue
      → is_empty q.requests ≡ false
      → let s' =
          enqueue_tree_candidate_if_eligible d now key
            (record s { tree_queues = insert key q s.tree_queues }) in
        Served s'.tree_queues s'.ready_tree_queue
  unfolding enqueue_tree_candidate_if_eligible
  enqueue-Served d now key q s v h =
      rw (find-written key q s.tree_queues, enqueue_tree_candidate_if_eligible)
        (push-Served d now key q s.tree_queues s.ready_tree_queue q.requests v h refl)

  pub submit-Served :
      (d : Double D) (now : ℕ) (req : PendingRequest) (s : Scheduler D)
      → Served s.tree_queues s.ready_tree_queue
      → Served (submit d now req s).tree_queues (submit d now req s).ready_tree_queue
  unfolding submit
  submit-Served d now req s v =
      let q = queue_or_new (find req.queue_key s.tree_queues) in
      enqueue-Served d now req.queue_key
        (record q { requests = q.requests ++ (req ∷ []); version = add64 q.version 1 }) s v
        (is_empty-snoc q.requests req)

  erase-Served :
      (key : Str) (m : Map Str TreeQueue) (ready : List (TreeCandidate D))
      → Served m ready
      → Served (erase key m) ready
  erase-Served key m ready v = record {
    covers = λ k q e. ground (arith, find-erase key k m, v.covers k q);
  }

  pub release-Served :
      (d : Double D) (now : ℕ) (key : Str) (s : Scheduler D)
      → Served s.tree_queues s.ready_tree_queue
      → Served
          (release_tree_key d now key s).tree_queues
          (release_tree_key d now key s).ready_tree_queue
  unfolding release_tree_key
  release-Served d now key s v = elim (Option-cases (find key s.tree_queues)) [
    | inl e ↦ rw (e, release_tree_key) v
    | inr (q, e) ↦ elim (Bool-cases (is_empty q.requests)) [
      | inl h ↦ rw (e, h, release_tree_key) (erase-Served key s.tree_queues s.ready_tree_queue v)
      | inr h ↦
          rw (e, h, release_tree_key)
            (enqueue-Served d now key
              (record q { has_active_key = false; version = add64 q.version 1 }) s v h)
    ]
  ]

-- The scheduler, and the requests that workers have picked and not released.
pub record System (D : Type 0) : Type 0 where
  pub scheduler : Scheduler D
  pub in_flight : List PendingRequest

abbrev pub count : Str → List PendingRequest → ℕ
count k [] = 0
count k (req ∷ reqs) = (if req.queue_key == k then 1 else 0) + count k reqs

-- All requests have this key.
abbrev pub all_keyed : Str → List PendingRequest → Bool
all_keyed k [] = true
all_keyed k (req ∷ reqs) = req.queue_key == k && all_keyed k reqs

abbrev pub is_busy : Str → Map Str TreeQueue → Bool
is_busy k m = elim (find k m) [ none ↦ false | some q ↦ q.has_active_key ]

module _ {D : Type 0} (d : Double D) where
  -- A client queues a request; a worker picks one, or finds none; a worker releases the key of its request.
  pub data Step : System D → System D → Type 0 where
    submits :
        (now : ℕ) (req : PendingRequest) {s : Scheduler D} {held : List PendingRequest}
        → Step
            (record { scheduler = s; in_flight = held })
            (record { scheduler = submit d now req s; in_flight = held })
    picks :
        (req : PendingRequest) {s : Scheduler D} {held : List PendingRequest}
        → (pick_next_request d s).1 ≡ some req
        → Step
            (record { scheduler = s; in_flight = held })
            (record { scheduler = (pick_next_request d s).0; in_flight = req ∷ held })
    rests :
        {s : Scheduler D} {held : List PendingRequest}
        → (pick_next_request d s).1 ≡ none
        → Step
            (record { scheduler = s; in_flight = held })
            (record { scheduler = (pick_next_request d s).0; in_flight = held })
    releases :
        (now : ℕ) (before : List PendingRequest) (req : PendingRequest)
        (after : List PendingRequest) {s : Scheduler D}
        → Step
            (record { scheduler = s; in_flight = before ++ (req ∷ after) })
            (record {
              scheduler = release_tree_key d now req.queue_key s;
              in_flight = before ++ after;
            })

  pub data Reaches (x : System D) : System D → Type 0 where
    here : Reaches x x
    onward : {y z : System D} → Reaches x y → Step y z → Reaches x z

abbrev pub start : {D : Type 0} → System D
start = record { scheduler = record { tree_queues = []; ready_tree_queue = [] }; in_flight = [] }
