-- ===== src/Scheduler/Taking.antt =====
-- What the operations on the heap do to the queues.
use velix.Prelude.{
  str_eq, nat_eq, ℕ, zero, suc, Str, Map, none, some, List, [], ◌∷◌, ◌≡◌, refl, arith, find, insert,
  Option-cases, inl, inr,
}
use velix.Double.{Double}
use velix.Scheduler.{
  PendingRequest, TreeQueue, TreeCandidate, Scheduler, accept, push_candidate,
  enqueue_tree_candidate_if_eligible, pick_loop, pop_top,
}
use velix.Scheduler.Waiting.{Accepted, accept-Accepted}

-- What a pick does to the queues.
pub record Took (D : Type 0) (m m' : Map Str TreeQueue) (req : PendingRequest) : Type 0 where
  pub candidate : TreeCandidate D
  pub queue : TreeQueue
  pub accepted : Accepted candidate m req queue
  pub written : m' ≡ insert candidate.queue_key queue m

module _ {D : Type 0} where
  pub enqueue-queues :
      (d : Double D) (now : ℕ) (key : Str) (s : Scheduler D)
      → (enqueue_tree_candidate_if_eligible d now key s).tree_queues ≡ s.tree_queues
  unfolding enqueue_tree_candidate_if_eligible
  enqueue-queues d now key s = elim (Option-cases (find key s.tree_queues)) [
    | inl e ↦ rw (e, enqueue_tree_candidate_if_eligible) refl
    | inr (q, e) ↦ rw (e, enqueue_tree_candidate_if_eligible) (push q.requests q)
  ]
    where
      push :
          (reqs : List PendingRequest) (q : TreeQueue)
          → (push_candidate d now key q reqs s).tree_queues ≡ s.tree_queues
      push [] q = refl
      push (r ∷ reqs) q = ground arith

  pub pick_loop-none :
      (d : Double D) (n : ℕ) (m : Map Str TreeQueue) (ready : List (TreeCandidate D))
      → (pick_loop d n m ready).1 ≡ none
      → (pick_loop d n m ready).0.tree_queues ≡ m
  unfolding pick_loop
  pick_loop-none d zero m ready h = refl
  pick_loop-none d (suc n) m ready h = elim (Option-cases (pop_top d ready)) [
    | inl e ↦ rw (e, pick_loop) refl
    | inr ((c, rest), e) ↦ elim (Option-cases (accept c m)) [
      | inl miss ↦ ground (arith, e, miss, pick_loop-none d n m rest)
      | inr (x, hit) ↦ ground (arith, e, hit)
    ]
  ]

  pub pick_loop-Took :
      (d : Double D) (n : ℕ) (m : Map Str TreeQueue) (ready : List (TreeCandidate D))
      (req : PendingRequest)
      → (pick_loop d n m ready).1 ≡ some req
      → Took D m (pick_loop d n m ready).0.tree_queues req
  unfolding pick_loop
  pick_loop-Took d zero m ready req h = cc
  pick_loop-Took d (suc n) m ready req h = elim (Option-cases (pop_top d ready)) [
    | inl e ↦ ground (arith, e)
    | inr ((c, rest), e) ↦ elim (Option-cases (accept c m)) [
      | inl miss ↦ rw (e, miss, pick_loop) (pick_loop-Took d n m rest req (ground (arith, e, miss)))
      | inr ((x, q), hit) ↦
          rw (e, hit, pick_loop)
            (record {
              candidate = c;
              queue = q;
              accepted = accept-Accepted c m req q (ground (arith, e, hit));
              written = refl;
            })
    ]
  ]
