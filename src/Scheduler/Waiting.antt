-- ===== src/Scheduler/Waiting.antt =====
-- The invariant of the queues and the heap.
use velix.Prelude.{
  str_eq, nat_eq, nat_beq_iff, ℕ, zero, suc, ◌≤◌, ◌==◌, ◌&&◌, ◌||◌, not, Str, Map, Option, none,
  some, Bool, true, false, List, [], ◌∷◌, ◌≡◌, refl, arith, find, insert, find-insert, length,
  is_empty, ==_iff, ==_refl, Option-cases, Bool-cases, inl, inr,
}
use velix.Double.{Double}
use velix.Scheduler.{
  PendingRequest, TreeQueue, TreeCandidate, Scheduler, take_front, accept, push_candidate, pop_top,
  pick_loop, pick_next_request,
}

module _ {D : Type 0} where
  -- The candidate stands for this version of this key.
  abbrev pub is_for : Str → ℕ → TreeCandidate D → Bool
  is_for k v c = c.queue_key == k && c.version == v

  abbrev pub ready_for : Str → ℕ → List (TreeCandidate D) → Bool
  ready_for k v [] = false
  ready_for k v (c ∷ cs) = is_for k v c || ready_for k v cs

  abbrev pub covered : Str → List (TreeCandidate D) → TreeQueue → Bool
  covered k ready q = q.has_active_key || (not (is_empty q.requests) && ready_for k q.version ready)

  -- Every queue on record is served by a worker, or has a request and a candidate in the heap.
  pub record Served (m : Map Str TreeQueue) (ready : List (TreeCandidate D)) : Type 0 where
    pub covers : (k : Str) (q : TreeQueue) → find k m ≡ some q → covered k ready q ≡ true

  pub record Popped (cs : List (TreeCandidate D)) (t : TreeCandidate D)
      (rest : List (TreeCandidate D)) : Type 0 where
    pub shorter : length cs ≡ suc (length rest)
    pub same : (k : Str) (v : ℕ) → ready_for k v cs ≡ (is_for k v t || ready_for k v rest)

  pub pop_top-Popped :
      (d : Double D) (cs : List (TreeCandidate D)) (t : TreeCandidate D)
      (rest : List (TreeCandidate D))
      → pop_top d cs ≡ some (t, rest)
      → Popped cs t rest
  unfolding pop_top
  pop_top-Popped d [] t rest h = cc
  pop_top-Popped d (c ∷ cs) t rest h = elim (Option-cases (pop_top d cs)) [
    | inl e ↦ record { shorter = ground arith; same = λ k v. ground arith }
    | inr ((u, us), e) ↦
        let sub = pop_top-Popped d cs u us e in
        record { shorter = ground (arith, sub.shorter); same = λ k v. ground (arith, sub.same k v) }
  ]

  pub pop_top-none : (d : Double D) (cs : List (TreeCandidate D)) → pop_top d cs ≡ none → cs ≡ []
  unfolding pop_top
  pop_top-none d [] h = refl
  pop_top-none d (c ∷ cs) h = ground arith

  -- What the acceptance of a candidate says of its queue.
  pub record Accepted (c : TreeCandidate D) (m : Map Str TreeQueue) (req : PendingRequest)
      (q' : TreeQueue) : Type 0 where
    pub queue : TreeQueue
    pub there : find c.queue_key m ≡ some queue
    pub idle : queue.has_active_key ≡ false
    pub front : queue.requests ≡ req ∷ q'.requests
    pub active : q'.has_active_key ≡ true

  take_front-Accepted :
      (c : TreeCandidate D) (m : Map Str TreeQueue) (q q' : TreeQueue) (req : PendingRequest)
      (reqs : List PendingRequest)
      → find c.queue_key m ≡ some q
      → q.has_active_key ≡ false
      → q.requests ≡ reqs
      → take_front reqs q ≡ some (req, q')
      → Accepted c m req q'
  unfolding take_front
  take_front-Accepted c m q q' req [] e a r h = cc
  take_front-Accepted c m q q' req (x ∷ reqs) e a r h = record {
    queue = q;
    there = e;
    idle = a;
    front = ground arith;
    active = ground arith;
  }

  pub accept-Accepted :
      (c : TreeCandidate D) (m : Map Str TreeQueue) (req : PendingRequest) (q' : TreeQueue)
      → accept c m ≡ some (req, q')
      → Accepted c m req q'
  unfolding accept
  accept-Accepted c m req q' h = elim (Option-cases (find c.queue_key m)) [
    | inl e ↦ ground arith
    | inr (q, e) ↦ take_front-Accepted c m q q' req q.requests e (ground arith) refl (ground arith)
  ]

  pub accept-none :
      (c : TreeCandidate D) (rest : List (TreeCandidate D)) (m : Map Str TreeQueue) (k : Str)
      (q : TreeQueue)
      → accept c m ≡ none
      → find k m ≡ some q
      → covered k (c ∷ rest) q ≡ true
      → covered k rest q ≡ true
  unfolding accept take_front
  accept-none c rest m k q h e v =
      ground (arith, ==_iff c.queue_key k, ==_iff q.version c.version, ==_iff c.version q.version)

  -- The state of a loop's result, and that it ends with an empty heap when it finds nothing.
  pub record Looked (x : Scheduler D × Option PendingRequest) : Type 0 where
    pub served : Served x.0.tree_queues x.0.ready_tree_queue
    pub exhausted : x.1 ≡ none → x.0.ready_tree_queue ≡ []

  take-Served :
      (c : TreeCandidate D) (rest : List (TreeCandidate D)) (m : Map Str TreeQueue)
      (req : PendingRequest) (q' : TreeQueue)
      → Accepted c m req q'
      → Served m (c ∷ rest)
      → Served (insert c.queue_key q' m) rest
  take-Served c rest m req q' a s = record {
    covers = λ k q e.
        ground
          (arith, find-insert c.queue_key k q' m, ==_iff c.queue_key k, a.active, s.covers k q);
  }

  pub pick_loop-Looked :
      (d : Double D) (n : ℕ) (m : Map Str TreeQueue) (ready : List (TreeCandidate D))
      → Served m ready
      → length ready ≤ n
      → Looked (pick_loop d n m ready)
  unfolding pick_loop
  pick_loop-Looked d zero m [] s h = record { served = s; exhausted = λ _. refl }
  pick_loop-Looked d zero m (c ∷ cs) s h = absurd (omega arith)
  pick_loop-Looked d (suc n) m ready s h = elim (Option-cases (pop_top d ready)) [
    | inl e ↦ rw (e, pick_loop) (record { served = s; exhausted = λ _. pop_top-none d ready e })
    | inr ((c, rest), e) ↦
        let p = pop_top-Popped d ready c rest e in
        let s' : Served m (c ∷ rest) = record {
          covers = λ k q there. ground (arith, s.covers k q there, p.same k q.version);
        } in
        elim (Option-cases (accept c m)) [
          | inl miss ↦
              rw (e, miss, pick_loop)
                (pick_loop-Looked d n m rest
                  (record {
                    covers = λ k q there. accept-none c rest m k q miss there (s'.covers k q there);
                  })
                  (omega (arith, p.shorter)))
          | inr ((req, q'), hit) ↦
              rw (e, hit, pick_loop)
                (record {
                  served = take-Served c rest m req q' (accept-Accepted c m req q' hit) s';
                  exhausted = λ h. cc;
                })
        ]
  ]

  pub pick_next_request-Looked :
      (d : Double D) (s : Scheduler D)
      → Served s.tree_queues s.ready_tree_queue
      → Looked (pick_next_request d s)
  unfolding pick_next_request
  pick_next_request-Looked d s v =
      pick_loop-Looked d (length s.ready_tree_queue) s.tree_queues s.ready_tree_queue v
        (omega arith)

  -- All other queues are covered, and the queue at `key` is the one that was just written.
  pub push-Served :
      (d : Double D) (now : ℕ) (key : Str) (q : TreeQueue) (m : Map Str TreeQueue)
      (ready : List (TreeCandidate D)) (reqs : List PendingRequest)
      → Served m ready
      → is_empty reqs ≡ false
      → q.requests ≡ reqs
      → let s' =
          push_candidate d now key q reqs
            (record { tree_queues = insert key q m; ready_tree_queue = ready }) in
        Served s'.tree_queues s'.ready_tree_queue
  unfolding push_candidate
  push-Served d now key q m ready [] v ne h = cc
  push-Served d now key q m ready (req ∷ reqs) v ne h = elim (Bool-cases q.has_active_key) [
    | inl a ↦
        rw (a, push_candidate)
          (record { covers = λ k x e. ground (arith, find-insert key k q m, v.covers k x) })
    | inr a ↦
        rw (a, push_candidate)
          (record {
            covers = λ k x e. ground (
              arith,
              find-insert key k q m,
              v.covers k x,
              ==_iff key k,
              ==_refl key,
              nat_beq_iff q.version q.version,
            );
          })
  ]
