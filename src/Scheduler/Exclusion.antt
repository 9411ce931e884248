-- ===== src/Scheduler/Exclusion.antt =====
-- The invariant of the scheduler with its workers.
use velix.Prelude.{
  str_eq, nat_eq, ℕ, ◌≤◌, Str, Map, none, some, true, false, List, [], ◌∷◌, ◌≡◌, refl, arith, find,
  insert, length, is_empty, ==_iff, ==_refl, Option-cases, Bool-cases, inl, inr, ◌++◌,
}
use velix.Prelude.Words.{add64}
use velix.Double.{Double}
use velix.Scheduler.{
  PendingRequest, TreeQueue, Scheduler, queue_or_new, pick_next_request, release_tree_key, submit,
}
use velix.Scheduler.Waiting.{Served, pick_next_request-Looked}
use velix.Scheduler.Workers.{
  System, count, all_keyed, Step, submits, picks, rests, releases, Reaches, here, onward, start,
  submit-Served, release-Served,
}
use velix.Scheduler.Flights.{
  all_keyed-append, Keyed, Flights, Keyed-insert, Keyed-erase, is_busy-insert, is_busy-erase,
  all_keyed-queue_or_new, has_active_key-queue_or_new, released,
}
use velix.Scheduler.Taking.{enqueue-queues, pick_loop-none, pick_loop-Took}

module _ {D : Type 0} where
  -- The invariant of the scheduler and its workers: the queues that wait are in the heap, each request stands in the
  -- queue of its key, and a key is busy exactly when one worker holds a request of it.
  pub record Sound (x : System D) : Type 0 where
    pub served : Served x.scheduler.tree_queues x.scheduler.ready_tree_queue
    pub keyed : Keyed x.scheduler.tree_queues
    pub flights : Flights x.scheduler.tree_queues x.in_flight

  submit-Sound :
      (d : Double D) (now : ℕ) (req : PendingRequest) (s : Scheduler D) (held : List PendingRequest)
      → Sound (record { scheduler = s; in_flight = held })
      → Sound (record { scheduler = submit d now req s; in_flight = held })
  unfolding submit
  submit-Sound d now req s held v =
      let key = req.queue_key in
      let m = s.tree_queues in
      let q0 = queue_or_new (find key m) in
      let q = record q0 { requests = q0.requests ++ (req ∷ []); version = add64 q0.version 1 } in
      let unchanged = enqueue-queues d now key (record s { tree_queues = insert key q m }) in
      record {
        served = submit-Served d now req s v.served;
        keyed = rw unchanged (
            Keyed-insert key q m v.keyed (
              ground (
                arith,
                all_keyed-append key q0.requests (req ∷ []),
                all_keyed-queue_or_new key m v.keyed,
                ==_refl key,
              )));
        flights = rw unchanged (λ k. ground (
          arith,
          is_busy-insert key k q m,
          has_active_key-queue_or_new key m,
          ==_iff key k,
          v.flights k,
        ));
      }

  pick-Sound :
      (d : Double D) (req : PendingRequest) (s : Scheduler D) (held : List PendingRequest)
      → (pick_next_request d s).1 ≡ some req
      → Sound (record { scheduler = s; in_flight = held })
      → Sound (record { scheduler = (pick_next_request d s).0; in_flight = req ∷ held })
  unfolding pick_next_request
  pick-Sound d req s held h v =
      let t = pick_loop-Took d (length s.ready_tree_queue) s.tree_queues s.ready_tree_queue req h in
      let a = t.accepted in
      let key = t.candidate.queue_key in
      let m = s.tree_queues in
      let own : all_keyed key a.queue.requests ≡ true = v.keyed key a.queue a.there in
      record {
        served = (pick_next_request-Looked d s v.served).served;
        keyed = rw t.written (Keyed-insert key t.queue m v.keyed (ground (arith, a.front, own)));
        flights = rw t.written (λ k. ground (
          arith,
          is_busy-insert key k t.queue m,
          a.front,
          own,
          a.there,
          a.idle,
          a.active,
          ==_iff key k,
          ==_iff req.queue_key key,
          v.flights k,
          v.flights key,
        ));
      }

  release-Sound :
      (d : Double D) (now : ℕ) (before : List PendingRequest) (req : PendingRequest)
      (after : List PendingRequest) (s : Scheduler D)
      → Sound (record { scheduler = s; in_flight = before ++ (req ∷ after) })
      → Sound (record {
        scheduler = release_tree_key d now req.queue_key s;
        in_flight = before ++ after;
      })
  unfolding release_tree_key
  release-Sound d now before req after s v =
      elim (Option-cases (find req.queue_key s.tree_queues)) [
        | inl e ↦
            absurd (ground (arith, e, v.flights key, released key before req after, ==_refl key))
        | inr (q, e) ↦ elim (Bool-cases (is_empty q.requests)) [
          | inl h ↦ record {
            served = served;
            keyed = rw (e, h, release_tree_key) (Keyed-erase key m v.keyed);
            flights =
                rw (e, h, release_tree_key)
                  (λ k. ground (
                    arith,
                    is_busy-erase key k m,
                    e,
                    v.flights k,
                    v.flights key,
                    released k before req after,
                    ==_iff key k,
                  ));
          }
          | inr h ↦
              let q' = record q { has_active_key = false; version = add64 q.version 1 } in
              let unchanged =
                enqueue-queues d now key (record s { tree_queues = insert key q' m }) in
              record {
                served = served;
                keyed =
                    rw (e, h, release_tree_key)
                      (rw unchanged (Keyed-insert key q' m v.keyed (v.keyed key q e)));
                flights =
                    rw (e, h, release_tree_key)
                      (rw unchanged (λ k. ground (
                        arith,
                        is_busy-insert key k q' m,
                        e,
                        v.flights k,
                        v.flights key,
                        released k before req after,
                        ==_iff key k,
                      )));
              }
        ]
      ]
    where
      key : Str
      key = req.queue_key

      m : Map Str TreeQueue
      m = s.tree_queues

      served :
          Served
            (release_tree_key d now key s).tree_queues
            (release_tree_key d now key s).ready_tree_queue
      served = release-Served d now key s v.served

  rest-Sound :
      (d : Double D) (s : Scheduler D) (held : List PendingRequest)
      → (pick_next_request d s).1 ≡ none
      → Sound (record { scheduler = s; in_flight = held })
      → Sound (record { scheduler = (pick_next_request d s).0; in_flight = held })
  unfolding pick_next_request
  rest-Sound d s held h v =
      let kept = pick_loop-none d (length s.ready_tree_queue) s.tree_queues s.ready_tree_queue h in
      record {
        served = (pick_next_request-Looked d s v.served).served;
        keyed = rw kept v.keyed;
        flights = rw kept v.flights;
      }

  Step-Sound : (d : Double D) (x y : System D) → Step d x y → Sound x → Sound y
  Step-Sound d x y (submits now req {s} {held}) v = submit-Sound d now req s held v
  Step-Sound d x y (picks req {s} {held} h) v = pick-Sound d req s held h v
  Step-Sound d x y (rests {s} {held} h) v = rest-Sound d s held h v
  Step-Sound d x y (releases now before req after {s}) v = release-Sound d now before req after s v

  pub Reaches-Sound : (d : Double D) (x y : System D) → Reaches d x y → Sound x → Sound y
  Reaches-Sound d x y here v = v
  Reaches-Sound d x y (onward {y = z} r s) v = Step-Sound d z y s (Reaches-Sound d x z r v)

  start-Sound : Sound (start {D = D})
  unfolding find
  start-Sound = record {
    served = record { covers = λ k q e. cc };
    keyed = λ k q e. cc;
    flights = λ k. refl;
  }

  -- In every state that the scheduler and its workers reach from the empty one, no two workers hold requests of the same
  -- key.
  pub one_worker_per_key :
      (d : Double D) (x : System D) (k : Str) → Reaches d start x → count k x.in_flight ≤ 1
  one_worker_per_key d x k r =
      let v = Reaches-Sound d start x r start-Sound in ground (arith, v.flights k)

  -- In every state that the scheduler and its workers reach from the empty one, when pick_next_request finds nothing,
  -- exactly one worker holds a request of each key that has a queue.
  pub idle_means_held :
      (d : Double D) (x : System D) (k : Str) (q : TreeQueue)
      → Reaches d start x
      → (pick_next_request d x.scheduler).1 ≡ none
      → find k x.scheduler.tree_queues ≡ some q
      → count k x.in_flight ≡ 1
  unfolding pick_next_request
  idle_means_held d x k q r h e =
      let v = Reaches-Sound d start x r start-Sound in
      let s = x.scheduler in
      let looked = pick_next_request-Looked d s v.served in
      let kept = pick_loop-none d (length s.ready_tree_queue) s.tree_queues s.ready_tree_queue h in
      let covers = looked.served.covers k q (rw kept e) in
      ground (arith, v.flights k, e, covers, looked.exhausted h)
