-- ===== src/ThreadPool.antt =====
-- utils/thread_pool.hpp: the queue of a pool. `T` is the type of the tasks. A block under the mutex is one step: a
-- submission, a worker's turn, the stop of the destructor. A worker whose wait would go on takes no step. The count
-- stays below the capacity, an int, so its 64 bits do not wrap.
use velix.Prelude.{
  ℕ, suc, ◌+◌, ◌-◌, ◌≤◌, ◌||◌, ◌++◌, ℤ, pos, Bool, true, false, List, [], ◌∷◌, ◌≡◌, refl, arith,
  length, length-append, leb, if◌then◌else◌, ◌∙◌, ap, sym, Bool-cases, inl, inr,
}

pub record ThreadPool (T : Type 0) : Type 0 where
  pub tasks : List T
  pub stop : Bool
  pub pending_count : ℕ
  pub capacity : ℕ

unfoldable pub capacity_for : ℤ → ℕ
capacity_for (pos (suc n)) = suc n
capacity_for _ = 512

-- What a worker that woke up does.
pub data Turn (T : Type 0) : Type 0 where
  waits returns : Turn T
  runs : T → Turn T

-- A pool with its past: the tasks that were accepted and the ones that workers took, in their order.
pub record History (T : Type 0) : Type 0 where
  pub pool : ThreadPool T
  pub accepted : List T
  pub taken : List T

pub data Event (T : Type 0) : Type 0 where
  submits : T → Event T
  worker_wakes stops : Event T

module _ {T : Type 0} where
  unfoldable pub new_pool : ℤ → ThreadPool T
  unfolding capacity_for
  new_pool max_queued = record {
    tasks = [];
    stop = false;
    pending_count = 0;
    capacity = capacity_for max_queued;
  }

  unfoldable pub try_submit : T → ThreadPool T → ThreadPool T × Bool
  try_submit task p =
      if p.stop || leb p.capacity p.pending_count
      then (p, false)
      else (record p { tasks = p.tasks ++ (task ∷ []); pending_count = p.pending_count + 1 }, true)

  -- One turn of worker_loop, by the tasks at its start.
  unfoldable pub take_task : List T → ThreadPool T → ThreadPool T × Turn T
  take_task [] p = (p, if p.stop then returns else waits)
  take_task (task ∷ tasks) p =
      (record p { tasks = tasks; pending_count = p.pending_count - 1 }, runs task)

  unfoldable pub worker_turn : ThreadPool T → ThreadPool T × Turn T
  unfolding take_task
  worker_turn p = take_task p.tasks p

  unfoldable pub request_stop : ThreadPool T → ThreadPool T
  request_stop p = record p { stop = true }

  abbrev note_turn : Turn T → List T → List T
  note_turn (runs task) taken = taken ++ (task ∷ [])
  note_turn _ taken = taken

  unfoldable pub happen : Event T → History T → History T
  unfolding try_submit worker_turn request_stop
  happen (submits task) h =
      let out = try_submit task h.pool in
      record h { pool = out.0; accepted = if out.1 then h.accepted ++ (task ∷ []) else h.accepted }
  happen worker_wakes h =
      let out = worker_turn h.pool in record h { pool = out.0; taken = note_turn out.1 h.taken }
  happen stops h = record h { pool = request_stop h.pool }

  unfoldable pub happen_all : List (Event T) → History T → History T
  unfolding happen
  happen_all [] h = h
  happen_all (e ∷ es) h = happen_all es (happen e h)

  -- The count is the number of queued tasks, it stays within the capacity, and the accepted tasks are the ones that
  -- were taken and then the queued ones.
  pub record Faithful (h : History T) : Type 0 where
    pub counted : h.pool.pending_count ≡ length h.pool.tasks
    pub bounded : h.pool.pending_count ≤ h.pool.capacity
    pub in_order : h.accepted ≡ h.taken ++ h.pool.tasks

  append_assoc : (xs ys zs : List T) → (xs ++ ys) ++ zs ≡ xs ++ (ys ++ zs)
  append_assoc [] ys zs = refl
  append_assoc (x ∷ xs) ys zs = rw (append_assoc xs ys zs)

  submit-Faithful : (task : T) (h : History T) → Faithful h → Faithful (happen (submits task) h)
  unfolding happen try_submit
  submit-Faithful task h v =
      elim (Bool-cases (h.pool.stop || leb h.pool.capacity h.pool.pending_count)) [
        | inl e ↦ rw (e, try_submit) v
        | inr e ↦
            rw (e, try_submit)
              (record {
                counted = omega (arith, length-append h.pool.tasks (task ∷ []), v.counted);
                bounded = ground (arith, e, v.bounded);
                in_order =
                    ap (λ x. x ++ (task ∷ [])) v.in_order
                    ∙ append_assoc h.taken h.pool.tasks (task ∷ []);
              })
      ]

  take-Faithful :
      (tasks : List T) (h : History T)
      → h.pool.tasks ≡ tasks
      → Faithful h
      → Faithful (record h {
        pool = (take_task tasks h.pool).0;
        taken = note_turn (take_task tasks h.pool).1 h.taken;
      })
  unfolding take_task
  take-Faithful [] h e v = elim (Bool-cases h.pool.stop) [
    | inl on ↦ rw on (record { counted = v.counted; bounded = v.bounded; in_order = v.in_order })
    | inr off ↦ rw off (record { counted = v.counted; bounded = v.bounded; in_order = v.in_order })
  ]
  take-Faithful (task ∷ tasks) h e v = record {
    counted = omega (arith, v.counted, ap length e);
    bounded = omega (arith, v.bounded);
    in_order =
        v.in_order ∙ (ap (λ x. h.taken ++ x) e ∙ sym (append_assoc h.taken (task ∷ []) tasks));
  }

  turn-Faithful : (h : History T) → Faithful h → Faithful (happen worker_wakes h)
  unfolding happen worker_turn
  turn-Faithful h v = take-Faithful h.pool.tasks h refl v

  happen-Faithful : (e : Event T) (h : History T) → Faithful h → Faithful (happen e h)
  unfolding happen request_stop
  happen-Faithful (submits task) h v = submit-Faithful task h v
  happen-Faithful worker_wakes h v = turn-Faithful h v
  happen-Faithful stops h v = record {
    counted = v.counted;
    bounded = v.bounded;
    in_order = v.in_order;
  }

  happen_all-Faithful :
      (es : List (Event T)) (h : History T) → Faithful h → Faithful (happen_all es h)
  unfolding happen_all
  happen_all-Faithful [] h v = v
  happen_all-Faithful (e ∷ es) h v = happen_all-Faithful es (happen e h) (happen-Faithful e h v)

  abbrev pub fresh_pool : ℤ → History T
  fresh_pool max_queued = record { pool = new_pool max_queued; accepted = []; taken = [] }

  -- Whatever happens to a new pool, the count is the number of queued tasks and stays within the capacity, and the
  -- tasks that were accepted are, in their order, those that workers took and then the queued ones.
  pub new_pool-Faithful :
      (max_queued : ℤ) (es : List (Event T)) → Faithful (happen_all es (fresh_pool max_queued))
  unfolding new_pool
  new_pool-Faithful max_queued es =
      happen_all-Faithful es (fresh_pool max_queued)
        (record { counted = refl; bounded = omega arith; in_order = refl })
