-- ===== src/Bus/Queues.antt =====
-- core/bus.cpp: the write queue of a session.
use velix.Prelude.{
  ℕ, ℤ, is_pos, Str, Option, none, some, true, false, not, List, [], ◌∷◌, ◌++◌, ◌≡◌, ◌≢◌, refl,
  arith, find, insert, map_option, find-insert, find-modify, ==_iff, ==_refl, ◌==◌, int_eq, nat_eq,
  str_eq, Option-cases, Bool-cases, inl, inr, if◌then◌else◌, is_empty, codes, if_cases,
}
use mathlib.Core.Path.{subst}
use velix.Bus.Closing.{close-open}
use velix.Bus.Routing.{unregister-sessions, Reading-cases}
use velix.Bus.{
  Reading, noting_pid, noting_tree, Message, Payload, registered, ipm_push, answer, unreachable,
  forward_heartbeat, Session, Bus, new_session, new_bus, update, posting, enqueue_json, push_back,
  pop_front, write_next, root_map, register_session, resolve_target_pid, relay_message,
  handle_message, unregister_session, closing, close_on_strand, landed, noting, handle_payload,
  read_frame, stop, Event, accepts, reads, fails, posts, writes, write_fails, stops, accept, step,
  run,
}

-- One write at a time: while a session is open, a write is in flight exactly when the queue has a
-- frame, and pop_front has not run on an empty queue.
pub record Paced (s : Session) : Type 0 where
  pub flight : s.closed ≡ false → s.in_flight ≡ not (is_empty s.write_queue)
  pub sound : s.closed ≡ false → s.overrun ≡ false

abbrev pub AllPaced : Bus → Type 0
AllPaced b = (k : ℕ) (s : Session) → find k b.sessions ≡ some s → Paced s

update-AllPaced :
    (k : ℕ) (f : Session → Session) (b : Bus)
    → ((s : Session) → Paced s → Paced (f s))
    → AllPaced b
    → AllPaced (update k f b)
update-AllPaced k f b keep h j s e = elim (Option-cases (find j b.sessions)) [
  | inl n ↦ ground (arith, find-modify k j f b.sessions, n, e)
  | inr (o, n) ↦ elim (Bool-cases (k == j)) [
    | inl same ↦
        let now : f o ≡ s = ground (arith, find-modify k j f b.sessions, n, e, same) in
        subst Paced now (keep o (h j o n))
    | inr other ↦ h j s (ground (arith, find-modify k j f b.sessions, e, other))
  ]
]

append_last : (xs : List Payload) (p : Payload) → is_empty (xs ++ (p ∷ [])) ≡ false
append_last [] p = refl
append_last (x ∷ xs) p = refl

push_back-Paced : (s : Session) → Paced s → Paced (push_back s)
unfolding push_back write_next
push_back-Paced s h = record {
  flight = λ c. ground (arith, h.flight, append_last s.write_queue);
  sound = λ c. ground (arith, h.sound);
}

pop_front-Paced : (s : Session) → Paced s → Paced (pop_front s)
unfolding pop_front write_next
pop_front-Paced s h = record {
  flight = λ c. ground (arith, h.flight);
  sound = λ c. ground (arith, h.flight, h.sound);
}

closed-Paced : (s : Session) → s.closed ≡ true → Paced s
closed-Paced s h = record { flight = λ c. ground (arith, h, c); sound = λ c. ground (arith, h, c) }

apart : (k j : ℕ) → (k == j) ≡ false → k ≢ j
apart k j h e = ground (arith, ==_iff k j, h, e)

-- Closing a session whose own pace may have been lost.
close-AllPaced :
    (k : ℕ) (b : Bus)
    → ((j : ℕ) (s : Session) → k ≢ j → find j b.sessions ≡ some s → Paced s)
    → AllPaced (close_on_strand k b)
unfolding close_on_strand
close-AllPaced k b h j s = elim (Bool-cases (k == j)) [
  | inr other ↦ elim (Option-cases (find k b.sessions)) [
    | inl n ↦ rw (n, close_on_strand) (h j s (apart k j other))
    | inr (o, n) ↦ elim (Bool-cases o.closed) [
      | inl c ↦ rw (n, c, close_on_strand) (h j s (apart k j other))
      | inr c ↦
          rw
            (
              n,
              c,
              close_on_strand,
              unregister-sessions k o.registered_pid o.registered_tree_id (update k closing b),
              find-modify k j closing b.sessions,
              other,
            )
            (h j s (apart k j other))
    ]
  ]
  | inl same ↦ elim (Option-cases (find k b.sessions)) [
    | inl n ↦ rw (n, close_on_strand) (λ e. ground (arith, n, e, same, ==_iff k j))
    | inr (o, n) ↦ elim (Bool-cases o.closed) [
      | inl c ↦
          rw (n, c, close_on_strand)
            (λ e.
              let now : o ≡ s = ground (arith, n, e, same, ==_iff k j) in
              subst Paced now (closed-Paced o c))
      | inr c ↦
          rw
            (
              n,
              c,
              close_on_strand,
              unregister-sessions k o.registered_pid o.registered_tree_id (update k closing b),
            )
            (λ e.
              let now : closing o ≡ s =
                ground (arith, n, e, same, ==_iff k j, find-modify k j closing b.sessions) in
              subst Paced now (closed-Paced (closing o) refl))
    ]
  ]
]

enqueue-AllPaced : (k : ℕ) (p : Payload) (b : Bus) → AllPaced b → AllPaced (enqueue_json k p b)
unfolding enqueue_json
enqueue-AllPaced k p b h =
    update-AllPaced k (posting p) b (λ s i. record { flight = i.flight; sound = i.sound }) h

noting-Paced : (msg : Message) (s : Session) → Paced s → Paced (noting msg s)
noting-Paced msg s h = record {
  flight = λ c. ground (arith, h.flight);
  sound = λ c. ground (arith, h.sound);
}

handle_message-AllPaced :
    (k : ℕ) (pid : ℤ) (supervisor : Option Str) (msg : Message) (b : Bus)
    → AllPaced b
    → AllPaced (handle_message k pid supervisor msg b)
unfolding handle_message register_session relay_message forward_heartbeat
handle_message-AllPaced k pid supervisor msg b h =
    let target = resolve_target_pid msg msg.target_pid b in
    let entered = record b {
      pid_sessions = insert msg.pid k b.pid_sessions;
      tree_root_pid_map = root_map msg b.tree_root_pid_map;
    } in
    if_cases (AllPaced) (msg.message_type == codes "BUS_REGISTER") (register_session k msg b) _
      (if_cases (AllPaced) (not (is_pos msg.pid)) b (enqueue_json k registered entered) h
        (enqueue-AllPaced k registered entered h))
      (if_cases (AllPaced) (msg.message_type == codes "IPM_RELAY")
        (if is_pos target then relay_message pid target msg b else b) _
        (if_cases (AllPaced) (is_pos target) (relay_message pid target msg b) b relayed h)
        (if_cases (AllPaced) (msg.message_type == codes "HEARTBEAT")
          (forward_heartbeat k supervisor b) b (forwarded supervisor) h))
  where
    relayed : AllPaced (relay_message pid (resolve_target_pid msg msg.target_pid b) msg b)
    relayed =
        let target = resolve_target_pid msg msg.target_pid b in
        elim (Option-cases (find target b.pid_sessions)) [
          | inl n ↦ rw (n, relay_message) h
          | inr (j, n) ↦ rw (n, relay_message) (enqueue-AllPaced j (ipm_push pid msg) b h)
        ]

    forwarded : (o : Option Str) → AllPaced (forward_heartbeat k o b)
    forwarded none = enqueue-AllPaced k unreachable b h
    forwarded (some payload) = enqueue-AllPaced k (answer payload) b h

new_session-Paced : Paced new_session
unfolding new_session
new_session-Paced = record { flight = λ c. refl; sound = λ c. refl }

accept-AllPaced : (k : ℕ) (b : Bus) → AllPaced b → AllPaced (accept k b)
unfolding accept
accept-AllPaced k b h = elim (Option-cases (find k b.sessions)) [
  | inr (s, n) ↦ rw (n, accept) h
  | inl n ↦
      rw (n, accept)
        (if_cases (AllPaced) b.running (record b { sessions = insert k new_session b.sessions }) b
          (λ j s e. elim (Bool-cases (k == j)) [
            | inl same ↦
                let now : new_session ≡ s =
                  ground (arith, e, same, find-insert k j new_session b.sessions) in
                subst Paced now new_session-Paced
            | inr other ↦ h j s (ground (arith, e, other, find-insert k j new_session b.sessions))
          ])
          h)
]

-- A session that notes a broken registration and closes.
close_noting-AllPaced :
    (k : ℕ) (f : Session → Session) (b : Bus)
    → ((s : Session) → Paced s → Paced (f s))
    → AllPaced b
    → AllPaced (close_on_strand k (update k f b))
close_noting-AllPaced k f b keep h =
    close-AllPaced k (update k f b) (λ j s a e. update-AllPaced k f b keep h j s e)

noting_pid-Paced : (pid : ℤ) (s : Session) → Paced s → Paced (noting_pid pid s)
noting_pid-Paced pid s h = record { flight = h.flight; sound = h.sound }

noting_tree-Paced :
    (pid : ℤ) (tree_id : Str) (s : Session) → Paced s → Paced (noting_tree pid tree_id s)
noting_tree-Paced pid tree_id s h = record { flight = h.flight; sound = h.sound }

module _ (parse : Str → Reading) where
  read-AllPaced :
      (k : ℕ) (supervisor : Option Str) (payload : Str) (b : Bus)
      → AllPaced b
      → AllPaced (read_frame parse k supervisor payload b)
  unfolding read_frame handle_payload
  read-AllPaced k supervisor payload b h = elim (Option-cases (find k b.sessions)) [
    | inl n ↦ rw (n, read_frame) h
    | inr (s, n) ↦ elim (Bool-cases s.closed) [
      | inl c ↦ rw (n, c, read_frame) h
      | inr c ↦ elim (Reading-cases (parse payload)) [
        | inr (inl p) ↦
            rw (n, c, read_frame, p, handle_payload) (close-AllPaced k b (λ j o a. h j o))
        | inr (inr (inl (pid, p))) ↦
            rw (n, c, read_frame, p, handle_payload)
              (close_noting-AllPaced k (noting_pid pid) b (noting_pid-Paced pid) h)
        | inr (inr (inr (pid, tree_id, p))) ↦
            rw (n, c, read_frame, p, handle_payload)
              (close_noting-AllPaced k (noting_tree pid tree_id) b (noting_tree-Paced pid tree_id)
                h)
        | inl (msg, p) ↦
            rw (n, c, read_frame, p, handle_payload, n)
              (handle_message-AllPaced k (noting msg s).registered_pid supervisor msg
                (update k (noting msg) b) (update-AllPaced k (noting msg) b (noting-Paced msg) h))
      ]
    ]
  ]

  step-AllPaced : (b : Bus) (e : Event) → AllPaced b → AllPaced (step parse b e)
  unfolding step stop
  step-AllPaced b (accepts k) h = accept-AllPaced k b h
  step-AllPaced b (reads k supervisor payload) h = read-AllPaced k supervisor payload b h
  step-AllPaced b (fails k) h = close-AllPaced k b (λ j o a. h j o)
  step-AllPaced b (posts k) h = update-AllPaced k push_back b push_back-Paced h
  step-AllPaced b (writes k) h = update-AllPaced k pop_front b pop_front-Paced h
  step-AllPaced b (write_fails k) h =
      close-AllPaced k (update k landed b)
        (λ j o a e. h j o (ground (arith, find-modify k j landed b.sessions, ==_iff k j, a, e)))
  step-AllPaced b stops h =
      if_cases (AllPaced) (not b.running) b
        (record b { pid_sessions = []; tree_root_pid_map = []; running = false }) h h

  run-AllPaced : (b : Bus) (es : List Event) → AllPaced b → AllPaced (run parse b es)
  unfolding run
  run-AllPaced b [] h = h
  run-AllPaced b (e ∷ es) h = run-AllPaced (step parse b e) es (step-AllPaced b e h)

  -- Whatever happens to a new bus, in whatever order: while a session is open, a write is in flight
  -- exactly when its queue has a frame, and no completion has run on an empty queue.
  pub writes_paced : (es : List Event) → AllPaced (run parse new_bus es)
  unfolding new_bus find
  writes_paced es = run-AllPaced new_bus es (λ k s e. ground arith)

-- An open session has a frame in flight when a read fails and closes it; the write had completed,
-- and its completion runs behind the close: pop_front runs on the empty queue.
close_overruns :
    (parse : Str → Reading) (b : Bus) (k : ℕ) (s : Session)
    → find k b.sessions ≡ some s
    → s.closed ≡ false
    → s.in_flight ≡ true
    → map_option (λ s. s.overrun) (find k (run parse b (fails k ∷ writes k ∷ [])).sessions)
      ≡ some true
unfolding run step pop_front
close_overruns parse b k s n c f =
    let after = unregister_session k s.registered_pid s.registered_tree_id (update k closing b) in
    let there : find k after.sessions ≡ some (closing s) = ground (
      arith,
      unregister-sessions k s.registered_pid s.registered_tree_id (update k closing b),
      find-modify k k closing b.sessions,
      ==_refl k,
      n,
    ) in
    rw (close-open k b s n c)
      (ground (arith, find-modify k k pop_front after.sessions, ==_refl k, there, f))
