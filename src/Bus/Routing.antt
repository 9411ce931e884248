-- ===== src/Bus/Routing.antt =====
-- core/bus.cpp: which sessions the bus has on record for a pid, and for a tree.
use velix.Prelude.{
  ℕ, ℤ, is_pos, Str, Option, none, some, true, false, not, List, [], ◌∷◌, ◌≡◌, ◌≢◌, ◌⊎◌, refl,
  arith, find, insert, map_option, find-insert, find-erase, find-modify, ==_iff, ==_refl, ◌==◌,
  int_eq, nat_eq, str_eq, Option-cases, Bool-cases, inl, inr, if◌then◌else◌, codes, if_cases,
}
use velix.Bus.{
  Reading, whole, throws, throws_at_tree, throws_at_root, noting_pid, noting_tree, Message, Payload,
  registered, ipm_push, answer, unreachable, Session, Bus, new_session, new_bus, update, posting,
  enqueue_json, push_back, pop_front, write_next, root_map, register_session, resolve_target_pid,
  relay_message, forward_heartbeat, handle_message, unregister_session, closing, close_on_strand,
  landed, noting, handle_payload, read_frame, stop, Event, accepts, reads, fails, posts, writes,
  write_fails, stops, accept, step, run,
}

-- The session is there, and if it is closed it did not close under this pid.
abbrev Owned : ℤ → Option Session → Type 0
Owned pid none = ⊥
Owned pid (some s) = s.closed ≡ true → s.registered_pid ≢ pid

-- Every pid on record belongs to a session; a session that closed stands only under pids other than
-- the one that it read last.
abbrev pub Routed : Bus → Type 0
Routed b =
    (pid : ℤ) (k : ℕ)
    → find pid b.pid_sessions ≡ some k
    → (is_pos pid ≡ true) × Owned pid (find k b.sessions)

-- A change that leaves the pid of a session and whether it is closed.
pub record Quiet (f : Session → Session) : Type 0 where
  pub closed : (s : Session) → (f s).closed ≡ s.closed
  pub pid : (s : Session) → (f s).registered_pid ≡ s.registered_pid

Owned-Quiet :
    (f : Session → Session) (pid : ℤ) (o : Option Session)
    → Quiet f
    → Owned pid o
    → Owned pid (map_option f o)
Owned-Quiet f pid none q h = h
Owned-Quiet f pid (some s) q h = ground (arith, q.closed s, q.pid s, h)

update-Routed :
    (k : ℕ) (f : Session → Session) (b : Bus) → Quiet f → Routed b → Routed (update k f b)
update-Routed k f b q h pid j e = (
  (h pid j e).0,
  elim (Bool-cases (k == j)) [
    | inl same ↦
        rw (find-modify k j f b.sessions, same)
          (Owned-Quiet f pid (find j b.sessions) q (h pid j e).1)
    | inr other ↦ rw (find-modify k j f b.sessions, other) (h pid j e).1
  ],
)

posting-Quiet : (p : Payload) → Quiet (posting p)
posting-Quiet p = record { closed = λ s. refl; pid = λ s. refl }

push_back-Quiet : Quiet push_back
unfolding push_back write_next
push_back-Quiet = record { closed = λ s. ground arith; pid = λ s. ground arith }

pop_front-Quiet : Quiet pop_front
unfolding pop_front write_next
pop_front-Quiet = record { closed = λ s. ground arith; pid = λ s. ground arith }

landed-Quiet : Quiet landed
landed-Quiet = record { closed = λ s. refl; pid = λ s. refl }

enqueue-Routed : (k : ℕ) (p : Payload) (b : Bus) → Routed b → Routed (enqueue_json k p b)
unfolding enqueue_json
enqueue-Routed k p b h = update-Routed k (posting p) b (posting-Quiet p) h

-- An open session takes over a pid.
abbrev taken : ℕ → Message → Bus → Bus
taken k msg b = record b {
  pid_sessions = insert msg.pid k b.pid_sessions;
  tree_root_pid_map = root_map msg b.tree_root_pid_map;
}

taken-Routed :
    (k : ℕ) (msg : Message) (b : Bus) (s : Session)
    → find k b.sessions ≡ some s
    → s.closed ≡ false
    → is_pos msg.pid ≡ true
    → Routed b
    → Routed (taken k msg b)
taken-Routed k msg b s here live positive h pid j e = elim (Bool-cases (msg.pid == pid)) [
  | inl same ↦
      ground (arith, find-insert msg.pid pid k b.pid_sessions, same, ==_iff msg.pid pid, here)
  | inr other ↦ h pid j (ground (arith, find-insert msg.pid pid k b.pid_sessions, other, e))
]

register-Routed :
    (k : ℕ) (msg : Message) (b : Bus) (s : Session)
    → find k b.sessions ≡ some s
    → s.closed ≡ false
    → Routed b
    → Routed (register_session k msg b)
unfolding register_session
register-Routed k msg b s here live h = elim (Bool-cases (is_pos msg.pid)) [
  | inr n ↦ rw n h
  | inl y ↦
      rw y (enqueue-Routed k registered (taken k msg b) (taken-Routed k msg b s here live y h))
]

relay-Routed :
    (source target : ℤ) (msg : Message) (b : Bus)
    → Routed b
    → Routed (relay_message source target msg b)
unfolding relay_message
relay-Routed source target msg b h = elim (Option-cases (find target b.pid_sessions)) [
  | inl n ↦ rw (n, relay_message) h
  | inr (k, n) ↦ rw (n, relay_message) (enqueue-Routed k (ipm_push source msg) b h)
]

forward-Routed :
    (k : ℕ) (supervisor : Option Str) (b : Bus)
    → Routed b
    → Routed (forward_heartbeat k supervisor b)
unfolding forward_heartbeat
forward-Routed k none b h = enqueue-Routed k unreachable b h
forward-Routed k (some payload) b h = enqueue-Routed k (answer payload) b h

handle_message-Routed :
    (k : ℕ) (pid : ℤ) (supervisor : Option Str) (msg : Message) (b : Bus) (s : Session)
    → find k b.sessions ≡ some s
    → s.closed ≡ false
    → Routed b
    → Routed (handle_message k pid supervisor msg b)
unfolding handle_message
handle_message-Routed k pid supervisor msg b s here live h =
    let target = resolve_target_pid msg msg.target_pid b in
    if_cases (Routed) (msg.message_type == codes "BUS_REGISTER") (register_session k msg b) _
      (register-Routed k msg b s here live h)
      (if_cases (Routed) (msg.message_type == codes "IPM_RELAY")
        (if is_pos target then relay_message pid target msg b else b) _
        (if_cases (Routed) (is_pos target) (relay_message pid target msg b) b
          (relay-Routed pid target msg b h) h)
        (if_cases (Routed) (msg.message_type == codes "HEARTBEAT")
          (forward_heartbeat k supervisor b) b (forward-Routed k supervisor b h) h))

-- What unregister leaves on record: it stood there, and not for this session under this pid.
unregister-find :
    (k : ℕ) (r pid : ℤ) (tree : Str) (b : Bus) (j : ℕ)
    → find pid (unregister_session k r tree b).pid_sessions ≡ some j
    → (find pid b.pid_sessions ≡ some j) × (is_pos pid ≡ true → k ≡ j → r ≢ pid)
unfolding unregister_session
unregister-find k r pid tree b j e = elim (Option-cases (find r b.pid_sessions)) [
  | inl n ↦ ground (arith, n, e)
  | inr (o, n) ↦ ground (arith, n, e, find-erase r pid b.pid_sessions, ==_iff o k, ==_iff r pid)
]

pub unregister-sessions :
    (k : ℕ) (r : ℤ) (tree : Str) (b : Bus) → (unregister_session k r tree b).sessions ≡ b.sessions
unfolding unregister_session
unregister-sessions k r tree b = ground arith

close-found :
    (k : ℕ) (s : Session) (b : Bus)
    → find k b.sessions ≡ some s
    → Routed b
    → Routed (unregister_session k s.registered_pid s.registered_tree_id (update k closing b))
close-found k s b n h pid j e =
    let r = s.registered_pid in
    let u = unregister-find k r pid s.registered_tree_id (update k closing b) j e in
    let before = h pid j u.0 in
    (
      before.0,
      rw
          (
            unregister-sessions k r s.registered_tree_id (update k closing b),
            find-modify k j closing b.sessions,
          )
          (elim (Bool-cases (k == j)) [
            | inl same ↦
                let found : find j b.sessions ≡ some s = ground (arith, n, same, ==_iff k j) in
                rw (same, found) (λ c. u.1 before.0 ((==_iff k j).0 same))
            | inr other ↦ rw other before.1
          ]),
    )

close-Routed : (k : ℕ) (b : Bus) → Routed b → Routed (close_on_strand k b)
unfolding close_on_strand
close-Routed k b h = elim (Option-cases (find k b.sessions)) [
  | inl n ↦ rw (n, close_on_strand) h
  | inr (s, n) ↦ elim (Bool-cases s.closed) [
    | inl c ↦ rw (n, c, close_on_strand) h
    | inr c ↦ rw (n, c, close_on_strand) (close-found k s b n h)
  ]
]

-- An open session that stays open may change in any other way, as it does when it notes a registration.
noting-Routed :
    (k : ℕ) (f : Session → Session) (b : Bus) (s : Session)
    → find k b.sessions ≡ some s
    → s.closed ≡ false
    → (f s).closed ≡ false
    → Routed b
    → Routed (update k f b)
noting-Routed k f b s here live open_still h pid j e = (
  (h pid j e).0,
  elim (Bool-cases (k == j)) [
    | inl same ↦
        let found : find j b.sessions ≡ some s = ground (arith, here, same, ==_iff k j) in
        rw (find-modify k j f b.sessions, same, found) (λ c. ground (arith, open_still, c))
    | inr other ↦ rw (find-modify k j f b.sessions, other) (h pid j e).1
  ],
)

accept-Routed : (k : ℕ) (b : Bus) → Routed b → Routed (accept k b)
unfolding accept
accept-Routed k b h = elim (Option-cases (find k b.sessions)) [
  | inr (s, n) ↦ rw (n, accept) h
  | inl n ↦
      rw (n, accept)
        (if_cases (Routed) b.running (record b { sessions = insert k new_session b.sessions }) b
          (λ pid j e. (
            (h pid j e).0,
            elim (Bool-cases (k == j)) [
              | inl same ↦
                  let gone : find j b.sessions ≡ none = ground (arith, n, same, ==_iff k j) in
                  elim (rw gone at (h pid j e).1) [ ]
              | inr other ↦ rw (find-insert k j new_session b.sessions, other) (h pid j e).1
            ],
          ))
          h)
]

stop-Routed : (b : Bus) → Routed b → Routed (stop b)
unfolding stop find
stop-Routed b h =
    if_cases (Routed) (not b.running) b
      (record b { pid_sessions = []; tree_root_pid_map = []; running = false }) h
      (λ pid k e. ground arith)

-- How the reads of a payload end.
pub Reading-cases :
    (r : Reading)
    → ((msg : Message) × (r ≡ whole msg))
      ⊎ ((r ≡ throws)
          ⊎ (((pid : ℤ) × (r ≡ throws_at_tree pid))
              ⊎ ((pid : ℤ) × (tree_id : Str) × (r ≡ throws_at_root pid tree_id))))
Reading-cases (whole msg) = inl (msg, refl)
Reading-cases throws = inr (inl refl)
Reading-cases (throws_at_tree pid) = inr (inr (inl (pid, refl)))
Reading-cases (throws_at_root pid tree_id) = inr (inr (inr (pid, tree_id, refl)))

module _ (parse : Str → Reading) where
  handle_payload-Routed :
      (k : ℕ) (supervisor : Option Str) (payload : Str) (b : Bus) (s : Session)
      → find k b.sessions ≡ some s
      → s.closed ≡ false
      → Routed b
      → Routed (handle_payload parse k supervisor payload b)
  unfolding handle_payload
  handle_payload-Routed k supervisor payload b s n c h = elim (Reading-cases (parse payload)) [
    | inr (inl p) ↦ rw (p, handle_payload) (close-Routed k b h)
    | inr (inr (inl (pid, p))) ↦
        rw (p, handle_payload)
          (close-Routed k (update k (noting_pid pid) b)
            (noting-Routed k (noting_pid pid) b s n c c h))
    | inr (inr (inr (pid, tree_id, p))) ↦
        rw (p, handle_payload)
          (close-Routed k (update k (noting_tree pid tree_id) b)
            (noting-Routed k (noting_tree pid tree_id) b s n c c h))
    | inl (msg, p) ↦
        let noted = update k (noting msg) b in
        let found : find k noted.sessions ≡ some (noting msg s) =
          ground (arith, find-modify k k (noting msg) b.sessions, ==_refl k, n) in
        rw (p, n, handle_payload)
          (handle_message-Routed k (noting msg s).registered_pid supervisor msg noted (noting msg s)
            found (ground (arith, c)) (noting-Routed k (noting msg) b s n c (ground (arith, c)) h))
  ]

  read-Routed :
      (k : ℕ) (supervisor : Option Str) (payload : Str) (b : Bus)
      → Routed b
      → Routed (read_frame parse k supervisor payload b)
  unfolding read_frame
  read-Routed k supervisor payload b h = elim (Option-cases (find k b.sessions)) [
    | inl n ↦ rw (n, read_frame) h
    | inr (s, n) ↦ elim (Bool-cases s.closed) [
      | inl c ↦ rw (n, c, read_frame) h
      | inr c ↦ rw (n, c, read_frame) (handle_payload-Routed k supervisor payload b s n c h)
    ]
  ]

  step-Routed : (b : Bus) (e : Event) → Routed b → Routed (step parse b e)
  unfolding step
  step-Routed b (accepts k) h = accept-Routed k b h
  step-Routed b (reads k supervisor payload) h = read-Routed k supervisor payload b h
  step-Routed b (fails k) h = close-Routed k b h
  step-Routed b (posts k) h = update-Routed k push_back b push_back-Quiet h
  step-Routed b (writes k) h = update-Routed k pop_front b pop_front-Quiet h
  step-Routed b (write_fails k) h =
      close-Routed k (update k landed b) (update-Routed k landed b landed-Quiet h)
  step-Routed b stops h = stop-Routed b h

  run-Routed : (b : Bus) (es : List Event) → Routed b → Routed (run parse b es)
  unfolding run
  run-Routed b [] h = h
  run-Routed b (e ∷ es) h = run-Routed (step parse b e) es (step-Routed b e h)

  -- Whatever happens to a new bus, in whatever order: each pid on record is positive and belongs to
  -- a session of the bus, and if that session has closed, then the pid is not the one that was read
  -- from the last BUS_REGISTER of the session, which need not be positive.
  pub bus_routes : (es : List Event) → Routed (run parse new_bus es)
  unfolding new_bus find
  bus_routes es = run-Routed new_bus es (λ pid k e. ground arith)
