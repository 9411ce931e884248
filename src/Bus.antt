-- ===== src/Bus.antt =====
-- core/bus.cpp: BusService and BusSession. A session is a number, in the order of acceptance. The
-- fields of a message are what msg.value reads, with its defaults; `parse` stands for json::parse
-- with those reads, and says where they throw. A frame in a queue is its payload (see Framing). A handler that runs on a session's strand
-- is one step.
pub mod Routing
pub mod Closing
pub mod Queues
use velix.Prelude.{
  ℕ, ◌+◌, ℤ, pos, negsuc, is_pos, Str, Map, Option, none, some, Bool, true, false, not, ◌&&◌, ◌||◌,
  ◌++◌, List, [], ◌∷◌, if◌then◌else◌, is_empty, find, insert, erase, modify, ◌==◌, nat_eq, int_eq,
  str_eq, codes,
}

pub record Message : Type 0 where
  pub message_type : Str
  pub pid : ℤ
  pub tree_id : Str
  pub is_root : Bool
  pub target_pid : ℤ
  pub text : Str

-- What the reads of a payload bring: the message; or an exception, which a registration may meet at
-- its tree, with its pid read, or at its root flag, with its pid and its tree read.
pub data Reading : Type 0 where
  whole : Message → Reading
  throws : Reading
  throws_at_tree : ℤ → Reading
  throws_at_root : ℤ → Str → Reading

-- The payloads that the bus sends: the answer to a registration, a message pushed from a pid, the
-- supervisor's answer to a heartbeat, and the answer when it cannot be reached.
pub data Payload : Type 0 where
  registered : Payload
  ipm_push : ℤ → Message → Payload
  answer : Str → Payload
  unreachable : Payload

pub record Session : Type 0 where
  pub registered_pid : ℤ
  pub registered_tree_id : Str
  pub registered_tree_root : Bool
  pub closed : Bool
  -- Posted to the strand and not run yet; the frames not yet written.
  pub posted : List Payload
  pub write_queue : List Payload
  -- A write was started whose completion has not run yet; the frames written, the last one first.
  pub in_flight : Bool
  pub written : List Payload
  -- pop_front ran on an empty queue, which is undefined behaviour.
  pub overrun : Bool

pub record Bus : Type 0 where
  pub sessions : Map ℕ Session
  pub pid_sessions : Map ℤ ℕ
  pub tree_root_pid_map : Map Str ℤ
  pub running : Bool

unfoldable pub new_session : Session
new_session = record {
  registered_pid = negsuc 0;
  registered_tree_id = [];
  registered_tree_root = false;
  closed = false;
  posted = [];
  write_queue = [];
  in_flight = false;
  written = [];
  overrun = false;
}

unfoldable pub new_bus : Bus
new_bus = record { sessions = []; pid_sessions = []; tree_root_pid_map = []; running = true }

abbrev pub update : ℕ → (Session → Session) → Bus → Bus
update k f b = record b { sessions = modify k f b.sessions }

-- enqueue_json: a post to the session's strand.
abbrev pub posting : Payload → Session → Session
posting p s = record s { posted = s.posted ++ (p ∷ []) }

unfoldable pub enqueue_json : ℕ → Payload → Bus → Bus
enqueue_json k p b = update k (posting p) b

-- write_next: a write starts unless the queue is empty or the session closed.
unfoldable pub write_next : Session → Session
write_next s = if is_empty s.write_queue || s.closed then s else record s { in_flight = true }

-- The posted handler: it appends the frame; a write starts if the queue was empty.
unfoldable pub push_back : Session → Session
unfolding write_next
push_back s = elim s.posted [
  | [] ↦ s
  | p ∷ ps ↦
      (let pushed = record s { posted = ps; write_queue = s.write_queue ++ (p ∷ []) } in
        if is_empty s.write_queue then write_next pushed else pushed)
]

-- The completion, without error, of the write in flight: pop_front and write_next.
unfoldable pub pop_front : Session → Session
unfolding write_next
pop_front s = if not s.in_flight then s else elim s.write_queue [
  | [] ↦ record s { in_flight = false; overrun = true }
  | p ∷ ps ↦ write_next (record s { write_queue = ps; in_flight = false; written = p ∷ s.written })
]

-- msg.pid > 0 and a non-empty tree at its root name the pid as the tree's.
abbrev pub root_map : Message → Map Str ℤ → Map Str ℤ
root_map msg m =
    if msg.is_root && not (is_empty msg.tree_id) then insert msg.tree_id msg.pid m else m

unfoldable pub register_session : ℕ → Message → Bus → Bus
unfolding enqueue_json
register_session k msg b =
    if not (is_pos msg.pid)
    then b
    else enqueue_json k registered (record b {
      pid_sessions = insert msg.pid k b.pid_sessions;
      tree_root_pid_map = root_map msg b.tree_root_pid_map;
    })

unfoldable pub tree_handler : Str
tree_handler = codes "TREE_HANDLER"

unfoldable pub resolve_target_pid : Message → ℤ → Bus → ℤ
unfolding tree_handler
resolve_target_pid msg requested b =
    if not (requested == negsuc 0)
    then requested
    else elim (find tree_handler b.tree_root_pid_map) [
      | some pid ↦ pid
      | none ↦ elim (find msg.tree_id b.tree_root_pid_map) [ some pid ↦ pid | none ↦ negsuc 0 ]
    ]

unfoldable pub relay_message : ℤ → ℤ → Message → Bus → Bus
unfolding enqueue_json
relay_message source_pid target_pid msg b = elim (find target_pid b.pid_sessions) [
  | none ↦ b
  | some k ↦ enqueue_json k (ipm_push source_pid msg) b
]

-- What forward_heartbeat_to_supervisor brings back: the supervisor's payload, or none.
unfoldable pub forward_heartbeat : ℕ → Option Str → Bus → Bus
unfolding enqueue_json
forward_heartbeat k none b = enqueue_json k unreachable b
forward_heartbeat k (some payload) b = enqueue_json k (answer payload) b

-- handle_message, for a session with this registered pid.
unfoldable pub handle_message : ℕ → ℤ → Option Str → Message → Bus → Bus
unfolding register_session resolve_target_pid relay_message forward_heartbeat
handle_message k registered_pid supervisor msg b =
    if msg.message_type == codes "BUS_REGISTER"
    then register_session k msg b
    else if msg.message_type == codes "IPM_RELAY"
    then (let target_pid = resolve_target_pid msg msg.target_pid b in
        if is_pos target_pid then relay_message registered_pid target_pid msg b else b)
    else if msg.message_type == codes "HEARTBEAT"
    then forward_heartbeat k supervisor b
    else b

unfoldable pub unregister_session : ℕ → ℤ → Str → Bus → Bus
unregister_session k pid tree_id b = if not (is_pos pid) then b else record b {
  pid_sessions = elim (find pid b.pid_sessions) [
    | none ↦ b.pid_sessions
    | some owner ↦ if owner == k then erase pid b.pid_sessions else b.pid_sessions
  ];
  tree_root_pid_map =
      if is_empty tree_id then b.tree_root_pid_map else elim (find tree_id b.tree_root_pid_map) [
        | none ↦ b.tree_root_pid_map
        | some root ↦ if root == pid then erase tree_id b.tree_root_pid_map else b.tree_root_pid_map
      ];
}

abbrev pub closing : Session → Session
closing s = record s { closed = true; write_queue = [] }

unfoldable pub close_on_strand : ℕ → Bus → Bus
unfolding unregister_session
close_on_strand k b = elim (find k b.sessions) [
  | none ↦ b
  | some s ↦
      if s.closed
      then b
      else unregister_session k s.registered_pid s.registered_tree_id (update k closing b)
]

-- The completion of a write with an error: no write is in flight any more.
abbrev pub landed : Session → Session
landed s = record s { in_flight = false }

-- The pid, the tree and the root flag that BUS_REGISTER writes, before handle_message.
abbrev pub noting : Message → Session → Session
noting msg s =
    if msg.message_type == codes "BUS_REGISTER"
    then record s {
      registered_pid = msg.pid;
      registered_tree_id = msg.tree_id;
      registered_tree_root = msg.is_root;
    }
    else s

-- What a registration writes before the read of its tree, or of its root flag, throws.
abbrev pub noting_pid : ℤ → Session → Session
noting_pid pid s = record s { registered_pid = pid }

abbrev pub noting_tree : ℤ → Str → Session → Session
noting_tree pid tree_id s = record s { registered_pid = pid; registered_tree_id = tree_id }

-- handle_payload; `supervisor` is what the heartbeat's forwarding brings back.
unfoldable pub handle_payload : (Str → Reading) → ℕ → Option Str → Str → Bus → Bus
unfolding handle_message close_on_strand
handle_payload parse k supervisor payload b = elim (parse payload) [
  | throws ↦ close_on_strand k b
  | throws_at_tree pid ↦ close_on_strand k (update k (noting_pid pid) b)
  | throws_at_root pid tree_id ↦ close_on_strand k (update k (noting_tree pid tree_id) b)
  | whole msg ↦ elim (find k b.sessions) [
    | none ↦ b
    | some s ↦
        handle_message k (noting msg s).registered_pid supervisor msg (update k (noting msg) b)
  ]
]

-- A completed read: an open session handles the payload.
unfoldable pub read_frame : (Str → Reading) → ℕ → Option Str → Str → Bus → Bus
unfolding handle_payload
read_frame parse k supervisor payload b = elim (find k b.sessions) [
  | none ↦ b
  | some s ↦ if s.closed then b else handle_payload parse k supervisor payload b
]

-- stop: the tables are emptied; the sessions' close comes with later steps.
unfoldable pub stop : Bus → Bus
stop b =
    if not b.running
    then b
    else record b { pid_sessions = []; tree_root_pid_map = []; running = false }

-- A step: a connection is accepted; a read completes, or fails (or the close that stop posts
-- runs); a posted frame is queued; a write completes, or fails; the bus stops.
pub data Event : Type 0 where
  accepts : ℕ → Event
  reads : ℕ → Option Str → Str → Event
  fails : ℕ → Event
  posts : ℕ → Event
  writes : ℕ → Event
  write_fails : ℕ → Event
  stops : Event

-- accept_next: a new session, with a number not in use, while the bus runs.
unfoldable pub accept : ℕ → Bus → Bus
unfolding new_session
accept k b = elim (find k b.sessions) [
  | some s ↦ b
  | none ↦ if b.running then record b { sessions = insert k new_session b.sessions } else b
]

module _ (parse : Str → Reading) where
  unfoldable pub step : Bus → Event → Bus
  unfolding read_frame accept stop close_on_strand push_back pop_front
  step b (accepts k) = accept k b
  step b (reads k supervisor payload) = read_frame parse k supervisor payload b
  step b (fails k) = close_on_strand k b
  step b (posts k) = update k push_back b
  step b (writes k) = update k pop_front b
  step b (write_fails k) = close_on_strand k (update k landed b)
  step b stops = stop b

  unfoldable pub run : Bus → List Event → Bus
  unfolding step
  run b [] = b
  run b (e ∷ es) = run (step b e) es
