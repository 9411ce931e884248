-- ===== src/Tests/BusTests.antt =====
-- The bus's theorems at a bus with a session of an agent, at the root of its tree.
use velix.Prelude.{
  pos, Str, none, some, true, false, List, [], ◌∷◌, ◌≡◌, refl, arith, codes, find, nat_eq, int_eq,
  str_eq,
}
use velix.Bus.{
  Reading, whole, throws_at_tree, Message, Session, Bus, registered, new_bus, register_session,
  close_on_strand, Event, accepts, reads, posts, fails, writes, stops, run,
}
use velix.Bus.Routing.{Routed, bus_routes}
use velix.Bus.Closing.{reconnect_loses_root}
use velix.Bus.Queues.{AllPaced, writes_paced}

abbrev registration : Message
registration = record {
  message_type = codes "BUS_REGISTER";
  pid = pos 1001;
  tree_id = codes "TREE_1";
  is_root = true;
  target_pid = pos 0;
  text = [];
}

-- Every payload is a registration, but the empty one has a broken tree.
abbrev parse : Str → Reading
parse [] = throws_at_tree (pos 7)
parse (c ∷ s) = whole registration

abbrev events : List Event
events =
    accepts 0
    ∷ reads 0 none (codes "{}")
    ∷ posts 0
    ∷ accepts 1
    ∷ reads 1 none (codes "{}")
    ∷ writes 0
    ∷ fails 0
    ∷ stops
    ∷ []

bus_routes_example : Routed (run parse new_bus events)
bus_routes_example = bus_routes parse events

writes_paced_example : AllPaced (run parse new_bus events)
writes_paced_example = writes_paced parse events

-- The agent's session, with the answer to its registration in flight.
abbrev session : Session
session = record {
  registered_pid = pos 1001;
  registered_tree_id = codes "TREE_1";
  registered_tree_root = true;
  closed = false;
  posted = [];
  write_queue = registered ∷ [];
  in_flight = true;
  written = [];
  overrun = false;
}

abbrev bus : Bus
bus = record {
  sessions = (0, session) ∷ (1, session) ∷ [];
  pid_sessions = (pos 1001, 0) ∷ [];
  tree_root_pid_map = (codes "TREE_1", pos 1001) ∷ [];
  running = true;
}

session_there : find 0 bus.sessions ≡ some session
unfolding find
session_there = refl

reconnect_loses_root_example :
    (find (pos 1001) (close_on_strand 0 (register_session 1 registration bus)).pid_sessions
      ≡ some 1)
    × (find
          (codes "TREE_1")
          (close_on_strand 0 (register_session 1 registration bus)).tree_root_pid_map
        ≡ none)
reconnect_loses_root_example =
    reconnect_loses_root bus 0 1 registration session session_there refl refl refl
      (λ e. omega (arith, e)) refl refl refl
