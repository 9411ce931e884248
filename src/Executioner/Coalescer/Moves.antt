-- ===== src/Executioner/Coalescer/Moves.antt =====
-- execution/executioner.cpp: the steps of the threads that prepare. A thread enters, and then leads
-- or waits; a leader settles its slot and then erases its key.
use velix.Prelude.{
  ℕ, Str, none, some, Bool, true, false, Map, find, insert, nat_eq, str_eq, [], ◌≡◌, ◌≢◌,
}
use velix.Executioner.Coalescer.{
  SlotState, preparing, Coalescer, new_coalescer, enter, settle, erase_key, Answer, wait,
}

-- What a thread does: it leads, and has settled its slot or not; it waits; it has its answer.
pub data Phase : Type 0 where
  leads : Bool → Str → ℕ → Phase
  waits : ℕ → Phase
  answered : Answer → Phase

pub record System : Type 0 where
  pub coalescer : Coalescer
  pub threads : Map ℕ Phase

abbrev pub idle : System
idle = record { coalescer = new_coalescer; threads = [] }

abbrev pub entered : Str → ℕ × Bool → Phase
entered key (slot, true) = leads false key slot
entered key (slot, false) = waits slot

abbrev pub after_enter : ℕ → Str → System → System
after_enter t key s = record {
  coalescer = (enter key s.coalescer).1;
  threads = insert t (entered key (enter key s.coalescer).0) s.threads;
}

abbrev pub after_settle : ℕ → Str → ℕ → SlotState → System → System
after_settle t key slot state s = record {
  coalescer = settle slot state s.coalescer;
  threads = insert t (leads true key slot) s.threads;
}

-- The leader is back at its caller, and its number is free for the next request.
abbrev pub after_erase : ℕ → Str → System → System
after_erase t key s = record {
  coalescer = erase_key key s.coalescer;
  threads = insert t (answered Answer.is_ready) s.threads;
}

abbrev pub after_wait : ℕ → Answer → System → System
after_wait t answer s = record {
  coalescer = s.coalescer;
  threads = insert t (answered answer) s.threads;
}

pub data Move (s : System) : System → Type 0 where
  enters : (t : ℕ) (key : Str) → find t s.threads ≡ none → Move s (after_enter t key s)
  settles :
      (t : ℕ) (key : Str) (slot : ℕ) (state : SlotState)
      → find t s.threads ≡ some (leads false key slot)
      → state ≢ preparing
      → Move s (after_settle t key slot state s)
  erases :
      (t : ℕ) (key : Str) (slot : ℕ)
      → find t s.threads ≡ some (leads true key slot)
      → Move s (after_erase t key s)
  wakes :
      (t slot : ℕ) (expired : Bool) (answer : Answer)
      → find t s.threads ≡ some (waits slot)
      → wait expired (find slot s.coalescer.slots) ≡ some answer
      → Move s (after_wait t answer s)

pub data Reachable : System → Type 0 where
  start : Reachable idle
  later : {s t : System} → Reachable s → Move s t → Reachable t
