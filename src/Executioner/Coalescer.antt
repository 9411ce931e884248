-- ===== src/Executioner/Coalescer.antt =====
-- execution/executioner.cpp: PrepareCoalescer, with the threads that use it. A slot is a number, as
-- the shared pointers are; each locked section is a step, so that other threads come in between the
-- two sections of finish and of fail.
pub mod Moves
pub mod Invariant
pub mod Entering
pub mod Settling
pub mod Erasing
pub mod Waiting
pub mod Exclusion
use velix.Prelude.{
  ℕ, zero, suc, Str, Option, none, some, Bool, true, false, Map, find, insert, erase, nat_eq,
  str_eq, [],
}

-- PrepareSlot: the state, with the error of a failed one.
pub data SlotState : Type 0 where
  preparing ready : SlotState
  failed : Str → SlotState

pub record Coalescer : Type 0 where
  pub map : Map Str ℕ
  pub slots : Map ℕ SlotState
  pub next : ℕ

abbrev pub new_coalescer : Coalescer
new_coalescer = record { map = []; slots = []; next = 0 }

-- The slot of the key, and whether the caller leads.
unfoldable pub enter : Str → Coalescer → (ℕ × Bool) × Coalescer
unfolding find insert
enter key c = elim (find key c.map) [
  | some slot ↦ ((slot, false), c)
  | none ↦ (
    (c.next, true),
    record {
      map = insert key c.next c.map;
      slots = insert c.next preparing c.slots;
      next = suc c.next;
    },
  )
]

-- The first section of finish and of fail.
unfoldable pub settle : ℕ → SlotState → Coalescer → Coalescer
unfolding insert
settle slot state c = record { map = c.map; slots = insert slot state c.slots; next = c.next }

-- The second section of both.
unfoldable pub erase_key : Str → Coalescer → Coalescer
unfolding erase
erase_key key c = record { map = erase key c.map; slots = c.slots; next = c.next }

-- The answer of wait at its deadline, and before it: none while it goes on waiting.
pub data Answer : Type 0 where
  is_ready : Answer
  has_failed : Str → Answer
  peer_timeout : Answer

unfoldable pub wait : Bool → Option SlotState → Option Answer
wait expired (some ready) = some is_ready
wait expired (some (failed e)) = some (has_failed e)
wait true _ = some peer_timeout
wait false _ = none

-- finish and fail, as a thread runs them without another in between.
unfoldable pub finish : Str → ℕ → Coalescer → Coalescer
unfolding settle erase_key
finish key slot c = erase_key key (settle slot ready c)

unfoldable pub fail : Str → ℕ → Str → Coalescer → Coalescer
unfolding settle erase_key
fail key slot error c = erase_key key (settle slot (failed error) c)
