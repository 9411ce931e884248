-- ===== src/Executioner/Coalescer/Exclusion.antt =====
-- execution/executioner.cpp: what holds of PrepareCoalescer in every state that its threads reach.
use velix.Prelude.{ℕ, Str, some, Bool, find, find-insert, nat_eq, str_eq, ==_iff, ◌≡◌, ◌≢◌, arith}
use velix.Executioner.Coalescer.{SlotState, preparing, enter, settle, erase_key}
use velix.Executioner.Coalescer.Moves.{
  leads, System, idle, Move, enters, settles, erases, wakes, Reachable, start, later,
}
use velix.Executioner.Coalescer.Invariant.{IsCoalesced}
use velix.Executioner.Coalescer.Entering.{enter-IsCoalesced}
use velix.Executioner.Coalescer.Settling.{settle-IsCoalesced}
use velix.Executioner.Coalescer.Erasing.{erase-IsCoalesced}
use velix.Executioner.Coalescer.Waiting.{wait-IsCoalesced}

idle-IsCoalesced : IsCoalesced idle
unfolding find
idle-IsCoalesced = record {
  owner = λ t b key slot h. ground (arith, h);
  sole = λ t u b c j k slot h i. ground (arith, h);
  below = λ t b key slot h. ground (arith, h);
  open_slot = λ t key slot h. ground (arith, h);
  made = λ slot state h. ground (arith, h);
  held = λ key slot h. absurd (ground (arith, h));
}

-- In every state that is reached, a leader's key stands in the map with its slot, no other thread
-- leads the slot, the slot is preparing until its leader settles it, and each key in the map has a
-- leader, who is still to erase it.
pub reachable-IsCoalesced : {s : System} → Reachable s → IsCoalesced s
reachable-IsCoalesced start = idle-IsCoalesced
reachable-IsCoalesced (later {s} r (enters t key free)) =
    enter-IsCoalesced t key s (reachable-IsCoalesced r) free
reachable-IsCoalesced (later {s} r (settles t key slot state h n)) =
    settle-IsCoalesced t key slot state s (reachable-IsCoalesced r) h
reachable-IsCoalesced (later {s} r (erases t key slot h)) =
    erase-IsCoalesced t key slot s (reachable-IsCoalesced r) h
reachable-IsCoalesced (later {s} r (wakes t slot expired answer h w)) =
    wait-IsCoalesced t slot answer s (reachable-IsCoalesced r) h

-- At most one thread at a time prepares a cache key, whatever the order of the steps.
pub one_leader :
    (s : System) (t u : ℕ) (b c : Bool) (key : Str) (l m : ℕ)
    → Reachable s
    → find t s.threads ≡ some (leads b key l)
    → find u s.threads ≡ some (leads c key m)
    → t ≡ u
one_leader s t u b c key l m r h k =
    let v = reachable-IsCoalesced r in
    v.sole t u b c key key l h (ground (arith, v.owner t b key l h, v.owner u c key m k, k))

-- A slot that its leader has settled keeps its state, so that every thread that waits for it gets the
-- leader's result, or gives up at its deadline.
pub settled_slot_stays :
    {s s' : System} (slot : ℕ) (state : SlotState)
    → Reachable s
    → Move s s'
    → find slot s.coalescer.slots ≡ some state
    → state ≢ preparing
    → find slot s'.coalescer.slots ≡ some state
unfolding enter settle erase_key
settled_slot_stays {s} slot state r (enters t key free) h n =
    let v = reachable-IsCoalesced r in
    ground (
      arith,
      v.made slot state,
      find-insert s.coalescer.next slot preparing s.coalescer.slots,
      ==_iff s.coalescer.next slot,
      h,
    )
settled_slot_stays {s} slot state r (settles t key l result free k) h n =
    let v = reachable-IsCoalesced r in
    ground
      (arith, v.open_slot t key l, find-insert l slot result s.coalescer.slots, ==_iff l slot, h, n)
settled_slot_stays slot state r (erases t key l free) h n = h
settled_slot_stays slot state r (wakes t l expired answer free w) h n = h
