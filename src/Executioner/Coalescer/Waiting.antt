-- ===== src/Executioner/Coalescer/Waiting.antt =====
-- execution/executioner.cpp: PrepareCoalescer, when a thread has its answer.
use velix.Prelude.{
  ℕ, Str, some, Bool, false, find, find-insert, nat_eq, str_eq, ==_iff, ◌≡◌, ◌<◌, arith,
}
use velix.Executioner.Coalescer.{SlotState, preparing, Answer}
use velix.Executioner.Coalescer.Moves.{leads, waits, answered, System, after_wait}
use velix.Executioner.Coalescer.Invariant.{IsCoalesced}

wait-owner :
    (t slot : ℕ) (answer : Answer) (s : System)
    → IsCoalesced s
    → find t s.threads ≡ some (waits slot)
    → (u : ℕ) (b : Bool) (k : Str) (l : ℕ)
    → find u (after_wait t answer s).threads ≡ some (leads b k l)
    → find k (after_wait t answer s).coalescer.map ≡ some l
wait-owner t slot answer s v free u b k l h =
    ground (arith, v.owner u b k l, find-insert t u (answered answer) s.threads, ==_iff t u, h)

wait-sole :
    (t slot : ℕ) (answer : Answer) (s : System)
    → IsCoalesced s
    → find t s.threads ≡ some (waits slot)
    → (u w : ℕ) (b c : Bool) (j k : Str) (l : ℕ)
    → find u (after_wait t answer s).threads ≡ some (leads b j l)
    → find w (after_wait t answer s).threads ≡ some (leads c k l)
    → u ≡ w
wait-sole t slot answer s v free u w b c j k l h i = ground (
  arith,
  v.sole u w b c j k l,
  find-insert t u (answered answer) s.threads,
  ==_iff t u,
  find-insert t w (answered answer) s.threads,
  ==_iff t w,
  h,
  i,
)

wait-below :
    (t slot : ℕ) (answer : Answer) (s : System)
    → IsCoalesced s
    → find t s.threads ≡ some (waits slot)
    → (u : ℕ) (b : Bool) (k : Str) (l : ℕ)
    → find u (after_wait t answer s).threads ≡ some (leads b k l)
    → l < (after_wait t answer s).coalescer.next
wait-below t slot answer s v free u b k l h =
    ground (arith, v.below u b k l, find-insert t u (answered answer) s.threads, ==_iff t u, h)

wait-open_slot :
    (t slot : ℕ) (answer : Answer) (s : System)
    → IsCoalesced s
    → find t s.threads ≡ some (waits slot)
    → (u : ℕ) (k : Str) (l : ℕ) → find u (after_wait t answer s).threads ≡ some (leads false k l)
    → find l (after_wait t answer s).coalescer.slots ≡ some preparing
wait-open_slot t slot answer s v free u k l h =
    ground (arith, v.open_slot u k l, find-insert t u (answered answer) s.threads, ==_iff t u, h)

wait-made :
    (t slot : ℕ) (answer : Answer) (s : System)
    → IsCoalesced s
    → find t s.threads ≡ some (waits slot)
    → (l : ℕ) (r : SlotState) → find l (after_wait t answer s).coalescer.slots ≡ some r
    → l < (after_wait t answer s).coalescer.next
wait-made t slot answer s v free l r h = ground (arith, v.made l r, h)

wait-held :
    (t slot : ℕ) (answer : Answer) (s : System)
    → IsCoalesced s
    → find t s.threads ≡ some (waits slot)
    → (k : Str) (l : ℕ) → find k (after_wait t answer s).coalescer.map ≡ some l
    → (u : ℕ) × ((b : Bool) × (find u (after_wait t answer s).threads ≡ some (leads b k l)))
wait-held t slot answer s v free k l h =
    let o = v.held k l h in
    (
      o.0,
      (
        o.1.0,
        ground (arith, o.1.1, free, ==_iff t o.0, find-insert t o.0 (answered answer) s.threads),
      ),
    )

pub wait-IsCoalesced :
    (t slot : ℕ) (answer : Answer) (s : System)
    → IsCoalesced s
    → find t s.threads ≡ some (waits slot)
    → IsCoalesced (after_wait t answer s)
wait-IsCoalesced t slot answer s v free = record {
  owner = wait-owner t slot answer s v free;
  sole = wait-sole t slot answer s v free;
  below = wait-below t slot answer s v free;
  open_slot = wait-open_slot t slot answer s v free;
  made = wait-made t slot answer s v free;
  held = wait-held t slot answer s v free;
}
