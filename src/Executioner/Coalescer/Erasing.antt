-- ===== src/Executioner/Coalescer/Erasing.antt =====
-- execution/executioner.cpp: PrepareCoalescer, when a leader erases its key.
use velix.Prelude.{
  ℕ, Str, some, Bool, true, false, find, find-insert, find-erase, nat_eq, str_eq, ==_iff, ◌≡◌, ◌<◌,
  arith,
}
use velix.Executioner.Coalescer.{SlotState, preparing, erase_key, is_ready}
use velix.Executioner.Coalescer.Moves.{leads, answered, System, after_erase}
use velix.Executioner.Coalescer.Invariant.{IsCoalesced}

erase-owner :
    (t : ℕ) (key : Str) (slot : ℕ) (s : System)
    → IsCoalesced s
    → find t s.threads ≡ some (leads true key slot)
    → (u : ℕ) (b : Bool) (k : Str) (l : ℕ)
    → find u (after_erase t key s).threads ≡ some (leads b k l)
    → find k (after_erase t key s).coalescer.map ≡ some l
unfolding erase_key
erase-owner t key slot s v free u b k l h = ground (
  arith,
  v.owner u b k l,
  v.owner t true key slot,
  v.sole t u true b key k l,
  find-insert t u (answered is_ready) s.threads,
  ==_iff t u,
  find-erase key k s.coalescer.map,
  ==_iff key k,
  h,
)

erase-sole :
    (t : ℕ) (key : Str) (slot : ℕ) (s : System)
    → IsCoalesced s
    → find t s.threads ≡ some (leads true key slot)
    → (u w : ℕ) (b c : Bool) (j k : Str) (l : ℕ)
    → find u (after_erase t key s).threads ≡ some (leads b j l)
    → find w (after_erase t key s).threads ≡ some (leads c k l)
    → u ≡ w
unfolding erase_key
erase-sole t key slot s v free u w b c j k l h i = ground (
  arith,
  v.sole u w b c j k l,
  find-insert t u (answered is_ready) s.threads,
  ==_iff t u,
  find-insert t w (answered is_ready) s.threads,
  ==_iff t w,
  h,
  i,
)

erase-below :
    (t : ℕ) (key : Str) (slot : ℕ) (s : System)
    → IsCoalesced s
    → find t s.threads ≡ some (leads true key slot)
    → (u : ℕ) (b : Bool) (k : Str) (l : ℕ)
    → find u (after_erase t key s).threads ≡ some (leads b k l)
    → l < (after_erase t key s).coalescer.next
unfolding erase_key
erase-below t key slot s v free u b k l h =
    ground (arith, v.below u b k l, find-insert t u (answered is_ready) s.threads, ==_iff t u, h)

erase-open_slot :
    (t : ℕ) (key : Str) (slot : ℕ) (s : System)
    → IsCoalesced s
    → find t s.threads ≡ some (leads true key slot)
    → (u : ℕ) (k : Str) (l : ℕ) → find u (after_erase t key s).threads ≡ some (leads false k l)
    → find l (after_erase t key s).coalescer.slots ≡ some preparing
unfolding erase_key
erase-open_slot t key slot s v free u k l h =
    ground (arith, v.open_slot u k l, find-insert t u (answered is_ready) s.threads, ==_iff t u, h)

erase-made :
    (t : ℕ) (key : Str) (slot : ℕ) (s : System)
    → IsCoalesced s
    → find t s.threads ≡ some (leads true key slot)
    → (l : ℕ) (r : SlotState) → find l (after_erase t key s).coalescer.slots ≡ some r
    → l < (after_erase t key s).coalescer.next
unfolding erase_key
erase-made t key slot s v free l r h = ground (arith, v.made l r, h)

erase-held :
    (t : ℕ) (key : Str) (slot : ℕ) (s : System)
    → IsCoalesced s
    → find t s.threads ≡ some (leads true key slot)
    → (k : Str) (l : ℕ) → find k (after_erase t key s).coalescer.map ≡ some l
    → (u : ℕ) × ((b : Bool) × (find u (after_erase t key s).threads ≡ some (leads b k l)))
unfolding erase_key
erase-held t key slot s v free k l h =
    let map_law = find-erase key k s.coalescer.map in
    let o = v.held k l (ground (arith, h, map_law)) in
    (
      o.0,
      (
        o.1.0,
        ground (
          arith,
          o.1.1,
          free,
          h,
          map_law,
          ==_iff key k,
          ==_iff t o.0,
          find-insert t o.0 (answered is_ready) s.threads,
        ),
      ),
    )

pub erase-IsCoalesced :
    (t : ℕ) (key : Str) (slot : ℕ) (s : System)
    → IsCoalesced s
    → find t s.threads ≡ some (leads true key slot)
    → IsCoalesced (after_erase t key s)
erase-IsCoalesced t key slot s v free = record {
  owner = erase-owner t key slot s v free;
  sole = erase-sole t key slot s v free;
  below = erase-below t key slot s v free;
  open_slot = erase-open_slot t key slot s v free;
  made = erase-made t key slot s v free;
  held = erase-held t key slot s v free;
}
