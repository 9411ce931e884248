-- ===== src/Executioner/Coalescer/Settling.antt =====
-- execution/executioner.cpp: PrepareCoalescer, when a leader settles its slot.
use velix.Prelude.{
  ℕ, Str, some, Bool, true, false, find, find-insert, nat_eq, str_eq, ==_iff, ◌==◌, Bool-cases, ◌≡◌,
  ◌<◌, arith, inl, inr,
}
use velix.Executioner.Coalescer.{SlotState, preparing, settle}
use velix.Executioner.Coalescer.Moves.{leads, System, after_settle}
use velix.Executioner.Coalescer.Invariant.{IsCoalesced}

settle-owner :
    (t : ℕ) (key : Str) (slot : ℕ) (state : SlotState) (s : System)
    → IsCoalesced s
    → find t s.threads ≡ some (leads false key slot)
    → (u : ℕ) (b : Bool) (k : Str) (l : ℕ)
    → find u (after_settle t key slot state s).threads ≡ some (leads b k l)
    → find k (after_settle t key slot state s).coalescer.map ≡ some l
unfolding settle
settle-owner t key slot state s v free u b k l h = ground (
  arith,
  v.owner u b k l,
  v.owner t false key slot,
  find-insert t u (leads true key slot) s.threads,
  ==_iff t u,
  h,
)

settle-sole :
    (t : ℕ) (key : Str) (slot : ℕ) (state : SlotState) (s : System)
    → IsCoalesced s
    → find t s.threads ≡ some (leads false key slot)
    → (u w : ℕ) (b c : Bool) (j k : Str) (l : ℕ)
    → find u (after_settle t key slot state s).threads ≡ some (leads b j l)
    → find w (after_settle t key slot state s).threads ≡ some (leads c k l)
    → u ≡ w
unfolding settle
settle-sole t key slot state s v free u w b c j k l h i = ground (
  arith,
  v.sole u w b c j k l,
  v.sole t w false c key k l,
  v.sole u t b false j key l,
  find-insert t u (leads true key slot) s.threads,
  ==_iff t u,
  find-insert t w (leads true key slot) s.threads,
  ==_iff t w,
  h,
  i,
)

settle-below :
    (t : ℕ) (key : Str) (slot : ℕ) (state : SlotState) (s : System)
    → IsCoalesced s
    → find t s.threads ≡ some (leads false key slot)
    → (u : ℕ) (b : Bool) (k : Str) (l : ℕ)
    → find u (after_settle t key slot state s).threads ≡ some (leads b k l)
    → l < (after_settle t key slot state s).coalescer.next
unfolding settle
settle-below t key slot state s v free u b k l h = ground (
  arith,
  v.below u b k l,
  v.below t false key slot,
  find-insert t u (leads true key slot) s.threads,
  ==_iff t u,
  h,
)

settle-open_slot :
    (t : ℕ) (key : Str) (slot : ℕ) (state : SlotState) (s : System)
    → IsCoalesced s
    → find t s.threads ≡ some (leads false key slot)
    → (u : ℕ) (k : Str) (l : ℕ)
    → find u (after_settle t key slot state s).threads ≡ some (leads false k l)
    → find l (after_settle t key slot state s).coalescer.slots ≡ some preparing
unfolding settle
settle-open_slot t key slot state s v free u k l h = ground (
  arith,
  v.open_slot u k l,
  v.sole t u false false key k l,
  find-insert t u (leads true key slot) s.threads,
  ==_iff t u,
  find-insert slot l state s.coalescer.slots,
  ==_iff slot l,
  h,
)

settle-made :
    (t : ℕ) (key : Str) (slot : ℕ) (state : SlotState) (s : System)
    → IsCoalesced s
    → find t s.threads ≡ some (leads false key slot)
    → (l : ℕ) (r : SlotState) → find l (after_settle t key slot state s).coalescer.slots ≡ some r
    → l < (after_settle t key slot state s).coalescer.next
unfolding settle
settle-made t key slot state s v free l r h = ground (
  arith,
  v.made l r,
  v.below t false key slot,
  find-insert slot l state s.coalescer.slots,
  ==_iff slot l,
  h,
)

settle-held :
    (t : ℕ) (key : Str) (slot : ℕ) (state : SlotState) (s : System)
    → IsCoalesced s
    → find t s.threads ≡ some (leads false key slot)
    → (k : Str) (l : ℕ) → find k (after_settle t key slot state s).coalescer.map ≡ some l
    → (u : ℕ) × ((b : Bool) × (find u (after_settle t key slot state s).threads
          ≡ some (leads b k l)))
unfolding settle
settle-held t key slot state s v free k l h =
    let o = v.held k l h in
    elim (Bool-cases (t == o.0)) [
      | inl e ↦ (
        t,
        (
          true,
          ground (
            arith,
            e,
            o.1.1,
            free,
            ==_iff t o.0,
            ==_iff t t,
            find-insert t t (leads true key slot) s.threads,
          ),
        ),
      )
      | inr e ↦ (
        o.0,
        (o.1.0, ground (arith, e, o.1.1, find-insert t o.0 (leads true key slot) s.threads)),
      )
    ]

pub settle-IsCoalesced :
    (t : ℕ) (key : Str) (slot : ℕ) (state : SlotState) (s : System)
    → IsCoalesced s
    → find t s.threads ≡ some (leads false key slot)
    → IsCoalesced (after_settle t key slot state s)
settle-IsCoalesced t key slot state s v free = record {
  owner = settle-owner t key slot state s v free;
  sole = settle-sole t key slot state s v free;
  below = settle-below t key slot state s v free;
  open_slot = settle-open_slot t key slot state s v free;
  made = settle-made t key slot state s v free;
  held = settle-held t key slot state s v free;
}
