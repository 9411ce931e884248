-- ===== src/Executioner/Coalescer/Entering.antt =====
-- execution/executioner.cpp: PrepareCoalescer, when a thread enters.
use velix.Prelude.{
  ℕ, Str, none, some, Bool, false, find, find-insert, nat_eq, str_eq, ==_iff, ◌==◌, Bool-cases, ◌≡◌,
  ◌<◌, arith, Option-cases, inl, inr,
}
use velix.Executioner.Coalescer.{SlotState, preparing, enter}
use velix.Executioner.Coalescer.Moves.{leads, System, entered, after_enter}
use velix.Executioner.Coalescer.Invariant.{IsCoalesced}

enter-owner :
    (t : ℕ) (key : Str) (s : System)
    → IsCoalesced s
    → find t s.threads ≡ none
    → (u : ℕ) (b : Bool) (k : Str) (l : ℕ)
    → find u (after_enter t key s).threads ≡ some (leads b k l)
    → find k (after_enter t key s).coalescer.map ≡ some l
unfolding enter
enter-owner t key s v free u b k l h = ground (
  arith,
  v.owner u b k l,
  find-insert t u (entered key (enter key s.coalescer).0) s.threads,
  ==_iff t u,
  find-insert key k s.coalescer.next s.coalescer.map,
  ==_iff key k,
  h,
)

enter-sole :
    (t : ℕ) (key : Str) (s : System)
    → IsCoalesced s
    → find t s.threads ≡ none
    → (u w : ℕ) (b c : Bool) (j k : Str) (l : ℕ)
    → find u (after_enter t key s).threads ≡ some (leads b j l)
    → find w (after_enter t key s).threads ≡ some (leads c k l)
    → u ≡ w
unfolding enter
enter-sole t key s v free u w b c j k l h i = ground (
  arith,
  v.sole u w b c j k l,
  v.below u b j l,
  v.below w c k l,
  find-insert t u (entered key (enter key s.coalescer).0) s.threads,
  ==_iff t u,
  find-insert t w (entered key (enter key s.coalescer).0) s.threads,
  ==_iff t w,
  h,
  i,
)

enter-below :
    (t : ℕ) (key : Str) (s : System)
    → IsCoalesced s
    → find t s.threads ≡ none
    → (u : ℕ) (b : Bool) (k : Str) (l : ℕ)
    → find u (after_enter t key s).threads ≡ some (leads b k l)
    → l < (after_enter t key s).coalescer.next
unfolding enter
enter-below t key s v free u b k l h = ground (
  arith,
  v.below u b k l,
  find-insert t u (entered key (enter key s.coalescer).0) s.threads,
  ==_iff t u,
  h,
)

enter-open_slot :
    (t : ℕ) (key : Str) (s : System)
    → IsCoalesced s
    → find t s.threads ≡ none
    → (u : ℕ) (k : Str) (l : ℕ) → find u (after_enter t key s).threads ≡ some (leads false k l)
    → find l (after_enter t key s).coalescer.slots ≡ some preparing
unfolding enter
enter-open_slot t key s v free u k l h = ground (
  arith,
  v.open_slot u k l,
  v.below u false k l,
  find-insert t u (entered key (enter key s.coalescer).0) s.threads,
  ==_iff t u,
  find-insert s.coalescer.next l preparing s.coalescer.slots,
  ==_iff s.coalescer.next l,
  h,
)

enter-made :
    (t : ℕ) (key : Str) (s : System)
    → IsCoalesced s
    → find t s.threads ≡ none
    → (l : ℕ) (r : SlotState) → find l (after_enter t key s).coalescer.slots ≡ some r
    → l < (after_enter t key s).coalescer.next
unfolding enter
enter-made t key s v free l r h = ground (
  arith,
  v.made l r,
  find-insert s.coalescer.next l preparing s.coalescer.slots,
  ==_iff s.coalescer.next l,
  h,
)

enter-held :
    (t : ℕ) (key : Str) (s : System)
    → IsCoalesced s
    → find t s.threads ≡ none
    → (k : Str) (l : ℕ) → find k (after_enter t key s).coalescer.map ≡ some l
    → (u : ℕ) × ((b : Bool) × (find u (after_enter t key s).threads ≡ some (leads b k l)))
unfolding enter
enter-held t key s v free k l h =
    let map_law = find-insert key k s.coalescer.next s.coalescer.map in
    elim (Option-cases (find key s.coalescer.map)) [
      | inl n ↦ elim (Bool-cases (key == k)) [
        | inl e ↦ (
          t,
          (
            false,
            ground (
              arith,
              n,
              e,
              h,
              map_law,
              ==_iff key k,
              ==_iff t t,
              find-insert t t (entered key (enter key s.coalescer).0) s.threads,
            ),
          ),
        )
        | inr e ↦
            let o = v.held k l (ground (arith, n, e, h, map_law)) in
            (
              o.0,
              (
                o.1.0,
                ground (
                  arith,
                  o.1.1,
                  free,
                  find-insert t o.0 (entered key (enter key s.coalescer).0) s.threads,
                  ==_iff t o.0,
                ),
              ),
            )
      ]
      | inr (m, q) ↦
          let o = v.held k l (ground (arith, q, h)) in
          (
            o.0,
            (
              o.1.0,
              ground (
                arith,
                o.1.1,
                free,
                find-insert t o.0 (entered key (enter key s.coalescer).0) s.threads,
                ==_iff t o.0,
              ),
            ),
          )
    ]

pub enter-IsCoalesced :
    (t : ℕ) (key : Str) (s : System)
    → IsCoalesced s
    → find t s.threads ≡ none
    → IsCoalesced (after_enter t key s)
enter-IsCoalesced t key s v free = record {
  owner = enter-owner t key s v free;
  sole = enter-sole t key s v free;
  below = enter-below t key s v free;
  open_slot = enter-open_slot t key s v free;
  made = enter-made t key s v free;
  held = enter-held t key s v free;
}
