-- ===== src/Executioner/Leading/Settling.antt =====
-- execution/executioner.cpp: what the leader of a cache key leaves behind.
use velix.Prelude.{
  if_known, ℕ, Str, Option, none, some, Bool, true, false, List, find, find-insert, find-erase,
  nat_eq, str_eq, ==_iff, ◌≡◌, ◌≢◌, ◌⊎◌, inl, inr, refl, arith, Option-cases,
}
use velix.Executioner.Adapters.{PrepareStep}
use velix.Executioner.PrepareRunner.{
  Ran, PrepareReply, prepared, step_exception, step_failed, execute_prepare,
}
use velix.Executioner.Coalescer.{ready, failed, Coalescer, settle, erase_key, finish, fail}
use velix.Executioner.Leading.{
  Status, missing, Locks, Refusal, Led, is_ready_status, fail_reason, refuse, conclude,
  prepare_cache, lead,
}

-- The key is free, and the waiting threads are told to go on exactly when the leader goes on.
pub record IsReleased (key : Str) (slot : ℕ) (led : Led) : Type 0 where
  pub freed : find key led.coalescer.map ≡ none
  pub told :
      (led.refusal ≡ none) × (find slot led.coalescer.slots ≡ some ready)
      ⊎ ((e : Str) × ((led.refusal ≢ none) × (find slot led.coalescer.slots ≡ some (failed e))))

finish-map : (key : Str) (slot : ℕ) (c : Coalescer) → find key (finish key slot c).map ≡ none
unfolding finish settle erase_key
finish-map key slot c = ground (arith, find-erase key key c.map, ==_iff key key)

finish-slots :
    (key : Str) (slot : ℕ) (c : Coalescer) → find slot (finish key slot c).slots ≡ some ready
unfolding finish settle erase_key
finish-slots key slot c = ground (arith, find-insert slot slot ready c.slots, ==_iff slot slot)

fail-map :
    (key : Str) (slot : ℕ) (e : Str) (c : Coalescer) → find key (fail key slot e c).map ≡ none
unfolding fail settle erase_key
fail-map key slot e c = ground (arith, find-erase key key c.map, ==_iff key key)

fail-slots :
    (key : Str) (slot : ℕ) (e : Str) (c : Coalescer)
    → find slot (fail key slot e c).slots ≡ some (failed e)
unfolding fail settle erase_key
fail-slots key slot e c = ground (arith, find-insert slot slot (failed e) c.slots, ==_iff slot slot)

-- What the leader goes on with: a prepare that succeeded, or a status file that says so.
abbrev pub Prepared :
    Bool → (ℕ → PrepareStep → Ran) → List PrepareStep → Status → Option Refusal → Type 0
Prepared force_refresh run steps status (some r) = Unit
Prepared force_refresh run steps status none =
    ((execute_prepare run steps).0 ≡ prepared)
    ⊎ ((force_refresh ≡ false) × (is_ready_status status ≡ true))

-- Both facts about a leader.
pub record IsLed (key : Str) (slot : ℕ) (force_refresh : Bool) (run : ℕ → PrepareStep → Ran)
    (steps : List PrepareStep) (status : Status) (led : Led) : Type 0 where
  pub released : IsReleased key slot led
  pub prepared_first : Prepared force_refresh run steps status led.refusal

module _ (key : Str) (slot : ℕ) (force_refresh : Bool) (run : ℕ → PrepareStep → Ran)
    (steps : List PrepareStep) (status : Status) where
  refuse-IsLed :
      (after : Status) (reason : Str) (c : Coalescer)
      → IsLed key slot force_refresh run steps status (refuse key slot after reason c)
  refuse-IsLed after reason c = record {
    released = record {
      freed = fail-map key slot reason c;
      told = inr (reason, (ground arith, fail-slots key slot reason c));
    };
    prepared_first = ground arith;
  }

  conclude-IsLed :
      (lock : Option Str) (reply : PrepareReply) (c : Coalescer)
      → (execute_prepare run steps).0 ≡ reply
      → IsLed key slot force_refresh run steps status (conclude key slot lock reply c)
  unfolding conclude
  conclude-IsLed lock prepared c e = record {
    released = record { freed = finish-map key slot c; told = inl (refl, finish-slots key slot c) };
    prepared_first = inl e;
  }
  conclude-IsLed lock (step_exception i command what) c e =
      let reason : Str = fail_reason (step_exception i command what) in
      record {
        released = record {
          freed = fail-map key slot reason c;
          told = inr (reason, (ground arith, fail-slots key slot reason c));
        };
        prepared_first = ground arith;
      }
  conclude-IsLed lock (step_failed i command res) c e =
      let reason : Str = fail_reason (step_failed i command res) in
      record {
        released = record {
          freed = fail-map key slot reason c;
          told = inr (reason, (ground arith, fail-slots key slot reason c));
        };
        prepared_first = ground arith;
      }

  prepare_cache-IsLed :
      (locks : Locks) (c : Coalescer)
      → IsLed key slot force_refresh run steps status (prepare_cache key slot locks run steps c)
  unfolding prepare_cache
  prepare_cache-IsLed locks c = elim (Option-cases locks.to_begin) [
    | inl n ↦
        rw (n, prepare_cache) (conclude-IsLed locks.to_end (execute_prepare run steps).0 c refl)
    | inr (e, q) ↦ rw (q, prepare_cache) (refuse-IsLed missing _ c)
  ]

  -- Whatever the locks and the steps do: the leader leaves the key free; the threads that wait go on
  -- exactly when it goes on, and get an error otherwise; and it goes on only after the steps
  -- succeeded, or when the status file said that they had and no refresh was asked for.
  pub lead-IsLed :
      (locks : Locks) (c : Coalescer)
      → IsLed key slot force_refresh run steps status
          (lead key slot force_refresh locks run steps status c)
  unfolding lead
  lead-IsLed locks c =
      let P : Led → Type 0 = IsLed key slot force_refresh run steps status in
      if_known P force_refresh _ _ (λ f. prepare_cache-IsLed locks c)
        (λ f. elim (Option-cases locks.to_check) [
          | inl n ↦ rw (n) (
              if_known P (is_ready_status status) _ _
                (λ s. record {
                  released = record {
                    freed = finish-map key slot c;
                    told = inl (refl, finish-slots key slot c);
                  };
                  prepared_first = inr (f, s);
                })
                (λ s. prepare_cache-IsLed locks c))
          | inr (e, q) ↦ rw (q) (refuse-IsLed status _ c)
        ])
