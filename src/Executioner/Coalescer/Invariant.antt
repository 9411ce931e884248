-- ===== src/Executioner/Coalescer/Invariant.antt =====
-- execution/executioner.cpp: what holds between the steps of PrepareCoalescer.
use velix.Prelude.{ℕ, Str, some, Bool, false, find, nat_eq, str_eq, ◌≡◌, ◌<◌}
use velix.Executioner.Coalescer.{SlotState, preparing}
use velix.Executioner.Coalescer.Moves.{leads, System}

-- A leader's key stands in the map with the leader's slot, which no other thread leads and which is
-- preparing until the leader settles it.
pub record IsCoalesced (s : System) : Type 0 where
  pub owner :
      (t : ℕ) (b : Bool) (key : Str) (slot : ℕ)
      → find t s.threads ≡ some (leads b key slot)
      → find key s.coalescer.map ≡ some slot
  pub sole :
      (t u : ℕ) (b c : Bool) (j k : Str) (slot : ℕ)
      → find t s.threads ≡ some (leads b j slot)
      → find u s.threads ≡ some (leads c k slot)
      → t ≡ u
  pub below :
      (t : ℕ) (b : Bool) (key : Str) (slot : ℕ)
      → find t s.threads ≡ some (leads b key slot)
      → slot < s.coalescer.next
  pub open_slot :
      (t : ℕ) (key : Str) (slot : ℕ)
      → find t s.threads ≡ some (leads false key slot)
      → find slot s.coalescer.slots ≡ some preparing
  pub made :
      (slot : ℕ) (state : SlotState)
      → find slot s.coalescer.slots ≡ some state
      → slot < s.coalescer.next
  pub held :
      (key : Str) (slot : ℕ)
      → find key s.coalescer.map ≡ some slot
      → (t : ℕ) × ((b : Bool) × (find t s.threads ≡ some (leads b key slot)))
