-- ===== src/Scheduler/Flights.antt =====
-- Requests by their keys: in the queues, and in the hands of the workers.
use velix.Prelude.{
  str_eq, nat_eq, ◌+◌, ◌==◌, ◌&&◌, Str, Map, some, true, false, List, [], ◌∷◌, ◌≡◌, refl, arith,
  find, insert, erase, find-insert, find-erase, ==_iff, Option-cases, Bool-cases, inl, inr,
  if◌then◌else◌, ◌++◌,
}
use velix.Scheduler.{PendingRequest, TreeQueue, queue_or_new}
use velix.Scheduler.Workers.{count, all_keyed, is_busy}

pub count-append :
    (k : Str) (xs ys : List PendingRequest) → count k (xs ++ ys) ≡ count k xs + count k ys
count-append k [] ys = omega arith
count-append k (x ∷ xs) ys = omega (arith, count-append k xs ys)

pub all_keyed-append :
    (k : Str) (xs ys : List PendingRequest)
    → all_keyed k (xs ++ ys) ≡ (all_keyed k xs && all_keyed k ys)
all_keyed-append k [] ys = refl
all_keyed-append k (x ∷ xs) ys = ground (arith, all_keyed-append k xs ys)

-- Each request stands in the queue of its key.
abbrev pub Keyed : Map Str TreeQueue → Type 0
Keyed m = (k : Str) (q : TreeQueue) → find k m ≡ some q → all_keyed k q.requests ≡ true

-- A key is busy exactly when one worker holds a request of it.
abbrev pub Flights : Map Str TreeQueue → List PendingRequest → Type 0
Flights m held = (k : Str) → count k held ≡ (if is_busy k m then 1 else 0)

pub Keyed-insert :
    (key : Str) (q : TreeQueue) (m : Map Str TreeQueue)
    → Keyed m
    → all_keyed key q.requests ≡ true
    → Keyed (insert key q m)
Keyed-insert key q m v h k x e = ground (arith, find-insert key k q m, ==_iff key k, v k x)

pub Keyed-erase : (key : Str) (m : Map Str TreeQueue) → Keyed m → Keyed (erase key m)
Keyed-erase key m v k x e = ground (arith, find-erase key k m, v k x)

pub is_busy-insert :
    (key k : Str) (q : TreeQueue) (m : Map Str TreeQueue)
    → is_busy k (insert key q m) ≡ (if key == k then q.has_active_key else is_busy k m)
is_busy-insert key k q m = elim (Bool-cases (key == k)) [
  | inl h ↦ ground (arith, find-insert key k q m)
  | inr h ↦ ground (arith, find-insert key k q m)
]

pub is_busy-erase :
    (key k : Str) (m : Map Str TreeQueue)
    → is_busy k (erase key m) ≡ (if key == k then false else is_busy k m)
is_busy-erase key k m = elim (Bool-cases (key == k)) [
  | inl h ↦ ground (arith, find-erase key k m)
  | inr h ↦ ground (arith, find-erase key k m)
]

pub all_keyed-queue_or_new :
    (k : Str) (m : Map Str TreeQueue)
    → Keyed m
    → all_keyed k (queue_or_new (find k m)).requests ≡ true
all_keyed-queue_or_new k m v = elim (Option-cases (find k m)) [
  | inl e ↦ ground (arith, e)
  | inr (q, e) ↦ ground (arith, e, v k q)
]

pub has_active_key-queue_or_new :
    (k : Str) (m : Map Str TreeQueue) → (queue_or_new (find k m)).has_active_key ≡ is_busy k m
has_active_key-queue_or_new k m = elim (Option-cases (find k m)) [
  | inl e ↦ ground (arith, e)
  | inr (q, e) ↦ ground (arith, e)
]

-- The flights after a release, in terms of those before.
pub released :
    (k : Str) (before : List PendingRequest) (req : PendingRequest) (after : List PendingRequest)
    → count k (before ++ (req ∷ after))
      ≡ (if req.queue_key == k then 1 else 0) + count k (before ++ after)
released k before req after =
    omega (arith, count-append k before (req ∷ after), count-append k before after)
