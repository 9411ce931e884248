-- ===== src/Scheduler/Current.antt =====
-- llm/scheduler.cpp: mark_request_active, is_request_current and clear_request_if_current. The table
-- keeps the id of the request that a trace marked last; an empty trace or id is in no table.
use velix.Prelude.{
  Str, str_eq, Option, none, some, Bool, false, ◌||◌, ◌&&◌, ◌==◌, if◌then◌else◌, List, [], ◌∷◌, Map,
  find, insert, erase, find-insert, find-erase, ==_iff, Option-cases, Bool-cases, inl, inr, ◌≡◌,
  refl, arith, is_empty,
}

unfoldable pub mark_request_active : Str → Str → Map Str Str → Map Str Str
mark_request_active trace id m = if is_empty trace || is_empty id then m else insert trace id m

-- Whether the table has this request for the trace.
unfoldable pub has_request : Str → Option Str → Bool
has_request id none = false
has_request id (some i) = i == id

unfoldable pub is_request_current : Str → Str → Map Str Str → Bool
unfolding has_request
is_request_current trace id m = is_empty trace || is_empty id || has_request id (find trace m)

unfoldable pub clear_request_if_current : Str → Str → Map Str Str → Map Str Str
unfolding has_request
clear_request_if_current trace id m =
    if is_empty trace || is_empty id
    then m
    else if has_request id (find trace m)
    then erase trace m
    else m

-- A call on the table.
pub data Call : Type 0 where
  marks clears : Str → Str → Call

-- The table after the calls, of which the last comes first.
unfoldable pub after : List Call → Map Str Str
unfolding mark_request_active clear_request_if_current
after [] = []
after (marks t i ∷ calls) = mark_request_active t i (after calls)
after (clears t i ∷ calls) = clear_request_if_current t i (after calls)

-- Whether a call says that the trace is at the request: its last mark is of the request, and no
-- clearing of the request has come since.
unfoldable pub is_last : Str → Str → List Call → Bool
is_last trace id [] = false
is_last trace id (marks t i ∷ calls) =
    let rest = is_last trace id calls in
    if is_empty i then rest else if t == trace then i == id else rest
is_last trace id (clears t i ∷ calls) =
    let rest = is_last trace id calls in if t == trace && i == id then false else rest

-- A clearing takes the request away that it names, and no other.
has_request-clear_request_if_current :
    (trace id : Str)
    → is_empty trace ≡ false
    → is_empty id ≡ false
    → (t i : Str) (m : Map Str Str)
    → has_request id (find trace (clear_request_if_current t i m))
      ≡ (if t == trace && i == id then false else has_request id (find trace m))
unfolding clear_request_if_current has_request
has_request-clear_request_if_current trace id p q t i m = elim (Bool-cases (t == trace)) [
  | inr other ↦ ground (arith, other, find-erase t trace m)
  | inl same ↦ elim (Option-cases (find trace m)) [
    | inl absent ↦ ground (arith, same, absent, ==_iff t trace, find-erase t trace m)
    | inr (j, there) ↦ ground (
      arith,
      same,
      there,
      p,
      q,
      ==_iff t trace,
      ==_iff j i,
      ==_iff j id,
      ==_iff i id,
      find-erase t trace m,
    )
  ]
]

has_request-after :
    (trace id : Str)
    → is_empty trace ≡ false
    → is_empty id ≡ false
    → (calls : List Call) → has_request id (find trace (after calls)) ≡ is_last trace id calls
unfolding after is_last mark_request_active clear_request_if_current has_request find
has_request-after trace id p q [] = refl
has_request-after trace id p q (marks t i ∷ calls) = ground (
  arith,
  p,
  q,
  ==_iff t trace,
  has_request-after trace id p q calls,
  find-insert t trace i (after calls),
)
has_request-after trace id p q (clears t i ∷ calls) = ground (
  arith,
  has_request-clear_request_if_current trace id p q t i (after calls),
  has_request-after trace id p q calls,
)

-- Whatever calls come on an empty table, a request whose trace and id are not empty is current exactly
-- when it is the one that its trace marked last and it has not been cleared since.
pub is_request_current_lem :
    (trace id : Str) (calls : List Call)
    → is_empty trace ≡ false
    → is_empty id ≡ false
    → is_request_current trace id (after calls) ≡ is_last trace id calls
unfolding is_request_current
is_request_current_lem trace id calls p q =
    ground (arith, p, q, has_request-after trace id p q calls)
