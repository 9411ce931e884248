-- ===== src/Terminal/Sentinel.antt =====
-- core/persistant_applications/terminal_driver.cpp: SentinelParser, which splits a shell's byte
-- stream into output and control frames. The pending bytes buf_ are the state, and a call returns
-- the callbacks it makes, in their order. A frame's bytes stand behind the byte kFrameStart; the
-- parser is given those, and answers with the bytes behind the frame.
pub mod Items
pub mod Views
pub mod Chunks
pub mod Frames
pub mod Ending
use velix.Prelude.{
  ℕ, zero, suc, ℤ, pos, negsuc, is_pos, Str, Option, none, some, Bool, List, [], ◌∷◌, ◌++◌,
  if◌then◌else◌, length, drop, ltb, ◌==◌, nat_eq, str_eq, codes, map_option,
}
use velix.Prelude.Numerals.{stoi, stol}

abbrev pub frame_start : ℕ
frame_start = 30

abbrev pub field_separator : ℕ
field_separator = 31

unfoldable pub start_tag : Str
start_tag = codes "VELIX_START"

unfoldable pub end_tag : Str
end_tag = codes "VELIX_END"

abbrev pub max_pending_frame_bytes : ℕ
max_pending_frame_bytes = 4096

-- The callbacks on_output_, on_pid_ and on_end_, with the token and the job's id.
pub data Event : Type 0 where
  output : Str → Event
  started : Str → Str → ℤ → Event
  ended : Str → Str → ℤ → Event

-- find: the bytes before the first c, and those behind it.
unfoldable pub split_at : ℕ → Str → Option (Str × Str)
split_at c [] = none
split_at c (x ∷ xs) =
    let rest = split_at c xs in
    if x == c then some ([], xs) else map_option (λ p. (x ∷ p.0, p.1)) rest

pub record Fields : Type 0 where
  pub token : Str
  pub job_id : Str
  pub number : Str
  pub rest : Str

-- The three fields of either frame; none while one of their separators is missing.
unfoldable pub read_fields : Str → Option Fields
read_fields s = elim (split_at field_separator s) [
  | none ↦ none
  | some a ↦ elim (split_at field_separator a.1) [
    | none ↦ none
    | some b ↦ elim (split_at field_separator b.1) [
      | none ↦ none
      | some c ↦ some (record { token = a.0; job_id = b.0; number = c.0; rest = c.1 })
    ]
  ]
]

-- long pid = -1; pid = stol(...), and the callback if it is positive.
unfoldable pub pid_events : Fields → List Event
pid_events f = elim (stol f.number) [
  | none ↦ []
  | some pid ↦ if is_pos pid then started f.token f.job_id pid ∷ [] else []
]

-- int exit_code = 0; exit_code = stoi(...), and the callback.
unfoldable pub end_events : Fields → List Event
end_events f = elim (stoi f.number) [
  | none ↦ ended f.token f.job_id (pos 0) ∷ []
  | some exit_code ↦ ended f.token f.job_id exit_code ∷ []
]

abbrev pub consumed : (Fields → List Event) → Option Fields → Option (List Event × Str)
consumed events none = none
consumed events (some f) = some (events f, f.rest)

-- try_parse_frame on the bytes behind kFrameStart: none is the answer 0. An unknown tag consumes
-- kFrameStart alone.
unfoldable pub try_parse_frame : Str → Option (List Event × Str)
try_parse_frame body = elim (split_at field_separator body) [
  | none ↦ none
  | some tag ↦
      if tag.0 == start_tag
      then consumed pid_events (read_fields tag.1)
      else if tag.0 == end_tag
      then consumed end_events (read_fields tag.1)
      else some (output (frame_start ∷ []) ∷ [], body)
]

-- A turn of feed's loop: it returns with these bytes pending, or goes on with the rest.
pub data Turn : Type 0 where
  stops : List Event → Str → Turn
  goes : List Event → Str → Turn

unfoldable pub parse_turn : List Event → Str → Turn
parse_turn out body = elim (try_parse_frame body) [
  | none ↦ stops out (frame_start ∷ body)
  | some done ↦ goes (out ++ done.0) done.1
]

unfoldable pub turn : Str → Turn
turn [] = stops [] []
turn (c ∷ s) = if c == frame_start then parse_turn [] s else elim (split_at frame_start s) [
  | none ↦ stops (output (c ∷ s) ∷ []) []
  | some p ↦ parse_turn (output (c ∷ p.0) ∷ []) p.1
]

-- The loop without the flood guard, on fuel: a turn that goes on consumes a byte.
unfoldable pub scan : ℕ → Str → List Event × Str
scan zero buf = ([], buf)
scan (suc fuel) buf = elim (turn buf) [
  | stops out pending ↦ (out, pending)
  | goes out rest ↦ let later = scan fuel rest in (out ++ later.0, later.1)
]

-- The flood guard: feed returns behind it.
unfoldable pub guard : Str → List Event × Str
guard pending =
    if ltb max_pending_frame_bytes (length pending)
    then (output (frame_start ∷ []) ∷ [], drop 1 pending)
    else ([], pending)

unfoldable pub feed : Str → Str → List Event × Str
feed buf bytes =
    let all = buf ++ bytes in
    let scanned = scan (length all) all in
    let guarded = guard scanned.1 in (scanned.0 ++ guarded.0, guarded.1)

unfoldable pub flush_remaining : Str → List Event × Str
flush_remaining [] = ([], [])
flush_remaining (c ∷ s) = (output (c ∷ s) ∷ [], [])
