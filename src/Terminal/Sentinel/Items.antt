-- ===== src/Terminal/Sentinel/Items.antt =====
-- The parser on longer inputs, and its callbacks taken byte by byte.
use velix.Prelude.{
  ℕ, ◌≤◌, ◌<◌, Str, Option, none, some, false, List, [], ◌∷◌, ◌++◌, ◌≡◌, refl, arith, sym, length,
  ◌==◌, ==_iff, nat_eq, str_eq, map_option, Option-cases, Bool-cases, inl, inr, contains,
}
use velix.Terminal.Sentinel.{
  frame_start, field_separator, Event, output, started, ended, split_at, Fields, read_fields,
  consumed, pid_events, end_events, start_tag, end_tag, try_parse_frame, Turn, stops, parse_turn,
  turn,
}

pub append_assoc {ℓ} : {A : Type ℓ} (a b c : List A) → ((a ++ b) ++ c) ≡ (a ++ (b ++ c))
append_assoc [] b c = refl
append_assoc (x ∷ a) b c = rw (append_assoc a b c)

pub append_nil {ℓ} : {A : Type ℓ} (a : List A) → (a ++ []) ≡ a
append_nil [] = refl
append_nil (x ∷ a) = rw (append_nil a)

-- The callbacks with the output taken byte by byte.
pub data Item : Type 0 where
  byte : ℕ → Item
  frame : Event → Item

unfoldable pub bytes : Str → List Item
bytes [] = []
bytes (c ∷ s) = byte c ∷ bytes s

unfoldable pub items : List Event → List Item
unfolding bytes
items [] = []
items (output s ∷ es) = bytes s ++ items es
items (started t j n ∷ es) = frame (started t j n) ∷ items es
items (ended t j n ∷ es) = frame (ended t j n) ∷ items es

pub bytes-append : (s t : Str) → bytes (s ++ t) ≡ (bytes s ++ bytes t)
unfolding bytes
bytes-append [] t = refl
bytes-append (c ∷ s) t = rw (bytes-append s t)

pub items-append : (d e : List Event) → items (d ++ e) ≡ (items d ++ items e)
unfolding items
items-append [] e = refl
items-append (output s ∷ d) e =
    rw (items-append d e) (sym (append_assoc (bytes s) (items d) (items e)))
items-append (started t j n ∷ d) e = rw (items-append d e)
items-append (ended t j n ∷ d) e = rw (items-append d e)

-- Splitting and more bytes.
pub split_at-more :
    (c : ℕ) (x y a b : Str) → split_at c x ≡ some (a, b) → split_at c (x ++ y) ≡ some (a, b ++ y)
unfolding split_at
split_at-more c [] y a b h = ground arith
split_at-more c (d ∷ x) y a b h = elim (Bool-cases (d == c)) [
  | inl e ↦ ground (arith, e, h)
  | inr e ↦ elim (Option-cases (split_at c x)) [
    | inl n ↦ ground (arith, e, h, n)
    | inr ((p, q), n) ↦ ground (arith, e, h, n, split_at-more c x y p q n)
  ]
]

pub split_at-shorter : (c : ℕ) (x a b : Str) → split_at c x ≡ some (a, b) → length b < length x
unfolding split_at
split_at-shorter c [] a b h = ground arith
split_at-shorter c (d ∷ x) a b h = elim (Bool-cases (d == c)) [
  | inl e ↦ ground (arith, e, h)
  | inr e ↦ elim (Option-cases (split_at c x)) [
    | inl n ↦ ground (arith, e, h, n)
    | inr ((p, q), n) ↦ ground (arith, e, h, n, split_at-shorter c x p q n)
  ]
]

pub split_at-none : (c : ℕ) (x : Str) → split_at c x ≡ none → contains c x ≡ false
unfolding split_at contains
split_at-none c [] h = refl
split_at-none c (d ∷ x) h = elim (Option-cases (split_at c x)) [
  | inl n ↦ ground (arith, h, n, split_at-none c x n)
  | inr (p, n) ↦ ground (arith, h, n)
]

pub split_at-some :
    (c : ℕ) (x a b : Str)
    → split_at c x ≡ some (a, b)
    → (x ≡ (a ++ (c ∷ b))) × (contains c a ≡ false)
unfolding split_at contains
split_at-some c [] a b h = ground arith
split_at-some c (d ∷ x) a b h = elim (Bool-cases (d == c)) [
  | inl e ↦ ground (arith, e, h, ==_iff d c)
  | inr e ↦ elim (Option-cases (split_at c x)) [
    | inl n ↦ ground (arith, e, h, n)
    | inr ((p, q), n) ↦ ground (arith, e, h, n, split_at-some c x p q n)
  ]
]

pub split_at-absent :
    (c : ℕ) (x y : Str)
    → contains c x ≡ false
    → split_at c (x ++ y) ≡ map_option (λ p. (x ++ p.0, p.1)) (split_at c y)
unfolding split_at contains
split_at-absent c [] y h = elim (Option-cases (split_at c y)) [
  | inl n ↦ ground (arith, n)
  | inr ((p, q), n) ↦ ground (arith, n)
]
split_at-absent c (d ∷ x) y h = elim (Option-cases (split_at c y)) [
  | inl n ↦ ground (arith, n, split_at-absent c x y)
  | inr ((p, q), n) ↦ ground (arith, n, split_at-absent c x y)
]

pub read_fields-more :
    (s y : Str) (f : Fields)
    → read_fields s ≡ some f
    → (read_fields (s ++ y) ≡ some (record f { rest = f.rest ++ y })) × (length f.rest < length s)
unfolding read_fields
read_fields-more s y f h = elim (Option-cases (split_at field_separator s)) [
  | inl n ↦ ground (arith, n, h)
  | inr ((t, a), n) ↦ elim (Option-cases (split_at field_separator a)) [
    | inl m ↦ ground (arith, n, m, h)
    | inr ((j, b), m) ↦ elim (Option-cases (split_at field_separator b)) [
      | inl k ↦ ground (arith, n, m, k, h)
      | inr ((v, c), k) ↦ ground (
        arith,
        n,
        m,
        k,
        h,
        split_at-more field_separator s y t a n,
        split_at-more field_separator a y j b m,
        split_at-more field_separator b y v c k,
        split_at-shorter field_separator s t a n,
        split_at-shorter field_separator a j b m,
        split_at-shorter field_separator b v c k,
      )
    ]
  ]
]

consumed-more :
    (events : Fields → List Event) (s y r : Str) (es : List Event)
    → ((f : Fields) (t : Str) → events (record f { rest = t }) ≡ events f)
    → consumed events (read_fields s) ≡ some (es, r)
    → (consumed events (read_fields (s ++ y)) ≡ some (es, r ++ y)) × (length r < length s)
consumed-more events s y r es blind h = elim (Option-cases (read_fields s)) [
  | inl n ↦ ground (arith, n, h)
  | inr (f, n) ↦ ground (arith, n, h, read_fields-more s y f n, blind f (f.rest ++ y))
]

pub try_parse_frame-more :
    (s y r : Str) (es : List Event)
    → try_parse_frame s ≡ some (es, r)
    → (try_parse_frame (s ++ y) ≡ some (es, r ++ y)) × (length r ≤ length s)
unfolding try_parse_frame pid_events end_events
try_parse_frame-more s y r es h = elim (Option-cases (split_at field_separator s)) [
  | inl n ↦ ground (arith, n, h)
  | inr ((tag, a), n) ↦
      let more = split_at-more field_separator s y tag a n in
      let shorter = split_at-shorter field_separator s tag a n in
      elim (Bool-cases (tag == start_tag)) [
        | inl e ↦
            ground (arith, n, h, e, more, shorter, consumed-more pid_events a y r es (λ f t. refl))
        | inr e ↦ elim (Bool-cases (tag == end_tag)) [
          | inl g ↦
              ground
                (arith, n, h, e, g, more, shorter, consumed-more end_events a y r es (λ f t. refl))
          | inr g ↦ ground (arith, n, h, e, g, more, shorter)
        ]
      ]
]

-- What was said before a frame.
abbrev pub said : Str → List Event
said [] = []
said (c ∷ s) = output (c ∷ s) ∷ []

abbrev pub on_split : Str → Option (Str × Str) → Turn
on_split z none = stops (said z) []
on_split z (some p) = parse_turn (said p.0) p.1

pub turn-split : (z : Str) → turn z ≡ on_split z (split_at frame_start z)
unfolding turn split_at
turn-split [] = refl
turn-split (c ∷ s) = elim (Bool-cases (c == frame_start)) [
  | inl e ↦ rw e refl
  | inr e ↦ elim (Option-cases (split_at frame_start s)) [
    | inl n ↦ rw (e, n) refl
    | inr (p, n) ↦ rw (e, n) refl
  ]
]

pub items-said : (s : Str) → items (said s) ≡ bytes s
unfolding items bytes
items-said [] = refl
items-said (c ∷ s) = append_nil (bytes (c ∷ s))
