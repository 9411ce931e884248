-- ===== src/Utf8.antt =====
-- utils/file_tools.cpp: validate_utf8 and decode_utf8_with_replacement. A byte is a number below 256, and a test of its
-- high bits is a division. The index `i` moves over a sequence at once; here `skip` is the number of bytes of that
-- sequence that are still to pass. The count of the errors is not cut to an int.
use velix.Prelude.{
  nat_eq, ℕ, zero, suc, ◌+◌, ◌*◌, ◌/◌, ◌==◌, ◌&&◌, Bool, true, false, [], ◌∷◌, ◌≡◌, ◌↔◌, refl,
  arith, length, Str, if◌then◌else◌, ap, ◌⊎◌, inl, inr,
}

-- The next n bytes are there and are continuation bytes.
unfoldable pub continues : ℕ → Str → Bool
continues zero bs = true
continues (suc n) [] = false
continues (suc n) (b ∷ bs) = b / 64 == 2 && continues n bs

-- The length of the sequence that starts with the byte `b`, or 0 if none does.
unfoldable pub sequence_length : ℕ → Str → ℕ
unfolding continues
sequence_length b bs =
    if b / 128 == 0
    then 1
    else if b / 32 == 6
    then if continues 1 bs then 2 else 0
    else if b / 16 == 14
    then if continues 2 bs then 3 else 0
    else if b / 8 == 30
    then if continues 3 bs then 4 else 0
    else 0

unfoldable pub validate_from : ℕ → Str → ℕ
unfolding sequence_length
validate_from skip [] = 0
validate_from (suc skip) (b ∷ bs) = validate_from skip bs
validate_from zero (b ∷ bs) = elim (sequence_length b bs) [
  | zero ↦ suc (validate_from zero bs)
  | suc n ↦ validate_from n bs
]

-- The number of bytes that start no sequence.
unfoldable pub validate_utf8 : Str → ℕ
unfolding validate_from
validate_utf8 data_bytes = validate_from 0 data_bytes

unfoldable pub decode_from : ℕ → Str → Str
unfolding sequence_length
decode_from skip [] = []
decode_from (suc skip) (b ∷ bs) = b ∷ decode_from skip bs
decode_from zero (b ∷ bs) = elim (sequence_length b bs) [
  | zero ↦ 239 ∷ 191 ∷ 189 ∷ decode_from zero bs
  | suc n ↦ b ∷ decode_from n bs
]

unfoldable pub decode_utf8_with_replacement : Str → Str
unfolding decode_from
decode_utf8_with_replacement data_bytes = decode_from 0 data_bytes

continues_zero : (bs : Str) → continues 0 bs ≡ true
unfolding continues
continues_zero bs = refl

-- The length, by the tests of the first byte.
abbrev length_by : Bool → Bool → Bool → Bool → Str → ℕ
length_by one two three four bs =
    if one
    then 1
    else if two
    then if continues 1 bs then 2 else 0
    else if three
    then if continues 2 bs then 3 else 0
    else if four
    then if continues 3 bs then 4 else 0
    else 0

length_by-suc :
    (one two three four : Bool) (n : ℕ) (bs : Str)
    → length_by one two three four bs ≡ suc n
    → (continues n bs ≡ true)
      × ((cs : Str) → continues n cs ≡ true → length_by one two three four cs ≡ suc n)
length_by-suc true two three four n bs h =
    (ground (arith, continues_zero bs), λ cs more. ground arith)
length_by-suc false true three four n bs h = (ground arith, λ cs more. ground arith)
length_by-suc false false true four n bs h = (ground arith, λ cs more. ground arith)
length_by-suc false false false true n bs h = (ground arith, λ cs more. ground arith)
length_by-suc false false false false n bs h = ground arith

-- A sequence stays one when what follows it changes.
record Starts (n b : ℕ) (bs : Str) : Type 0 where
  follows : continues n bs ≡ true
  stays : (cs : Str) → continues n cs ≡ true → sequence_length b cs ≡ suc n

sequence_length-Starts : (n b : ℕ) (bs : Str) → sequence_length b bs ≡ suc n → Starts n b bs
unfolding sequence_length
sequence_length-Starts n b bs h =
    let by_tests = length_by-suc (b / 128 == 0) (b / 32 == 6) (b / 16 == 14) (b / 8 == 30) n bs h in
    record { follows = by_tests.0; stays = by_tests.1 }

continues-decode_from :
    (n : ℕ) (bs : Str) → continues n bs ≡ true → continues n (decode_from n bs) ≡ true
unfolding continues decode_from
continues-decode_from zero bs h = refl
continues-decode_from (suc n) [] h = h
continues-decode_from (suc n) (b ∷ bs) h = ground (arith, continues-decode_from n bs)

ℕ-cases : (n : ℕ) → (n ≡ 0) ⊎ ((m : ℕ) × (n ≡ suc m))
ℕ-cases zero = inl refl
ℕ-cases (suc n) = inr (n, refl)

decoded : (skip : ℕ) (bs : Str) → validate_from skip (decode_from skip bs) ≡ 0
unfolding validate_from decode_from
decoded zero [] = refl
decoded (suc skip) [] = refl
decoded (suc skip) (b ∷ bs) = decoded skip bs
decoded zero (b ∷ bs) = elim (ℕ-cases (sequence_length b bs)) [
  | inl e ↦ rw (e, decode_from) (decoded zero bs)
  | inr (n, e) ↦
      let start = sequence_length-Starts n b bs e in
      rw (e, decode_from)
        (rw
          (start.stays (decode_from n bs) (continues-decode_from n bs start.follows), validate_from)
          (decoded n bs))
]

decoded_length :
    (skip : ℕ) (bs : Str) → length (decode_from skip bs) ≡ length bs + 2 * validate_from skip bs
unfolding validate_from decode_from
decoded_length zero [] = refl
decoded_length (suc skip) [] = refl
decoded_length (suc skip) (b ∷ bs) = omega (arith, decoded_length skip bs)
decoded_length zero (b ∷ bs) = elim (ℕ-cases (sequence_length b bs)) [
  | inl e ↦ rw (e, decode_from, validate_from) (omega (arith, decoded_length zero bs))
  | inr (n, e) ↦ rw (e, decode_from, validate_from) (omega (arith, decoded_length n bs))
]

unchanged : (skip : ℕ) (bs : Str) → validate_from skip bs ≡ 0 → decode_from skip bs ≡ bs
unfolding validate_from decode_from
unchanged zero [] h = refl
unchanged (suc skip) [] h = refl
unchanged (suc skip) (b ∷ bs) h = rw (unchanged skip bs h)
unchanged zero (b ∷ bs) h = elim (ℕ-cases (sequence_length b bs)) [
  | inl e ↦ ground (arith, e)
  | inr (n, e) ↦ ground (arith, e, unchanged n bs)
]

-- The decoded text is valid, and it is two bytes longer for each error of the input; it is the input exactly when the
-- input is valid.
decode_utf8_sound :
    (bs : Str)
    → (validate_utf8 (decode_utf8_with_replacement bs) ≡ 0)
      × (length (decode_utf8_with_replacement bs) ≡ length bs + 2 * validate_utf8 bs)
      × ((decode_utf8_with_replacement bs ≡ bs) ↔ (validate_utf8 bs ≡ 0))
unfolding decode_utf8_with_replacement validate_utf8
decode_utf8_sound bs = (
  decoded 0 bs,
  decoded_length 0 bs,
  ((λ same. omega (arith, decoded_length 0 bs, ap length same)), unchanged 0 bs),
)
