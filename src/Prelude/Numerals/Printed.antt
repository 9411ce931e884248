-- ===== src/Prelude/Numerals/Printed.antt =====
-- A printed number is read back.
use Prim.Native.Nat.{ℕ, zero, suc, ◌+◌, ◌/◌, ◌%◌, ◌^◌, ◌<◌}
use mathlib.Core.Path.{◌≡◌, refl}
use mathlib.Core.Bool.{Bool, true, false, ◌&&◌}
use mathlib.Core.List.{[], ◌∷◌}
use mathlib.Core.Option.{some}
use native.Mathlib.Omega.{arith}
use mathlib.Core.Logic.{inl, inr}
use velix.Prelude.Tests.{ltb, Bool-cases}
use velix.Prelude.Lists.{is_empty}
use velix.Prelude.Equality.{Str, nat_eq}
use velix.Prelude.Sets.{contains}
use velix.Prelude.Int.{pos}
use velix.Prelude.Decimal.{digits, read_digits, to_string, read_digits-digits}
use velix.Prelude.Numerals.{is_digit, digit_prefix, skip_spaces, read_up_to, read_sign, stoi}

abbrev pub are_digits : Str → Bool
are_digits [] = true
are_digits (c ∷ s) = is_digit c && are_digits s

digits-digits :
    (fuel n : ℕ) (acc : Str)
    → n < fuel
    → are_digits acc ≡ true
    → (are_digits (digits fuel n acc) ≡ true) × (is_empty (digits fuel n acc) ≡ false)
unfolding digits
digits-digits zero n acc h a = ground arith
digits-digits (suc fuel) n acc h a = elim (Bool-cases (ltb n 10)) [
  | inl e ↦ ground (arith, e, a)
  | inr e ↦
      let last : n % 10 < 10 = omega arith in
      ground (arith, e, a, last, digits-digits fuel (n / 10) ((48 + n % 10) ∷ acc))
]

digit_prefix-digits : (s : Str) → are_digits s ≡ true → digit_prefix s ≡ s
unfolding digit_prefix
digit_prefix-digits [] h = refl
digit_prefix-digits (c ∷ s) h = ground (arith, h, digit_prefix-digits s)

read_sign-digits :
    (half : ℕ) (s : Str)
    → are_digits s ≡ true
    → is_empty s ≡ false
    → read_digits 0 s < half
    → read_sign half (skip_spaces s) ≡ some (pos (read_digits 0 s))
unfolding read_sign read_up_to skip_spaces
read_sign-digits half [] h e k = ground arith
read_sign-digits half (c ∷ s) h e k = ground (arith, digit_prefix-digits (c ∷ s) h, h, k)

pub stoi-to_string : (n : ℕ) → n < 2 ^ 31 → stoi (to_string n) ≡ some (pos n)
unfolding stoi to_string read_digits
stoi-to_string n h =
    let printed = digits (suc n) n [] in
    let back : read_digits 0 printed ≡ n = read_digits-digits (suc n) n [] (omega arith) in
    let d = digits-digits (suc n) n [] (omega arith) refl in
    ground (arith, back, read_sign-digits (2 ^ 31) printed d.0 d.1)

contains-digits :
    (c : ℕ) (s : Str) → is_digit c ≡ false → are_digits s ≡ true → contains c s ≡ false
unfolding contains
contains-digits c [] h a = refl
contains-digits c (d ∷ s) h a = ground (arith, h, a, contains-digits c s h)

-- A printed number has no other byte than digits.
pub contains-to_string : (c n : ℕ) → is_digit c ≡ false → contains c (to_string n) ≡ false
unfolding to_string
contains-to_string c n h =
    contains-digits c (digits (suc n) n []) h (digits-digits (suc n) n [] (omega arith) refl).0

-- A printed number is a digit at least, and digits only.
pub to_string-digits :
    (n : ℕ) → (are_digits (to_string n) ≡ true) × (is_empty (to_string n) ≡ false)
unfolding to_string
to_string-digits n = digits-digits (suc n) n [] (omega arith) refl
