-- ===== src/Prelude/Numerals.antt =====
-- std::stoi, std::stol and std::stoull's common core: white space, a sign, decimal digits, a range.
pub mod Printed
use Prim.Native.Nat.{ℕ, ◌-◌, ◌^◌}
use mathlib.Core.Bool.{Bool, ◌&&◌, ◌||◌}
use mathlib.Core.List.{[], ◌∷◌}
use mathlib.Core.Option.{Option, none, some}
use velix.Prelude.Tests.{leb, nat_beq, if◌then◌else◌}
use velix.Prelude.Lists.{is_empty}
use velix.Prelude.Equality.{Str}
use velix.Prelude.Int.{ℤ, pos, negsuc}
use velix.Prelude.Decimal.{read_digits}

-- std::isdigit, and std::isspace in the C locale.
abbrev pub is_digit : ℕ → Bool
is_digit c = leb 48 c && leb c 57

abbrev pub is_space : ℕ → Bool
is_space c = nat_beq c 32 || (leb 9 c && leb c 13)

-- The longest prefix of digits.
unfoldable pub digit_prefix : Str → Str
digit_prefix [] = []
digit_prefix (c ∷ s) = let rest = digit_prefix s in if is_digit c then c ∷ rest else []

unfoldable pub skip_spaces : Str → Str
skip_spaces [] = []
skip_spaces (c ∷ s) = let rest = skip_spaces s in if is_space c then rest else c ∷ s

-- The value of the digits in front, up to a greatest one; none where the C++ function throws.
unfoldable pub read_up_to : ℕ → Str → Option ℕ
read_up_to greatest s =
    let ds = digit_prefix s in
    if is_empty ds
    then none
    else if leb (read_digits 0 ds) greatest
    then some (read_digits 0 ds)
    else none

abbrev pub negative : Option ℕ → Option ℤ
negative none = none
negative (some n) = some (if nat_beq n 0 then pos 0 else negsuc (n - 1))

abbrev pub positive : Option ℕ → Option ℤ
positive none = none
positive (some n) = some (pos n)

unfoldable pub read_sign : ℕ → Str → Option ℤ
unfolding read_up_to
read_sign half [] = none
read_sign half (c ∷ s) =
    if nat_beq c 45
    then negative (read_up_to half s)
    else if nat_beq c 43
    then positive (read_up_to (half - 1) s)
    else positive (read_up_to (half - 1) (c ∷ s))

-- std::stoi
unfoldable pub stoi : Str → Option ℤ
stoi s = read_sign (2 ^ 31) (skip_spaces s)

-- std::stol, 64 bits.
unfoldable pub stol : Str → Option ℤ
stol s = read_sign (2 ^ 63) (skip_spaces s)
