-- ===== src/Prelude/Decimal.antt =====
-- Decimal output of an unsigned number, as std::ostream and std::to_string print it.
use Prim.Native.Nat.{ℕ, zero, suc, ◌+◌, ◌-◌, ◌*◌, ◌/◌, ◌%◌, ◌<◌}
use mathlib.Core.Path.{◌≡◌, sym, ap, ◌∙◌}
use mathlib.Core.Bool.{true, false}
use mathlib.Core.List.{[], ◌∷◌}
use native.Mathlib.Omega.{arith}
use velix.Prelude.Tests.{ltb}
use velix.Prelude.Equality.{Str}

unfoldable pub digits : ℕ → ℕ → Str → Str
digits zero n acc = acc
digits (suc fuel) n acc = elim (ltb n 10) [
  | true ↦ (48 + n) ∷ acc
  | false ↦ digits fuel (n / 10) ((48 + n % 10) ∷ acc)
]

unfoldable pub to_string : ℕ → Str
unfolding digits
to_string n = digits (suc n) n []

-- The number that a digit string stands for, after the digits read so far.
unfoldable pub read_digits : ℕ → Str → ℕ
read_digits n [] = n
read_digits n (c ∷ s) = read_digits (n * 10 + (c - 48)) s

pub read_digits-digits :
    (fuel n : ℕ) (acc : Str) → n < fuel → read_digits 0 (digits fuel n acc) ≡ read_digits n acc
unfolding digits read_digits
read_digits-digits zero n acc h = elim h [ ]
read_digits-digits (suc fuel) n acc h =
    let step : n / 10 * 10 + (48 + n % 10 - 48) ≡ n = omega arith in
    ground (
      arith,
      read_digits-digits fuel (n / 10) ((48 + n % 10) ∷ acc),
      step,
      ap (λ k. read_digits k acc) step,
    )

-- Two numbers with the same decimal text are equal.
pub to_string_injective : (m n : ℕ) → to_string m ≡ to_string n → m ≡ n
unfolding to_string read_digits
to_string_injective m n h =
    sym (read_digits-digits (suc m) m [] (omega arith))
    ∙ ap (read_digits 0) h
    ∙ read_digits-digits (suc n) n [] (omega arith)
