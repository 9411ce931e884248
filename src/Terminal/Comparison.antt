-- ===== src/Terminal/Comparison.antt =====
-- core/persistant_applications/application_manager.cpp: constant_time_equal.
use velix.Prelude.{
  ℕ, zero, suc, ◌+◌, ◌*◌, ◌/◌, ◌%◌, ◌^◌, ◌<◌, Str, Bool, true, false, not, [], ◌∷◌, ◌≡◌, ◌↔◌, max,
  refl, arith, if◌then◌else◌, ◌==◌, ==_iff, nat_eq, length, Bool-cases, inl, inr,
}

-- The exclusive and the inclusive or of two bytes, bit by bit.
unfoldable pub xor_bits : ℕ → ℕ → ℕ → ℕ
xor_bits zero a b = 0
xor_bits (suc n) a b = (a % 2 + b % 2) % 2 + 2 * xor_bits n (a / 2) (b / 2)

unfoldable pub or_bits : ℕ → ℕ → ℕ → ℕ
or_bits zero a b = 0
or_bits (suc n) a b = max (a % 2) (b % 2) + 2 * or_bits n (a / 2) (b / 2)

-- The loop of constant_time_equal, from the value that `result` has.
unfoldable pub difference : ℕ → Str → Str → ℕ
unfolding xor_bits or_bits
difference result [] t = result
difference result (a ∷ s) [] = result
difference result (a ∷ s) (b ∷ t) = difference (or_bits 8 result (xor_bits 8 a b)) s t

unfoldable pub constant_time_equal : Str → Str → Bool
constant_time_equal a b = if not (length a == length b) then false else difference 0 a b == 0

-- Every element is a byte.
abbrev pub AreBytes : Str → Type 0
AreBytes [] = Unit
AreBytes (c ∷ s) = (c < 256) × AreBytes s

xor_bits_zero : (n a b : ℕ) → a < 2 ^ n → b < 2 ^ n → (xor_bits n a b ≡ 0) ↔ (a ≡ b)
unfolding xor_bits
xor_bits_zero zero a b h k = ground arith
xor_bits_zero (suc n) a b h k =
    let i = xor_bits_zero n (a / 2) (b / 2) (omega arith) (omega arith) in
    (
      λ e. let j = i.0 (omega (arith, e)) in omega (arith, e, j),
      λ e. let j = i.1 (rw e refl) in omega (arith, e, j),
    )

or_bits_zero : (n a b : ℕ) → a < 2 ^ n → b < 2 ^ n → (or_bits n a b ≡ 0) ↔ ((a ≡ 0) × (b ≡ 0))
unfolding or_bits
or_bits_zero zero a b h k = ground arith
or_bits_zero (suc n) a b h k =
    let i = or_bits_zero n (a / 2) (b / 2) (omega arith) (omega arith) in
    (
      λ e. let j = i.0 (omega (arith, e)) in (omega (arith, e, j), omega (arith, e, j)),
      λ e. let j = i.1 (omega (arith, e), omega (arith, e)) in omega (arith, e, j),
    )

xor_bits_bound : (n a b : ℕ) → xor_bits n a b < 2 ^ n
unfolding xor_bits
xor_bits_bound zero a b = omega arith
xor_bits_bound (suc n) a b =
    let low : (a % 2 + b % 2) % 2 < 2 = omega arith in
    omega (arith, low, xor_bits_bound n (a / 2) (b / 2))

or_bits_bound : (n a b : ℕ) → or_bits n a b < 2 ^ n
unfolding or_bits
or_bits_bound zero a b = omega arith
or_bits_bound (suc n) a b =
    let low : max (a % 2) (b % 2) < 2 = omega arith in
    omega (arith, low, or_bits_bound n (a / 2) (b / 2))

difference-zero :
    (r : ℕ) (s t : Str)
    → r < 256
    → AreBytes s
    → AreBytes t
    → length s ≡ length t
    → (difference r s t ≡ 0) ↔ ((r ≡ 0) × (s ≡ t))
unfolding difference
difference-zero r [] [] h bs bt e = ground arith
difference-zero r [] (b ∷ t) h bs bt e = ground arith
difference-zero r (a ∷ s) [] h bs bt e = ground arith
difference-zero r (a ∷ s) (b ∷ t) h bs bt e =
    let x = xor_bits 8 a b in
    let o = or_bits_zero 8 r x h (xor_bits_bound 8 a b) in
    let same = xor_bits_zero 8 a b bs.0 bt.0 in
    let rest =
      difference-zero (or_bits 8 r x) s t (or_bits_bound 8 r x) bs.1 bt.1 (omega (arith, e)) in
    (
      λ z. let q = rest.0 z in let p = o.0 q.0 in (p.0, cons (same.0 p.1) q.1),
      λ z. let q = uncons z.1 in rest.1 (o.1 (z.0, same.1 q.0), q.1),
    )
  where
    cons : {a b : ℕ} {s t : Str} → a ≡ b → s ≡ t → (a ∷ s) ≡ (b ∷ t)
    cons p q = cc

    uncons : {a b : ℕ} {s t : Str} → (a ∷ s) ≡ (b ∷ t) → (a ≡ b) × (s ≡ t)
    uncons p = ground arith

-- On strings of bytes, the comparison without early exit answers yes exactly on equal strings.
constant_time_equal_iff :
    (a b : Str) → AreBytes a → AreBytes b → (constant_time_equal a b ≡ true) ↔ (a ≡ b)
unfolding constant_time_equal
constant_time_equal_iff a b ha hb = elim (Bool-cases (length a == length b)) [
  | inl e ↦ ground (
    arith,
    e,
    ==_iff (length a) (length b),
    difference-zero 0 a b (omega arith) ha hb ((==_iff (length a) (length b)).0 e),
  )
  | inr e ↦ (
    λ h. ground (arith, e, h),
    λ h. let l : length a ≡ length b = rw h refl in ground (arith, e, ==_iff (length a) (length b)),
  )
]
