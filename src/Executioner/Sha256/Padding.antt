-- ===== src/Executioner/Sha256/Padding.antt =====
-- execution/executioner.cpp, sha256_impl: the padded text and its blocks, and what the writes into the
-- array of 64 bytes leave.
use velix.Prelude.{
  append_assoc, append_nil, ℕ, zero, suc, ◌+◌, ◌-◌, ◌*◌, ◌/◌, ◌%◌, ◌^◌, ◌≤◌, ◌<◌, Str, [], ◌∷◌,
  ◌++◌, ◌≡◌, refl, ap, ◌∙◌, sym, arith, length, take, drop, take-append-drop, length-take,
  length-drop,
}
use velix.Prelude.Words.{u64_mod}
use velix.Executioner.Sha256.{Hash, transform, zeros, set_at, clear, write_bitlen}

-- The length in bits, as eight bytes, the highest first.
unfoldable pub length_bytes : ℕ → Str
length_bytes n =
    (n / 2 ^ 56 % 256)
    ∷ ((n / 2 ^ 48 % 256)
        ∷ ((n / 2 ^ 40 % 256)
            ∷ ((n / 2 ^ 32 % 256)
                ∷ ((n / 2 ^ 24 % 256)
                    ∷ ((n / 2 ^ 16 % 256) ∷ ((n / 2 ^ 8 % 256) ∷ ((n % 256) ∷ [])))))))

-- What follows a text of n bytes: a one bit, zeros up to 56 bytes in the last block, the length.
unfoldable pub padding : ℕ → Str
unfolding zeros length_bytes
padding n = 128 ∷ (zeros ((119 - n % 64) % 64) ++ length_bytes (8 * n % u64_mod))

-- The compression of n blocks.
unfoldable pub digest : ℕ → Hash → Str → Hash
digest zero s text = s
digest (suc n) s text = digest n (transform s (take 64 text)) (drop 64 text)

pub length-zeros : (n : ℕ) → length (zeros n) ≡ n
unfolding zeros
length-zeros zero = refl
length-zeros (suc n) = omega (arith, length-zeros n)

pub length-set_at : (i v : ℕ) (s : Str) → length (set_at i v s) ≡ length s
unfolding set_at
length-set_at i v [] = ground arith
length-set_at zero v (x ∷ s) = refl
length-set_at (suc i) v (x ∷ s) = omega (arith, length-set_at i v s)

pub take-set_at :
    (i v : ℕ) (s : Str) → i < length s → take (suc i) (set_at i v s) ≡ take i s ++ (v ∷ [])
unfolding set_at
take-set_at i v [] h = ground arith
take-set_at zero v (x ∷ s) h = refl
take-set_at (suc i) v (x ∷ s) h = rw (take-set_at i v s (omega (arith, h))) refl

pub take-all : (s : Str) → take (length s) s ≡ s
take-all [] = refl
take-all (x ∷ s) = rw (take-all s) refl

-- Zeros from index i on follow what stands before i.
pub take-clear :
    (n i : ℕ) (s : Str) → i + n ≤ length s → take (i + n) (clear n i s) ≡ take i s ++ zeros n
unfolding clear zeros
take-clear zero i s h = ap (λ k. take k s) (omega arith) ∙ sym (append_nil (take i s))
take-clear (suc n) i s h =
    let written : suc i + n ≤ length (set_at i 0 s) = omega (arith, h, length-set_at i 0 s) in
    ap (λ k. take k (clear n (suc i) (set_at i 0 s))) (omega arith)
    ∙ take-clear n (suc i) (set_at i 0 s) written
    ∙ ap (λ l. l ++ zeros n) (take-set_at i 0 s (omega (arith, h)))
    ∙ append_assoc (take i s) (0 ∷ []) (zeros n)

pub length-clear : (n i : ℕ) (s : Str) → length (clear n i s) ≡ length s
unfolding clear
length-clear zero i s = refl
length-clear (suc n) i s = omega (arith, length-clear n (suc i) (set_at i 0 s), length-set_at i 0 s)

-- A write behind the front part.
pub set_at-append :
    (p s : Str) (j i v : ℕ) → j ≡ length p + i → set_at j v (p ++ s) ≡ p ++ set_at i v s
unfolding set_at
set_at-append [] s j i v h = rw (h) (ground arith)
set_at-append (x ∷ p) s zero i v h = absurd (omega (arith, h))
set_at-append (x ∷ p) s (suc j) i v h = rw (set_at-append p s j i v (omega (arith, h))) refl

-- The writes of the length, with the positions counted from 56.
last_eight : ℕ → Str → Str
last_eight n s =
    let s7 : Str = set_at 7 (n % 256) s in
    let s6 : Str = set_at 6 (n / 2 ^ 8 % 256) s7 in
    let s5 : Str = set_at 5 (n / 2 ^ 16 % 256) s6 in
    let s4 : Str = set_at 4 (n / 2 ^ 24 % 256) s5 in
    let s3 : Str = set_at 3 (n / 2 ^ 32 % 256) s4 in
    let s2 : Str = set_at 2 (n / 2 ^ 40 % 256) s3 in
    let s1 : Str = set_at 1 (n / 2 ^ 48 % 256) s2 in set_at 0 (n / 2 ^ 56 % 256) s1

last_eight-length_bytes : (n : ℕ) (s : Str) → length s ≡ 8 → last_eight n s ≡ length_bytes n
unfolding last_eight set_at length_bytes
last_eight-length_bytes n (a ∷ (b ∷ (c ∷ (d ∷ (e ∷ (f ∷ (g ∷ (h ∷ [])))))))) k = refl
last_eight-length_bytes n _ k = absurd (omega (arith, k))

write_bitlen-append :
    (p s : Str) (n : ℕ) → length p ≡ 56 → write_bitlen n (p ++ s) ≡ p ++ last_eight n s
unfolding write_bitlen last_eight
write_bitlen-append p s n h =
    let s7 : Str = set_at 7 (n % 256) s in
    let s6 : Str = set_at 6 (n / 2 ^ 8 % 256) s7 in
    let s5 : Str = set_at 5 (n / 2 ^ 16 % 256) s6 in
    let s4 : Str = set_at 4 (n / 2 ^ 24 % 256) s5 in
    let s3 : Str = set_at 3 (n / 2 ^ 32 % 256) s4 in
    let s2 : Str = set_at 2 (n / 2 ^ 40 % 256) s3 in
    let s1 : Str = set_at 1 (n / 2 ^ 48 % 256) s2 in
    rw
      (
        set_at-append p s 63 7 (n % 256) (omega (arith, h)),
        set_at-append p s7 62 6 (n / 2 ^ 8 % 256) (omega (arith, h)),
        set_at-append p s6 61 5 (n / 2 ^ 16 % 256) (omega (arith, h)),
        set_at-append p s5 60 4 (n / 2 ^ 24 % 256) (omega (arith, h)),
        set_at-append p s4 59 3 (n / 2 ^ 32 % 256) (omega (arith, h)),
        set_at-append p s3 58 2 (n / 2 ^ 40 % 256) (omega (arith, h)),
        set_at-append p s2 57 1 (n / 2 ^ 48 % 256) (omega (arith, h)),
        set_at-append p s1 56 0 (n / 2 ^ 56 % 256) (omega (arith, h)),
      )
      refl

-- The length replaces the last eight bytes of the array.
pub write_bitlen-take :
    (n : ℕ) (s : Str) → length s ≡ 64 → write_bitlen n s ≡ take 56 s ++ length_bytes n
write_bitlen-take n s h =
    let front : length (take 56 s) ≡ 56 = omega (arith, h, length-take 56 s) in
    let back : length (drop 56 s) ≡ 8 = omega (arith, h, length-drop 56 s) in
    ap (write_bitlen n) (sym (take-append-drop 56 s))
    ∙ write_bitlen-append (take 56 s) (drop 56 s) n front
    ∙ ap (λ l. take 56 s ++ l) (last_eight-length_bytes n (drop 56 s) back)
