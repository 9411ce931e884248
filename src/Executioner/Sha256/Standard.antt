-- ===== src/Executioner/Sha256/Standard.antt =====
-- The secure hash SHA-256, written down from FIPS 180-4 on its own: it takes from execution/executioner.cpp, the
-- namespace sha256_impl, only the record for the eight words of the state.
use Prim.Native.Nat.{bit_and, bit_or, bit_xor}
use velix.Prelude.{
  ℕ, zero, suc, ◌+◌, ◌-◌, ◌*◌, ◌/◌, ◌%◌, ◌^◌, Str, List, [], ◌∷◌, ◌++◌, map, leb, if◌then◌else◌,
  take, drop, length, codes,
}
use velix.Executioner.Sha256.{Hash}

-- The functions of section 4.1.2 on words of 32 bits.
unfoldable pub rotated : ℕ → ℕ → ℕ
rotated n x = bit_or (x / 2 ^ n) (x * 2 ^ (32 - n) % 2 ^ 32)

unfoldable pub choose : ℕ → ℕ → ℕ → ℕ
choose x y z = bit_xor (bit_and x y) (bit_and (2 ^ 32 - 1 - x) z)

unfoldable pub majority : ℕ → ℕ → ℕ → ℕ
majority x y z = bit_xor (bit_xor (bit_and x y) (bit_and x z)) (bit_and y z)

unfoldable pub upper0 : ℕ → ℕ
unfolding rotated
upper0 x = bit_xor (bit_xor (rotated 2 x) (rotated 13 x)) (rotated 22 x)

unfoldable pub upper1 : ℕ → ℕ
unfolding rotated
upper1 x = bit_xor (bit_xor (rotated 6 x) (rotated 11 x)) (rotated 25 x)

unfoldable pub lower0 : ℕ → ℕ
unfolding rotated
lower0 x = bit_xor (bit_xor (rotated 7 x) (rotated 18 x)) (x / 2 ^ 3)

unfoldable pub lower1 : ℕ → ℕ
unfolding rotated
lower1 x = bit_xor (bit_xor (rotated 17 x) (rotated 19 x)) (x / 2 ^ 10)

-- The greatest number below 2 ^ bits, at least r, whose power is at most n.
unfoldable pub root_from : ℕ → ℕ → ℕ → ℕ → ℕ
root_from power n zero r = r
root_from power n (suc bits) r =
    let s : ℕ = r + 2 ^ bits in root_from power n bits (if leb (s ^ power) n then s else r)

-- The first 32 bits of the fractional part of the root of p.
unfoldable pub root_bits : ℕ → ℕ → ℕ
unfolding root_from
root_bits power p = root_from power (p * 2 ^ (32 * power)) 40 0 % 2 ^ 32

abbrev pub primes : List ℕ
primes =
    2 ∷ 3 ∷ 5 ∷ 7 ∷ 11 ∷ 13 ∷ 17 ∷ 19 ∷ 23 ∷ 29 ∷ 31 ∷ 37 ∷ 41 ∷ 43 ∷ 47 ∷ 53 ∷ 59 ∷ 61 ∷ 67 ∷ 71
    ∷ 73 ∷ 79 ∷ 83 ∷ 89 ∷ 97 ∷ 101 ∷ 103 ∷ 107 ∷ 109 ∷ 113 ∷ 127 ∷ 131 ∷ 137 ∷ 139 ∷ 149 ∷ 151 ∷ 157
    ∷ 163 ∷ 167 ∷ 173 ∷ 179 ∷ 181 ∷ 191 ∷ 193 ∷ 197 ∷ 199 ∷ 211 ∷ 223 ∷ 227 ∷ 229 ∷ 233 ∷ 239 ∷ 241
    ∷ 251 ∷ 257 ∷ 263 ∷ 269 ∷ 271 ∷ 277 ∷ 281 ∷ 283 ∷ 293 ∷ 307 ∷ 311 ∷ []

-- Section 4.2.2, from the cube roots of the first 64 primes; section 5.3.3, from the square roots of the first eight.
unfoldable pub constants : List ℕ
unfolding root_bits
constants = map (root_bits 3) primes

unfoldable pub starting : Hash
unfolding root_bits
starting = record {
  a = root_bits 2 2;
  b = root_bits 2 3;
  c = root_bits 2 5;
  d = root_bits 2 7;
  e = root_bits 2 11;
  f = root_bits 2 13;
  g = root_bits 2 17;
  h = root_bits 2 19;
}

-- The last k places of n in a base, the highest first.
unfoldable pub places : ℕ → ℕ → ℕ → List ℕ
places base zero n = []
places base (suc k) n = (n / base ^ k % base) ∷ places base k n

unfoldable pub blanks : ℕ → Str
blanks zero = []
blanks (suc n) = 0 ∷ blanks n

-- Section 5.1.1: a one bit, zeros up to 56 bytes in the last block, and the length in bits in 64 bits.
unfoldable pub tail : ℕ → Str
unfolding blanks places
tail n = 128 ∷ (blanks ((119 - n % 64) % 64) ++ places 256 8 (8 * n % 2 ^ 64))

unfoldable pub nth : List ℕ → ℕ → ℕ
nth [] i = 0
nth (x ∷ s) zero = x
nth (x ∷ s) (suc i) = nth s i

-- Section 6.2.2, step 1: the first words, and those from i on.
unfoldable pub first_words : ℕ → Str → List ℕ
first_words zero s = []
first_words (suc n) (w ∷ (x ∷ (y ∷ (z ∷ s)))) =
    bit_or (bit_or (bit_or (w * 2 ^ 24) (x * 2 ^ 16)) (y * 2 ^ 8)) z ∷ first_words n s
first_words (suc n) s = []

unfoldable pub schedule : ℕ → ℕ → List ℕ → List ℕ
unfolding nth lower0 lower1
schedule zero t w = w
schedule (suc n) t w = schedule n (suc t) (
    w
    ++ (((lower1 (nth w (t - 2)) + nth w (t - 7) + lower0 (nth w (t - 15)) + nth w (t - 16))
          % 2 ^ 32)
        ∷ []))

-- Step 3.
unfoldable pub turn : ℕ → ℕ → Hash → Hash
unfolding upper0 upper1 choose majority
turn k w v =
    let t1 : ℕ = (v.h + upper1 v.e + choose v.e v.f v.g + k + w) % 2 ^ 32 in
    let t2 : ℕ = (upper0 v.a + majority v.a v.b v.c) % 2 ^ 32 in
    record {
      a = (t1 + t2) % 2 ^ 32;
      b = v.a;
      c = v.b;
      d = v.c;
      e = (v.d + t1) % 2 ^ 32;
      f = v.e;
      g = v.f;
      h = v.g;
    }

unfoldable pub turns : List ℕ → List ℕ → Hash → Hash
unfolding turn
turns [] ws v = v
turns (k ∷ ks) [] v = v
turns (k ∷ ks) (w ∷ ws) v = turns ks ws (turn k w v)

-- Step 4.
unfoldable pub added : Hash → Hash → Hash
added s v = record {
  a = (s.a + v.a) % 2 ^ 32;
  b = (s.b + v.b) % 2 ^ 32;
  c = (s.c + v.c) % 2 ^ 32;
  d = (s.d + v.d) % 2 ^ 32;
  e = (s.e + v.e) % 2 ^ 32;
  f = (s.f + v.f) % 2 ^ 32;
  g = (s.g + v.g) % 2 ^ 32;
  h = (s.h + v.h) % 2 ^ 32;
}

unfoldable pub compressed : Hash → Str → Hash
unfolding added turns constants schedule first_words
compressed s block = added s (turns constants (schedule 48 16 (first_words 16 block)) s)

-- The blocks in their order.
unfoldable pub hashed : ℕ → Hash → Str → Hash
unfolding compressed
hashed zero s text = s
hashed (suc n) s text = hashed n (compressed s (take 64 text)) (drop 64 text)

-- The digest in hexadecimal digits, eight for each word.
unfoldable pub digits : ℕ → Str
unfolding places nth
digits w = map (nth (codes "0123456789abcdef")) (places 16 8 w)

unfoldable pub in_digits : Hash → Str
unfolding digits
in_digits s =
    digits s.a
    ++ (digits s.b
        ++ (digits s.c
            ++ (digits s.d ++ (digits s.e ++ (digits s.f ++ (digits s.g ++ digits s.h))))))

unfoldable pub reference : Str → Str
unfolding tail hashed starting in_digits
reference text =
    in_digits
      (hashed (length (text ++ tail (length text)) / 64) starting (text ++ tail (length text)))
