-- ===== src/Executioner/Sha256.antt =====
-- execution/executioner.cpp, sha256_impl: the words, the compression of a block, update, finalise and
-- sha256. A byte is a number below 256, a 32-bit word one below 2 ^ 32.
pub mod Padding
pub mod Streaming
pub mod Standard
pub mod Agreement
pub mod Closing
use Prim.Native.Nat.{bit_and, bit_or, bit_xor}
use velix.Prelude.{
  ℕ, zero, suc, ◌+◌, ◌-◌, ◌*◌, ◌/◌, ◌%◌, ◌^◌, Str, List, [], ◌∷◌, ◌++◌, ◌==◌, nat_eq, ltb,
  if◌then◌else◌,
}
use velix.Prelude.Words.{add64, mul64}

-- uint32_t
abbrev pub u32 : ℕ → ℕ
u32 n = n % 2 ^ 32

unfoldable pub rotr : ℕ → ℕ → ℕ
rotr x n = bit_or (x / 2 ^ n) (u32 (x * 2 ^ (32 - n)))

unfoldable pub ch : ℕ → ℕ → ℕ → ℕ
ch x y z = bit_xor (bit_and x y) (bit_and (2 ^ 32 - 1 - x) z)

unfoldable pub maj : ℕ → ℕ → ℕ → ℕ
maj x y z = bit_xor (bit_xor (bit_and x y) (bit_and x z)) (bit_and y z)

unfoldable pub ep0 : ℕ → ℕ
unfolding rotr
ep0 x = bit_xor (bit_xor (rotr x 2) (rotr x 13)) (rotr x 22)

unfoldable pub ep1 : ℕ → ℕ
unfolding rotr
ep1 x = bit_xor (bit_xor (rotr x 6) (rotr x 11)) (rotr x 25)

unfoldable pub sig0 : ℕ → ℕ
unfolding rotr
sig0 x = bit_xor (bit_xor (rotr x 7) (rotr x 18)) (x / 2 ^ 3)

unfoldable pub sig1 : ℕ → ℕ
unfolding rotr
sig1 x = bit_xor (bit_xor (rotr x 17) (rotr x 19)) (x / 2 ^ 10)

-- The eight words of the state, which transform also names a to h.
pub record Hash : Type 0 where
  pub a : ℕ
  pub b : ℕ
  pub c : ℕ
  pub d : ℕ
  pub e : ℕ
  pub f : ℕ
  pub g : ℕ
  pub h : ℕ

abbrev pub initial : Hash
initial = record {
  a = 1779033703;
  b = 3144134277;
  c = 1013904242;
  d = 2773480762;
  e = 1359893119;
  f = 2600822924;
  g = 528734635;
  h = 1541459225;
}

abbrev pub round_constants : List ℕ
round_constants =
    1116352408 ∷ 1899447441 ∷ 3049323471 ∷ 3921009573 ∷ 961987163 ∷ 1508970993 ∷ 2453635748
    ∷ 2870763221 ∷ 3624381080 ∷ 310598401 ∷ 607225278 ∷ 1426881987 ∷ 1925078388 ∷ 2162078206
    ∷ 2614888103 ∷ 3248222580 ∷ 3835390401 ∷ 4022224774 ∷ 264347078 ∷ 604807628 ∷ 770255983
    ∷ 1249150122 ∷ 1555081692 ∷ 1996064986 ∷ 2554220882 ∷ 2821834349 ∷ 2952996808 ∷ 3210313671
    ∷ 3336571891 ∷ 3584528711 ∷ 113926993 ∷ 338241895 ∷ 666307205 ∷ 773529912 ∷ 1294757372
    ∷ 1396182291 ∷ 1695183700 ∷ 1986661051 ∷ 2177026350 ∷ 2456956037 ∷ 2730485921 ∷ 2820302411
    ∷ 3259730800 ∷ 3345764771 ∷ 3516065817 ∷ 3600352804 ∷ 4094571909 ∷ 275423344 ∷ 430227734
    ∷ 506948616 ∷ 659060556 ∷ 883997877 ∷ 958139571 ∷ 1322822218 ∷ 1537002063 ∷ 1747873779
    ∷ 1955562222 ∷ 2024104815 ∷ 2227730452 ∷ 2361852424 ∷ 2428436474 ∷ 2756734187 ∷ 3204031479
    ∷ 3329325298 ∷ []

-- An element of an array, 0 out of range.
unfoldable pub at : Str → ℕ → ℕ
at [] i = 0
at (x ∷ s) zero = x
at (x ∷ s) (suc i) = at s i

-- The first words of a block, big-endian.
unfoldable pub words : ℕ → Str → List ℕ
words zero s = []
words (suc n) (w ∷ (x ∷ (y ∷ (z ∷ s)))) =
    bit_or (bit_or (bit_or (w * 2 ^ 24) (x * 2 ^ 16)) (y * 2 ^ 8)) z ∷ words n s
words (suc n) s = []

-- The rest of the message schedule: m has the first i words.
unfoldable pub extend : ℕ → ℕ → List ℕ → List ℕ
unfolding at sig0 sig1
extend zero i m = m
extend (suc n) i m =
    extend n (suc i)
      (m ++ (u32 (sig1 (at m (i - 2)) + at m (i - 7) + sig0 (at m (i - 15)) + at m (i - 16)) ∷ []))

unfoldable pub round : ℕ → ℕ → Hash → Hash
unfolding ep0 ep1 ch maj
round k m v =
    let t1 : ℕ = u32 (v.h + ep1 v.e + ch v.e v.f v.g + k + m) in
    let t2 : ℕ = u32 (ep0 v.a + maj v.a v.b v.c) in
    record {
      a = u32 (t1 + t2);
      b = v.a;
      c = v.b;
      d = v.c;
      e = u32 (v.d + t1);
      f = v.e;
      g = v.f;
      h = v.g;
    }

unfoldable pub rounds : List ℕ → List ℕ → Hash → Hash
unfolding round
rounds (k ∷ ks) (m ∷ ms) v = rounds ks ms (round k m v)
rounds _ _ v = v

-- The state after transform.
unfoldable pub transform : Hash → Str → Hash
unfolding words extend rounds
transform s block =
    let v : Hash = rounds round_constants (extend 48 16 (words 16 block)) s in
    record {
      a = u32 (s.a + v.a);
      b = u32 (s.b + v.b);
      c = u32 (s.c + v.c);
      d = u32 (s.d + v.d);
      e = u32 (s.e + v.e);
      f = u32 (s.f + v.f);
      g = u32 (s.g + v.g);
      h = u32 (s.h + v.h);
    }

-- Ctx: the array of 64 bytes, of which the first datalen are pending, and the counts.
pub record Ctx : Type 0 where
  pub bytes : Str
  pub datalen : ℕ
  pub bitlen : ℕ
  pub state : Hash

unfoldable pub zeros : ℕ → Str
zeros zero = []
zeros (suc n) = 0 ∷ zeros n

unfoldable pub fresh : Ctx
unfolding zeros
fresh = record { bytes = zeros 64; datalen = 0; bitlen = 0; state = initial }

-- array[i] = v
unfoldable pub set_at : ℕ → ℕ → Str → Str
set_at i v [] = []
set_at zero v (x ∷ s) = v ∷ s
set_at (suc i) v (x ∷ s) = x ∷ set_at i v s

-- One turn of the loop of update.
unfoldable pub absorb : Ctx → ℕ → Ctx
unfolding set_at
absorb c x =
    let written : Str = set_at c.datalen x c.bytes in
    if suc c.datalen == 64
    then record {
      bytes = written;
      datalen = 0;
      bitlen = add64 c.bitlen 512;
      state = transform c.state written;
    }
    else record { bytes = written; datalen = suc c.datalen; bitlen = c.bitlen; state = c.state }

unfoldable pub update : Ctx → Str → Ctx
unfolding absorb
update c [] = c
update c (x ∷ s) = update (absorb c x) s

-- The loops that write n zeros from index i on.
unfoldable pub clear : ℕ → ℕ → Str → Str
unfolding set_at
clear zero i s = s
clear (suc n) i s = clear n (suc i) (set_at i 0 s)

-- The eight bytes of bitlen, the last one first.
unfoldable pub write_bitlen : ℕ → Str → Str
unfolding set_at
write_bitlen n s =
    let s63 : Str = set_at 63 (n % 256) s in
    let s62 : Str = set_at 62 (n / 2 ^ 8 % 256) s63 in
    let s61 : Str = set_at 61 (n / 2 ^ 16 % 256) s62 in
    let s60 : Str = set_at 60 (n / 2 ^ 24 % 256) s61 in
    let s59 : Str = set_at 59 (n / 2 ^ 32 % 256) s60 in
    let s58 : Str = set_at 58 (n / 2 ^ 40 % 256) s59 in
    let s57 : Str = set_at 57 (n / 2 ^ 48 % 256) s58 in set_at 56 (n / 2 ^ 56 % 256) s57

-- The four bytes of a word, and bytes in two hexadecimal digits each.
unfoldable pub word_bytes : ℕ → Str
word_bytes w = (w / 2 ^ 24 % 256) ∷ ((w / 2 ^ 16 % 256) ∷ ((w / 2 ^ 8 % 256) ∷ ((w % 256) ∷ [])))

abbrev pub hex_digit : ℕ → ℕ
hex_digit n = if ltb n 10 then 48 + n else 87 + n

unfoldable pub hex : Str → Str
hex [] = []
hex (x ∷ s) = hex_digit (x / 16) ∷ (hex_digit (x % 16) ∷ hex s)

unfoldable pub printed : Hash → Str
unfolding word_bytes hex
printed s =
    let left : Str = word_bytes s.a ++ (word_bytes s.b ++ (word_bytes s.c ++ word_bytes s.d)) in
    let right : Str = word_bytes s.e ++ (word_bytes s.f ++ (word_bytes s.g ++ word_bytes s.h)) in
    hex (left ++ right)

-- finalise up to the output: the last one or two blocks.
unfoldable pub close : Ctx → Hash
unfolding set_at clear write_bitlen
close c =
    let marked : Str = set_at c.datalen 128 c.bytes in
    let bits : ℕ = add64 c.bitlen (mul64 c.datalen 8) in
    if ltb c.datalen 56
    then transform c.state (write_bitlen bits (clear (55 - c.datalen) (suc c.datalen) marked))
    else let filled : Str = clear (63 - c.datalen) (suc c.datalen) marked in
      transform (transform c.state filled) (write_bitlen bits (clear 56 0 filled))

unfoldable pub finalise : Ctx → Str
unfolding close printed
finalise c = printed (close c)

unfoldable pub sha256 : Str → Str
unfolding fresh update finalise
sha256 text = finalise (update fresh text)
