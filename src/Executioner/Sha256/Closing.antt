-- ===== src/Executioner/Sha256/Closing.antt =====
-- execution/executioner.cpp, sha256_impl: finalise, and the whole hash of a text.
use velix.Prelude.{
  append_assoc, append_nil, ℕ, zero, suc, ◌+◌, ◌-◌, ◌*◌, ◌/◌, ◌%◌, ◌≤◌, ◌<◌, Str, [], ◌∷◌, ◌++◌,
  ◌≡◌, refl, ap, ◌∙◌, sym, arith, length, take, length-take, length-append, ltb, Bool-cases, inl,
  inr,
}
use velix.Prelude.Words.{u64_mod, add64, mul64}
use velix.Executioner.Sha256.{
  Hash, Ctx, initial, transform, zeros, set_at, clear, write_bitlen, absorb, printed, update, close,
  finalise, fresh, sha256,
}
use velix.Executioner.Sha256.Padding.{
  length_bytes, padding, digest, length-zeros, length-set_at, take-set_at, take-all, take-clear,
  length-clear, write_bitlen-take,
}
use velix.Executioner.Sha256.Standard.{reference, hashed, starting, in_digits}
use velix.Executioner.Sha256.Agreement.{padding-tail, digest-standard, printed-in_digits}
use velix.Executioner.Sha256.Streaming.{
  IsOpen, pending, digest-append, update-IsOpen, update-digest, update-datalen, update-bitlen,
}

-- The array with the one bit and n zeros behind the pending bytes.
abbrev filled : Ctx → ℕ → Str
filled c n = clear n (suc c.datalen) (set_at c.datalen 128 c.bytes)

length-filled : (c : Ctx) (n : ℕ) → IsOpen c → length (filled c n) ≡ 64
length-filled c n v = omega (
  arith,
  length-clear n (suc c.datalen) (set_at c.datalen 128 c.bytes),
  length-set_at c.datalen 128 c.bytes,
  v.whole,
)

take-filled :
    (c : Ctx) (n : ℕ)
    → IsOpen c
    → suc c.datalen + n ≤ 64
    → take (suc c.datalen + n) (filled c n) ≡ pending c ++ (128 ∷ zeros n)
take-filled c n v h =
    let marked : Str = set_at c.datalen 128 c.bytes in
    take-clear n (suc c.datalen) marked
      (omega (arith, h, length-set_at c.datalen 128 c.bytes, v.whole))
    ∙ ap (λ l. l ++ zeros n) (take-set_at c.datalen 128 c.bytes (omega (arith, v.room, v.whole)))
    ∙ append_assoc (pending c) (128 ∷ []) (zeros n)

zeros-+ : (a b : ℕ) (s : Str) → zeros (a + b) ++ s ≡ zeros a ++ (zeros b ++ s)
unfolding zeros
zeros-+ zero b s = let e : 0 + b ≡ b = omega arith in ap (λ k. zeros k ++ s) e
zeros-+ (suc a) b s =
    let e : suc a + b ≡ suc (a + b) = omega arith in
    ap (λ k. zeros k ++ s) e ∙ ap (λ l. 0 ∷ l) (zeros-+ a b s)

-- The compression of one block that is the whole text.
digest_one : (h : Hash) (p : Str) → length p ≡ 64 → digest 1 h p ≡ transform h p
unfolding digest
digest_one h p k = ap (digest 1 h) (sym (append_nil p)) ∙ digest-append 0 h p [] k

close_short :
    (c : Ctx) (bits : ℕ)
    → IsOpen c
    → c.datalen < 56
    → write_bitlen bits (filled c (55 - c.datalen))
      ≡ pending c ++ (128 ∷ (zeros (55 - c.datalen) ++ length_bytes bits))
close_short c bits v h =
    let n : ℕ = 55 - c.datalen in
    let at56 : suc c.datalen + n ≡ 56 = omega (arith, h) in
    write_bitlen-take bits (filled c n) (length-filled c n v)
    ∙ ap (λ k. take k (filled c n) ++ length_bytes bits) (sym at56)
    ∙ ap (λ l. l ++ length_bytes bits) (take-filled c n v (omega (arith, at56)))
    ∙ append_assoc (pending c) (128 ∷ zeros n) (length_bytes bits)

close_long :
    (c : Ctx) (bits : ℕ)
    → IsOpen c
    → 55 < c.datalen
    → write_bitlen bits (clear 56 0 (filled c (63 - c.datalen))) ≡ zeros 56 ++ length_bytes bits
close_long c bits v h =
    let block : Str = filled c (63 - c.datalen) in
    let size : length block ≡ 64 = length-filled c (63 - c.datalen) v in
    write_bitlen-take bits (clear 56 0 block) (omega (arith, length-clear 56 0 block, size))
    ∙ ap (λ l. l ++ length_bytes bits) (take-clear 56 0 block (omega (arith, size)))

filled_whole :
    (c : Ctx) → IsOpen c → filled c (63 - c.datalen) ≡ pending c ++ (128 ∷ zeros (63 - c.datalen))
filled_whole c v =
    let n : ℕ = 63 - c.datalen in
    let size : length (filled c n) ≡ 64 = length-filled c n v in
    let all : suc c.datalen + n ≡ 64 = omega (arith, v.room) in
    sym (take-all (filled c n))
    ∙ ap (λ k. take k (filled c n)) (size ∙ sym all)
    ∙ take-filled c n v (omega (arith, all))

-- The bytes behind the text, when b is the length in bits.
abbrev closing : ℕ → ℕ → Str
closing n b = 128 ∷ (zeros ((119 - n) % 64) ++ length_bytes b)

length-closed :
    (c : Ctx) (n b : ℕ)
    → IsOpen c
    → length (pending c ++ (128 ∷ (zeros n ++ length_bytes b))) ≡ c.datalen + n + 9
unfolding length_bytes
length-closed c n b v = omega (
  arith,
  length-append (pending c) (128 ∷ (zeros n ++ length_bytes b)),
  length-append (zeros n) (length_bytes b),
  length-zeros n,
  length-take c.datalen c.bytes,
  v.whole,
  v.room,
)

close-digest :
    (c : Ctx)
    → IsOpen c
    → close c
      ≡ digest
          ((c.datalen + 72) / 64)
          c.state
          (pending c ++ closing c.datalen (add64 c.bitlen (mul64 c.datalen 8)))
unfolding close zeros length_bytes
close-digest c v =
    let bits : ℕ = add64 c.bitlen (mul64 c.datalen 8) in
    elim (Bool-cases (ltb c.datalen 56)) [
      | inl e ↦
          let n : ℕ = 55 - c.datalen in
          let short : c.datalen < 56 = ground (arith, e) in
          let one : (c.datalen + 72) / 64 ≡ 1 = omega (arith, short) in
          let fill : (119 - c.datalen) % 64 ≡ n = omega (arith, short) in
          let block : Str = pending c ++ (128 ∷ (zeros n ++ length_bytes bits)) in
          let size : length block ≡ 64 = omega (arith, length-closed c n bits v, short) in
          rw (e, one, fill)
            (ap (transform c.state) (close_short c bits v short)
              ∙ sym (digest_one c.state block size))
      | inr e ↦
          let n : ℕ = 63 - c.datalen in
          let long : 55 < c.datalen = ground (arith, e) in
          let two : (c.datalen + 72) / 64 ≡ 2 = omega (arith, long, v.room) in
          let fill : (119 - c.datalen) % 64 ≡ n + 56 = omega (arith, long, v.room) in
          let last : Str = zeros 56 ++ length_bytes bits in
          let block : Str = filled c n in
          let h : Hash = transform c.state block in
          let text : pending c ++ (128 ∷ (zeros (n + 56) ++ length_bytes bits)) ≡ block ++ last =
            ap (λ l. pending c ++ (128 ∷ l)) (zeros-+ n 56 (length_bytes bits))
            ∙ sym (append_assoc (pending c) (128 ∷ zeros n) last)
            ∙ ap (λ l. l ++ last) (sym (filled_whole c v)) in
          rw (e, two, fill, text)
            (ap (transform h) (close_long c bits v long)
              ∙ sym (digest_one h last refl)
              ∙ sym (digest-append 1 c.state block last (length-filled c n v)))
    ]

fresh-IsOpen : IsOpen fresh
unfolding fresh zeros
fresh-IsOpen = record { whole = refl; room = omega arith; count = omega arith }

length-padded :
    (text : Str)
    → length (text ++ padding (length text)) / 64
      ≡ (0 + length text) / 64 + (length text % 64 + 72) / 64
unfolding padding length_bytes
length-padded text =
    let n : ℕ = length text in
    let tail : Str = length_bytes (8 * n % u64_mod) in
    let fill : ℕ = (119 - n % 64) % 64 in
    omega (
      arith,
      length-append text (128 ∷ (zeros fill ++ tail)),
      length-append (zeros fill) tail,
      length-zeros fill,
    )

-- The padding of the whole text is the closing of what is pending at its end.
closing-padding :
    (text : Str)
    → closing
        (update fresh text).datalen
        (add64 (update fresh text).bitlen (mul64 (update fresh text).datalen 8))
      ≡ padding (length text)
unfolding padding fresh add64 mul64
closing-padding text =
    let n : ℕ = length text in
    let rest : (update fresh text).datalen ≡ n % 64 =
      omega (arith, update-datalen fresh text fresh-IsOpen) in
    let bits : add64 (update fresh text).bitlen (mul64 (update fresh text).datalen 8)
        ≡ 8 * n % u64_mod =
      omega (arith, update-bitlen fresh text fresh-IsOpen, rest) in
    ap (λ k. closing k (add64 (update fresh text).bitlen (mul64 (update fresh text).datalen 8)))
      rest
    ∙ ap (closing (n % 64)) bits

close-reference :
    (text : Str)
    → close (update fresh text)
      ≡ digest (length (text ++ padding (length text)) / 64) initial (text ++ padding (length text))
unfolding fresh
close-reference text =
    let c : Ctx = update fresh text in
    let n : ℕ = length text in
    let rest : c.datalen ≡ n % 64 = omega (arith, update-datalen fresh text fresh-IsOpen) in
    close-digest c (update-IsOpen fresh text fresh-IsOpen)
    ∙ ap (λ l. digest ((c.datalen + 72) / 64) c.state (pending c ++ l)) (closing-padding text)
    ∙ ap (λ k. digest ((k + 72) / 64) c.state (pending c ++ padding n)) rest
    ∙ sym (update-digest ((n % 64 + 72) / 64) fresh text (padding n) fresh-IsOpen)
    ∙ ap (λ k. digest k initial (text ++ padding n)) (sym (length-padded text))

-- sha256 of any text is the hash that FIPS 180-4 defines, written down on its own from the standard:
-- the text is padded with a one bit, with zeros and with its length in bits modulo 2 ^ 64; the blocks
-- are compressed in order, with the standard's functions and schedule and with constants that are
-- computed from the roots of the first primes; and the state is written in hexadecimal digits.
pub sha256-reference : (text : Str) → sha256 text ≡ reference text
unfolding sha256 finalise reference
sha256-reference text =
    let whole : Str = text ++ padding (length text) in
    ap printed (close-reference text ∙ digest-standard (length whole / 64) whole)
    ∙ printed-in_digits (hashed (length whole / 64) starting whole)
    ∙ ap (λ l. in_digits (hashed (length (text ++ l) / 64) starting (text ++ l)))
        (padding-tail (length text))

-- A text fed in two pieces.
pub update-append : (c : Ctx) (s t : Str) → update c (s ++ t) ≡ update (update c s) t
unfolding update
update-append c [] t = refl
update-append c (x ∷ s) t = update-append (absorb c x) s t
