-- ===== src/Executioner/Sha256/Streaming.antt =====
-- execution/executioner.cpp, sha256_impl: the hash of a text fed in pieces, against the standard.
use velix.Prelude.{
  append_assoc, ℕ, zero, suc, ◌+◌, ◌*◌, ◌/◌, ◌%◌, ◌<◌, Str, [], ◌∷◌, ◌++◌, ◌≡◌, refl, ap, ◌∙◌, sym,
  arith, length, take, drop, ◌==◌, nat_eq, ==_iff, Bool-cases, inl, inr,
}
use velix.Prelude.Words.{u64_mod, add64}
use velix.Executioner.Sha256.{Hash, Ctx, transform, set_at, absorb, update}
use velix.Executioner.Sha256.Padding.{digest, length-set_at, take-set_at, take-all}

-- The array is not full, and the count is a uint64_t.
pub record IsOpen (c : Ctx) : Type 0 where
  pub whole : length c.bytes ≡ 64
  pub room : c.datalen < 64
  pub count : c.bitlen < u64_mod

-- The bytes that wait for a full block.
abbrev pub pending : Ctx → Str
pending c = take c.datalen c.bytes

take-append : (p s : Str) (n : ℕ) → length p ≡ n → take n (p ++ s) ≡ p
take-append [] s zero h = refl
take-append [] s (suc n) h = absurd (omega (arith, h))
take-append (x ∷ p) s zero h = absurd (omega (arith, h))
take-append (x ∷ p) s (suc n) h = rw (take-append p s n (omega (arith, h))) refl

drop-append : (p s : Str) (n : ℕ) → length p ≡ n → drop n (p ++ s) ≡ s
drop-append [] s zero h = refl
drop-append [] s (suc n) h = absurd (omega (arith, h))
drop-append (x ∷ p) s zero h = absurd (omega (arith, h))
drop-append (x ∷ p) s (suc n) h = rw (drop-append p s n (omega (arith, h))) refl

-- The compression of a block in front.
pub digest-append :
    (n : ℕ) (h : Hash) (p s : Str)
    → length p ≡ 64
    → digest (suc n) h (p ++ s) ≡ digest n (transform h p) s
unfolding digest
digest-append n h p s k = rw (take-append p s 64 k, drop-append p s 64 k) refl

pub absorb-IsOpen : (c : Ctx) (x : ℕ) → IsOpen c → IsOpen (absorb c x)
unfolding absorb add64
absorb-IsOpen c x v = ground (arith, length-set_at c.datalen x c.bytes, v.whole, v.room, v.count)

-- The pending bytes with one more.
pending-set_at :
    (c : Ctx) (x : ℕ) (s : Str)
    → IsOpen c
    → take (suc c.datalen) (set_at c.datalen x c.bytes) ++ s ≡ pending c ++ (x ∷ s)
pending-set_at c x s v =
    ap (λ l. l ++ s) (take-set_at c.datalen x c.bytes (omega (arith, v.room, v.whole)))
    ∙ append_assoc (pending c) (x ∷ []) s

-- What one more byte leaves to digest.
absorb-digest :
    (n : ℕ) (c : Ctx) (x : ℕ) (s : Str)
    → IsOpen c
    → digest (suc c.datalen / 64 + n) c.state (pending c ++ (x ∷ s))
      ≡ digest n (absorb c x).state (pending (absorb c x) ++ s)
unfolding absorb
absorb-digest n c x s v =
    let written : Str = set_at c.datalen x c.bytes in
    elim (Bool-cases (suc c.datalen == 64)) [
      | inl e ↦
          let full : suc c.datalen ≡ 64 = (==_iff (suc c.datalen) 64).0 e in
          let size : length written ≡ 64 =
            omega (arith, length-set_at c.datalen x c.bytes, v.whole) in
          let all : take (suc c.datalen) written ≡ written =
            ap (λ k. take k written) (full ∙ sym size) ∙ take-all written in
          let front : pending c ++ (x ∷ s) ≡ written ++ s =
            sym (pending-set_at c x s v) ∙ ap (λ l. l ++ s) all in
          let one : suc c.datalen / 64 + n ≡ suc n = omega (arith, full) in
          rw (e, one, front) (digest-append n c.state written s size)
      | inr e ↦
          let none_yet : suc c.datalen / 64 + n ≡ n = ground (arith, e, v.room) in
          rw (e, none_yet, pending-set_at c x s v) refl
    ]

absorb-datalen : (c : Ctx) (x : ℕ) → IsOpen c → (absorb c x).datalen ≡ suc c.datalen % 64
unfolding absorb
absorb-datalen c x v = ground (arith, v.room)

absorb-bitlen :
    (c : Ctx) (x : ℕ)
    → IsOpen c
    → (absorb c x).bitlen ≡ (c.bitlen + 512 * (suc c.datalen / 64)) % u64_mod
unfolding absorb add64
absorb-bitlen c x v = ground (arith, v.room, v.count)

pub update-IsOpen : (c : Ctx) (s : Str) → IsOpen c → IsOpen (update c s)
unfolding update
update-IsOpen c [] v = v
update-IsOpen c (x ∷ s) v = update-IsOpen (absorb c x) s (absorb-IsOpen c x v)

-- What a text leaves to digest.
pub update-digest :
    (n : ℕ) (c : Ctx) (s rest : Str)
    → IsOpen c
    → digest ((c.datalen + length s) / 64 + n) c.state (pending c ++ (s ++ rest))
      ≡ digest n (update c s).state (pending (update c s) ++ rest)
unfolding update
update-digest n c [] rest v = ap (λ k. digest k c.state (pending c ++ rest)) (omega (arith, v.room))
update-digest n c (x ∷ s) rest v =
    let c1 : Ctx = absorb c x in
    let blocks : (c.datalen + suc (length s)) / 64 + n
        ≡ suc c.datalen / 64 + ((c1.datalen + length s) / 64 + n) =
      omega (arith, absorb-datalen c x v) in
    ap (λ k. digest k c.state (pending c ++ (x ∷ (s ++ rest)))) blocks
    ∙ absorb-digest ((c1.datalen + length s) / 64 + n) c x (s ++ rest) v
    ∙ update-digest n c1 s rest (absorb-IsOpen c x v)

pub update-datalen :
    (c : Ctx) (s : Str) → IsOpen c → (update c s).datalen ≡ (c.datalen + length s) % 64
unfolding update
update-datalen c [] v = omega (arith, v.room)
update-datalen c (x ∷ s) v =
    omega (arith, update-datalen (absorb c x) s (absorb-IsOpen c x v), absorb-datalen c x v)

pub update-bitlen :
    (c : Ctx) (s : Str)
    → IsOpen c
    → (update c s).bitlen ≡ (c.bitlen + 512 * ((c.datalen + length s) / 64)) % u64_mod
unfolding update
update-bitlen c [] v = omega (arith, v.room, v.count)
update-bitlen c (x ∷ s) v = omega (
  arith,
  update-bitlen (absorb c x) s (absorb-IsOpen c x v),
  absorb-datalen c x v,
  absorb-bitlen c x v,
)
