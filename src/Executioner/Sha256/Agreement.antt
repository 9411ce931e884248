-- ===== src/Executioner/Sha256/Agreement.antt =====
-- execution/executioner.cpp, sha256_impl: the parts of the program are those of the standard.
use Prim.Native.Nat.{bit_or}
use velix.Prelude.{
  ℕ, zero, suc, ◌-◌, ◌*◌, ◌/◌, ◌%◌, ◌^◌, ◌<◌, Str, List, [], ◌∷◌, ◌++◌, ◌≡◌, refl, ap, ◌∙◌, arith,
  codes, take, drop,
}
use velix.Prelude.Words.{u64_mod}
use velix.Executioner.Sha256.{
  Hash, rotr, ch, maj, ep0, ep1, sig0, sig1, initial, round_constants, at, words, extend, round,
  rounds, transform, zeros, word_bytes, hex_digit, hex, printed,
}
use velix.Executioner.Sha256.Padding.{length_bytes, padding, digest}
use velix.Executioner.Sha256.Standard.{
  rotated, choose, majority, upper0, upper1, lower0, lower1, root_from, root_bits, constants,
  starting, places, blanks, tail, nth, first_words, schedule, turn, turns, added, compressed,
  hashed, digits, in_digits,
}

round_constants-constants : round_constants ≡ constants
unfolding constants root_bits root_from
round_constants-constants = refl

initial-starting : initial ≡ starting
unfolding starting root_bits root_from
initial-starting = refl

at-nth : (s : Str) (i : ℕ) → at s i ≡ nth s i
unfolding at nth
at-nth [] i = refl
at-nth (x ∷ s) zero = refl
at-nth (x ∷ s) (suc i) = at-nth s i

words-first_words : (n : ℕ) (s : Str) → words n s ≡ first_words n s
unfolding words first_words
words-first_words zero s = refl
words-first_words (suc n) (w ∷ (x ∷ (y ∷ (z ∷ s)))) =
    let first : ℕ = bit_or (bit_or (bit_or (w * 2 ^ 24) (x * 2 ^ 16)) (y * 2 ^ 8)) z in
    ap (λ l. first ∷ l) (words-first_words n s)
words-first_words (suc n) [] = refl
words-first_words (suc n) (w ∷ []) = refl
words-first_words (suc n) (w ∷ (x ∷ [])) = refl
words-first_words (suc n) (w ∷ (x ∷ (y ∷ []))) = refl

sig0-lower0 : (x : ℕ) → sig0 x ≡ lower0 x
unfolding sig0 rotr lower0 rotated
sig0-lower0 x = refl

sig1-lower1 : (x : ℕ) → sig1 x ≡ lower1 x
unfolding sig1 rotr lower1 rotated
sig1-lower1 x = refl

extend-schedule : (n t : ℕ) (w : List ℕ) → extend n t w ≡ schedule n t w
unfolding extend schedule
extend-schedule zero t w = refl
extend-schedule (suc n) t w =
    rw
      (
        at-nth w (t - 2),
        at-nth w (t - 7),
        at-nth w (t - 15),
        at-nth w (t - 16),
        sig0-lower0 (nth w (t - 15)),
        sig1-lower1 (nth w (t - 2)),
      )
      (extend-schedule n (suc t) _)

round-turn : (k w : ℕ) (v : Hash) → round k w v ≡ turn k w v
unfolding round turn ep0 ep1 rotr ch maj upper0 upper1 rotated choose majority
round-turn k w v = refl

rounds-turns : (ks ws : List ℕ) (v : Hash) → rounds ks ws v ≡ turns ks ws v
unfolding rounds turns
rounds-turns [] ws v = refl
rounds-turns (k ∷ ks) [] v = refl
rounds-turns (k ∷ ks) (w ∷ ws) v =
    ap (rounds ks ws) (round-turn k w v) ∙ rounds-turns ks ws (turn k w v)

transform-compressed : (s : Hash) (block : Str) → transform s block ≡ compressed s block
unfolding transform compressed added
transform-compressed s block =
    let w : extend 48 16 (words 16 block) ≡ schedule 48 16 (first_words 16 block) =
      ap (extend 48 16) (words-first_words 16 block)
      ∙ extend-schedule 48 16 (first_words 16 block) in
    ap (added s) (
      ap (λ l. rounds round_constants l s) w
      ∙ rounds-turns round_constants (schedule 48 16 (first_words 16 block)) s
      ∙ ap (λ ks. turns ks (schedule 48 16 (first_words 16 block)) s) round_constants-constants)

digest-hashed : (n : ℕ) (s : Hash) (text : Str) → digest n s text ≡ hashed n s text
unfolding digest hashed
digest-hashed zero s text = refl
digest-hashed (suc n) s text =
    ap (λ h. digest n h (drop 64 text)) (transform-compressed s (take 64 text))
    ∙ digest-hashed n (compressed s (take 64 text)) (drop 64 text)

zeros-blanks : (n : ℕ) → zeros n ≡ blanks n
unfolding zeros blanks
zeros-blanks zero = refl
zeros-blanks (suc n) = ap (λ l. 0 ∷ l) (zeros-blanks n)

length_bytes-places : (n : ℕ) → length_bytes n ≡ places 256 8 n
unfolding length_bytes places
length_bytes-places n = ground arith

pub padding-tail : (n : ℕ) → padding n ≡ tail n
unfolding padding tail
padding-tail n = rw (zeros-blanks ((119 - n % 64) % 64), length_bytes-places (8 * n % u64_mod)) refl

pub digest-standard : (n : ℕ) (text : Str) → digest n initial text ≡ hashed n starting text
digest-standard n text = ap (λ h. digest n h text) initial-starting ∙ digest-hashed n starting text

abbrev table : Str
table = codes "0123456789abcdef"

hex_digit-nth : (d : ℕ) → d < 16 → hex_digit d ≡ nth table d
unfolding nth
hex_digit-nth zero h = refl
hex_digit-nth (suc zero) h = refl
hex_digit-nth (suc (suc zero)) h = refl
hex_digit-nth (suc (suc (suc zero))) h = refl
hex_digit-nth (suc (suc (suc (suc zero)))) h = refl
hex_digit-nth (suc (suc (suc (suc (suc zero))))) h = refl
hex_digit-nth (suc (suc (suc (suc (suc (suc zero)))))) h = refl
hex_digit-nth (suc (suc (suc (suc (suc (suc (suc zero))))))) h = refl
hex_digit-nth (suc (suc (suc (suc (suc (suc (suc (suc zero)))))))) h = refl
hex_digit-nth (suc (suc (suc (suc (suc (suc (suc (suc (suc zero))))))))) h = refl
hex_digit-nth (suc (suc (suc (suc (suc (suc (suc (suc (suc (suc zero)))))))))) h = refl
hex_digit-nth (suc (suc (suc (suc (suc (suc (suc (suc (suc (suc (suc zero))))))))))) h = refl
hex_digit-nth (suc (suc (suc (suc (suc (suc (suc (suc (suc (suc (suc (suc zero)))))))))))) h = refl
hex_digit-nth (suc (suc (suc (suc (suc (suc (suc (suc (suc (suc (suc (suc (suc zero))))))))))))) h =
    refl
hex_digit-nth
      (suc (suc (suc (suc (suc (suc (suc (suc (suc (suc (suc (suc (suc (suc zero)))))))))))))) h =
    refl
hex_digit-nth
      (suc (suc (suc (suc (suc (suc (suc (suc (suc (suc (suc (suc (suc (suc (suc zero)))))))))))))))
      h =
    refl
hex_digit-nth
      (suc
        (suc (suc (suc (suc (suc (suc (suc (suc (suc (suc (suc (suc (suc (suc (suc n))))))))))))))))
      h =
    absurd (omega (arith, h))

hex_digit-place : (d e : ℕ) → d ≡ e → e < 16 → hex_digit d ≡ nth table e
hex_digit-place d e same h = rw same (hex_digit-nth e h)

hex-digits : (w : ℕ) → hex (word_bytes w) ≡ digits w
unfolding hex word_bytes digits places
hex-digits w = cc (
  hex_digit-place (w / 2 ^ 24 % 256 / 16) (w / 16 ^ 7 % 16) (omega arith) (omega arith),
  hex_digit-place (w / 2 ^ 24 % 256 % 16) (w / 16 ^ 6 % 16) (omega arith) (omega arith),
  hex_digit-place (w / 2 ^ 16 % 256 / 16) (w / 16 ^ 5 % 16) (omega arith) (omega arith),
  hex_digit-place (w / 2 ^ 16 % 256 % 16) (w / 16 ^ 4 % 16) (omega arith) (omega arith),
  hex_digit-place (w / 2 ^ 8 % 256 / 16) (w / 16 ^ 3 % 16) (omega arith) (omega arith),
  hex_digit-place (w / 2 ^ 8 % 256 % 16) (w / 16 ^ 2 % 16) (omega arith) (omega arith),
  hex_digit-place (w % 256 / 16) (w / 16 ^ 1 % 16) (omega arith) (omega arith),
  hex_digit-place (w % 256 % 16) (w / 16 ^ 0 % 16) (omega arith) (omega arith),
)

hex-append : (s t : Str) → hex (s ++ t) ≡ hex s ++ hex t
unfolding hex
hex-append [] t = refl
hex-append (x ∷ s) t = rw (hex-append s t) refl

hex-word : (w : ℕ) (t : Str) → hex (word_bytes w ++ t) ≡ digits w ++ hex t
hex-word w t = hex-append (word_bytes w) t ∙ ap (λ l. l ++ hex t) (hex-digits w)

-- The digits of the words behind the others.
pub printed-in_digits : (s : Hash) → printed s ≡ in_digits s
unfolding printed in_digits hex word_bytes
printed-in_digits s =
    let from_g : hex (word_bytes s.g ++ (word_bytes s.h)) ≡ digits s.g ++ (digits s.h) =
      hex-word s.g (word_bytes s.h) ∙ ap (λ l. digits s.g ++ l) (hex-digits s.h) in
    let from_f : hex (word_bytes s.f ++ (word_bytes s.g ++ (word_bytes s.h)))
        ≡ digits s.f ++ (digits s.g ++ (digits s.h)) =
      hex-word s.f (word_bytes s.g ++ (word_bytes s.h)) ∙ ap (λ l. digits s.f ++ l) from_g in
    let from_e : hex (word_bytes s.e ++ (word_bytes s.f ++ (word_bytes s.g ++ (word_bytes s.h))))
        ≡ digits s.e ++ (digits s.f ++ (digits s.g ++ (digits s.h))) =
      hex-word s.e (word_bytes s.f ++ (word_bytes s.g ++ (word_bytes s.h)))
      ∙ ap (λ l. digits s.e ++ l) from_f in
    let from_d : hex (
          word_bytes s.d
          ++ (word_bytes s.e ++ (word_bytes s.f ++ (word_bytes s.g ++ (word_bytes s.h)))))
        ≡ digits s.d ++ (digits s.e ++ (digits s.f ++ (digits s.g ++ (digits s.h)))) =
      hex-word s.d (word_bytes s.e ++ (word_bytes s.f ++ (word_bytes s.g ++ (word_bytes s.h))))
      ∙ ap (λ l. digits s.d ++ l) from_e in
    let from_c : hex (
          word_bytes s.c
          ++ (word_bytes s.d
              ++ (word_bytes s.e ++ (word_bytes s.f ++ (word_bytes s.g ++ (word_bytes s.h))))))
        ≡ digits s.c
          ++ (digits s.d ++ (digits s.e ++ (digits s.f ++ (digits s.g ++ (digits s.h))))) =
      hex-word s.c (
        word_bytes s.d
        ++ (word_bytes s.e ++ (word_bytes s.f ++ (word_bytes s.g ++ (word_bytes s.h)))))
      ∙ ap (λ l. digits s.c ++ l) from_d in
    let from_b : hex (
          word_bytes s.b
          ++ (word_bytes s.c
              ++ (word_bytes s.d
                  ++ (word_bytes s.e ++ (word_bytes s.f ++ (word_bytes s.g ++ (word_bytes s.h)))))))
        ≡ digits s.b
          ++ (digits s.c
              ++ (digits s.d ++ (digits s.e ++ (digits s.f ++ (digits s.g ++ (digits s.h)))))) =
      hex-word s.b (
        word_bytes s.c
        ++ (word_bytes s.d
            ++ (word_bytes s.e ++ (word_bytes s.f ++ (word_bytes s.g ++ (word_bytes s.h))))))
      ∙ ap (λ l. digits s.b ++ l) from_c in
    hex-word s.a (
      word_bytes s.b
      ++ (word_bytes s.c
          ++ (word_bytes s.d
              ++ (word_bytes s.e ++ (word_bytes s.f ++ (word_bytes s.g ++ (word_bytes s.h)))))))
    ∙ ap (λ l. digits s.a ++ l) from_b
