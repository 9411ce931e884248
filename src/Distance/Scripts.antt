-- ===== src/Distance/Scripts.antt =====
-- utils/file_tools.cpp: edit_distance against the edits that turn one name into the other.
use velix.Prelude.{
  ℕ, zero, suc, ◌+◌, ◌≤◌, Str, [], ◌∷◌, ◌++◌, ◌≡◌, ◌⊎◌, inl, inr, refl, arith, ◌∙◌, length,
  append_nil,
}
use velix.Distance.{cost, min3, edit_distance, distance, onto, edit_distance_lem}

-- The bytes are equal, or one is a capital and the other its small letter.
abbrev IsCapital : ℕ → Type 0
IsCapital c = (65 ≤ c) × (c ≤ 90)

abbrev pub SameLetter : ℕ → ℕ → Type 0
SameLetter x y = (x ≡ y) ⊎ ((IsCapital x × (y ≡ x + 32)) ⊎ (IsCapital y × (x ≡ y + 32)))

-- The edits, from the front on, that turn one string into another, and how many there are: a byte
-- that is kept up to case is none.
pub data Script : Str → Str → ℕ → Type 0 where
  done : Script [] [] zero
  keeps : (x y : ℕ) {s t : Str} {n : ℕ} → SameLetter x y → Script s t n → Script (x ∷ s) (y ∷ t) n
  changes : (x y : ℕ) {s t : Str} {n : ℕ} → Script s t n → Script (x ∷ s) (y ∷ t) (suc n)
  inserts : (y : ℕ) {s t : Str} {n : ℕ} → Script s t n → Script s (y ∷ t) (suc n)
  deletes : (x : ℕ) {s t : Str} {n : ℕ} → Script s t n → Script (x ∷ s) t (suc n)

SameLetter-cost : (x y : ℕ) → SameLetter x y → cost x y ≡ 0
SameLetter-cost x y h = ground arith

cost-cases : (x y : ℕ) → (SameLetter x y × (cost x y ≡ 0)) ⊎ (cost x y ≡ 1)
cost-cases x y = ground arith

min3-cases : (a b c : ℕ) → (min3 a b c ≡ a) ⊎ ((min3 a b c ≡ b) ⊎ (min3 a b c ≡ c))
min3-cases a b c = ground arith

distance-nil : (s : Str) → distance s [] ≡ length s
unfolding distance
distance-nil [] = refl
distance-nil (x ∷ s) = refl

distance-left : (x : ℕ) (s t : Str) → distance (x ∷ s) t ≤ distance s t + 1
unfolding distance
distance-left x s [] = omega (arith, distance-nil s)
distance-left x s (y ∷ t) = ground arith

distance-right : (y : ℕ) (s t : Str) → distance s (y ∷ t) ≤ distance s t + 1
unfolding distance
distance-right y [] t = omega arith
distance-right y (x ∷ s) t = ground arith

distance-both : (x y : ℕ) (s t : Str) → distance (x ∷ s) (y ∷ t) ≤ distance s t + cost x y
unfolding distance
distance-both x y s t = ground arith

cost-le : (x y : ℕ) → cost x y ≤ 1
cost-le x y = ground arith

-- No script is shorter.
distance-le : {s t : Str} {n : ℕ} → Script s t n → distance s t ≤ n
unfolding distance
distance-le done = omega arith
distance-le (keeps x y {s} {t} h e) =
    omega (arith, distance-le e, distance-both x y s t, SameLetter-cost x y h)
distance-le (changes x y {s} {t} e) =
    omega (arith, distance-le e, distance-both x y s t, cost-le x y)
distance-le (inserts y {s} {t} e) = omega (arith, distance-le e, distance-right y s t)
distance-le (deletes x {s} {t} e) = omega (arith, distance-le e, distance-left x s t)

of_count : {s t : Str} (n m : ℕ) → n ≡ m → Script s t n → Script s t m
of_count n m e h = rw (← e) h

insert_all : (t : Str) → Script [] t (length t)
insert_all [] = done
insert_all (y ∷ t) = inserts y (insert_all t)

delete_all : (s : Str) → Script s [] (length s)
delete_all [] = done
delete_all (x ∷ s) = deletes x (delete_all s)

-- One script has that length.
distance-Script : (s t : Str) → Script s t (distance s t)
unfolding distance
distance-Script [] t = insert_all t
distance-Script (x ∷ s) [] = delete_all (x ∷ s)
distance-Script (x ∷ s) (y ∷ t) =
    let a : ℕ = distance s (y ∷ t) in
    let b : ℕ = distance (x ∷ s) t in
    let c : ℕ = distance s t in
    let left : Script (x ∷ s) (y ∷ t) (suc a) = deletes x (distance-Script s (y ∷ t)) in
    let right : Script (x ∷ s) (y ∷ t) (suc b) = inserts y (distance-Script (x ∷ s) t) in
    elim (min3-cases (a + 1) (b + 1) (c + cost x y)) [
      | inl e ↦ of_count (suc a) _ (omega (arith, e)) left
      | inr (inl e) ↦ of_count (suc b) _ (omega (arith, e)) right
      | inr (inr e) ↦ elim (cost-cases x y) [
        | inl k ↦ of_count c _ (omega (arith, e, k.1)) (keeps x y k.0 (distance-Script s t))
        | inr k ↦ of_count (suc c) _ (omega (arith, e, k)) (changes x y (distance-Script s t))
      ]
    ]

-- Scripts read from the back.
onto-Script :
    {s t : Str} {n : ℕ}
    → Script s t n
    → (p q : Str) (m : ℕ) → Script p q m
    → Script (onto s p) (onto t q) (n + m)
unfolding onto
onto-Script done p q m e = of_count m (0 + m) (omega arith) e
onto-Script (keeps x y h f) p q m e = onto-Script f (x ∷ p) (y ∷ q) m (keeps x y h e)
onto-Script (changes x y {s} {t} {n} f) p q m e =
    of_count (n + suc m) (suc n + m) (omega arith)
      (onto-Script f (x ∷ p) (y ∷ q) (suc m) (changes x y e))
onto-Script (inserts y {s} {t} {n} f) p q m e =
    of_count (n + suc m) (suc n + m) (omega arith) (onto-Script f p (y ∷ q) (suc m) (inserts y e))
onto-Script (deletes x {s} {t} {n} f) p q m e =
    of_count (n + suc m) (suc n + m) (omega arith) (onto-Script f (x ∷ p) q (suc m) (deletes x e))

onto-onto : (s p q : Str) → onto (onto s p) q ≡ onto p (s ++ q)
unfolding onto
onto-onto [] p q = refl
onto-onto (x ∷ s) p q = onto-onto s (x ∷ p) q

reversed : {s t : Str} {n : ℕ} → Script s t n → Script (onto s []) (onto t []) n
reversed {n = n} e = of_count (n + 0) n (omega arith) (onto-Script e [] [] 0 done)

twice : (s : Str) → onto (onto s []) [] ≡ s
unfolding onto
twice s = onto-onto s [] [] ∙ append_nil s

-- The table's last entry is the least number of bytes to insert, delete or change that turns the
-- first string into the second, where a letter and the same letter in the other case count as equal:
-- some script has that many edits, and none has fewer.
pub edit_distance-least :
    (a b : Str) → Script a b (edit_distance a b) × ((n : ℕ) → Script a b n → edit_distance a b ≤ n)
edit_distance-least a b =
    let least : Script (onto a []) (onto b []) (edit_distance a b) =
      rw (edit_distance_lem a b) (distance-Script (onto a []) (onto b [])) in
    let turned : Script (onto (onto a []) []) (onto (onto b []) []) (edit_distance a b) =
      reversed least in
    (rw (twice a, twice b) at turned, λ n e. rw (edit_distance_lem a b) (distance-le (reversed e)))
