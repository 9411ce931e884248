-- ===== src/Distance.antt =====
-- utils/file_tools.cpp: edit_distance, the Levenshtein distance of two file names, up to case. A
-- row of the table is a list; an int holds the entries, since names are shorter than 2^31.
pub mod Scripts
use velix.Prelude.{
  ℕ, ◌+◌, min, Str, List, [], ◌∷◌, ◌≡◌, refl, arith, ap, ◌∙◌, if◌then◌else◌, ◌==◌, nat_eq, leb,
  ◌&&◌, length,
}

-- std::tolower in the C locale.
abbrev pub tolower : ℕ → ℕ
tolower c = if leb 65 c && leb c 90 then c + 32 else c

abbrev pub cost : ℕ → ℕ → ℕ
cost x y = if tolower x == tolower y then 0 else 1

abbrev pub min3 : ℕ → ℕ → ℕ → ℕ
min3 a b c = min a (min b c)

-- dp[0], from this column on.
unfoldable pub first_row : ℕ → Str → List ℕ
first_row j [] = j ∷ []
first_row j (y ∷ ys) = j ∷ first_row (j + 1) ys

-- The inner loop: the row above from the column before on, and the entry on the left.
unfoldable pub fill : ℕ → ℕ → List ℕ → Str → List ℕ
fill x left (diagonal ∷ up ∷ above) (y ∷ ys) =
    let entry = min3 (up + 1) (left + 1) (diagonal + cost x y) in
    entry ∷ fill x entry (up ∷ above) ys
fill x left _ _ = []

-- The outer loop, from row i on.
unfoldable pub last_row : ℕ → List ℕ → Str → Str → List ℕ
unfolding fill
last_row i row [] b = row
last_row i row (x ∷ xs) b = last_row (i + 1) ((i + 1) ∷ fill x (i + 1) row b) xs b

unfoldable pub last : List ℕ → ℕ
last [] = 0
last (d ∷ []) = d
last (d ∷ e ∷ ds) = last (e ∷ ds)

unfoldable pub edit_distance : Str → Str → ℕ
unfolding last last_row first_row
edit_distance a b = last (last_row 0 (first_row 0 b) a b)

-- The entry for two prefixes, by recursion on their last characters: the strings are given in reverse.
unfoldable pub distance : Str → Str → ℕ
distance [] ys = length ys
distance (x ∷ xs) [] = length (x ∷ xs)
distance (x ∷ xs) (y ∷ ys) =
    min3 (distance xs (y ∷ ys) + 1) (distance (x ∷ xs) ys + 1) (distance xs ys + cost x y)

-- The row for a prefix: the distances to every prefix of the other string.
expected : Str → Str → Str → List ℕ
expected p q [] = distance p q ∷ []
expected p q (y ∷ ys) = distance p q ∷ expected p (y ∷ q) ys

first_row-expected : (q ys : Str) → first_row (length q) ys ≡ expected [] q ys
unfolding first_row expected distance
first_row-expected q [] = refl
first_row-expected q (y ∷ ys) = ground (arith, first_row-expected (y ∷ q) ys)

fill-expected :
    (x : ℕ) (p q ys : Str)
    → (distance (x ∷ p) q ∷ fill x (distance (x ∷ p) q) (expected p q ys) ys)
      ≡ expected (x ∷ p) q ys
unfolding fill expected distance
fill-expected x p q [] = refl
fill-expected x p q (y ∷ []) = refl
fill-expected x p q (y ∷ z ∷ ys) =
    ap (λ r. distance (x ∷ p) q ∷ r) (fill-expected x p (y ∷ q) (z ∷ ys))

-- xs in reverse, in front of ys.
unfoldable pub onto : Str → Str → Str
onto [] ys = ys
onto (x ∷ xs) ys = onto xs (x ∷ ys)

border : (x : ℕ) (p : Str) → (length p + 1) ≡ distance (x ∷ p) []
unfolding distance
border x p = omega arith

border_length : (x : ℕ) (p : Str) → distance (x ∷ p) [] ≡ length (x ∷ p)
unfolding distance
border_length x p = refl

last_row-expected :
    (p a b : Str) → last_row (length p) (expected p [] b) a b ≡ expected (onto a p) [] b
unfolding last_row onto
last_row-expected p [] b = refl
last_row-expected p (x ∷ xs) b =
    let above : (length p + 1) ≡ distance (x ∷ p) [] = border x p in
    ap (λ (i : ℕ). last_row i (i ∷ fill x i (expected p [] b) b) xs b) above
    ∙ ap (λ r. last_row (distance (x ∷ p) []) r xs b) (fill-expected x p [] b)
    ∙ ap (λ i. last_row i (expected (x ∷ p) [] b) xs b) (border_length x p)
    ∙ last_row-expected (x ∷ p) xs b

last-expected : (p q ys : Str) → last (expected p q ys) ≡ distance p (onto ys q)
unfolding last expected onto
last-expected p q [] = refl
last-expected p q (y ∷ []) = refl
last-expected p q (y ∷ z ∷ ys) = last-expected p (y ∷ q) (z ∷ ys)

-- The table's last entry by that recursion.
pub edit_distance_lem : (a b : Str) → edit_distance a b ≡ distance (onto a []) (onto b [])
unfolding edit_distance
edit_distance_lem a b =
    ap (λ r. last (last_row 0 r a b)) (first_row-expected [] b)
    ∙ ap last (last_row-expected [] a b)
    ∙ last-expected (onto a []) [] b
