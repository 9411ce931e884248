-- ===== src/Patch/Unique.antt =====
-- utils/file_tools.cpp: which occurrence of a text patch_file replaces.
use velix.Prelude.{
  append_assoc, ℕ, zero, suc, ◌+◌, ◌≤◌, ◌<◌, Str, none, some, true, false, [], ◌∷◌, ◌++◌, ◌≡◌, ◌≢◌,
  refl, arith, sym, ap, ◌∙◌, nat_eq, ltb, length, take, drop, is_empty, is_empty-nil, length-append,
  take-append-drop, length-take, Option-cases, Bool-cases, inl, inr, ==_iff, ◌⊎◌, codes,
}
use velix.Patch.{
  TempFile, atomic_write, is_prefix, find_text, find_from, replace_at, PatchResult,
  old_text_is_empty, not_found, ambiguous, write_failed, patched, patch_file,
}

is_prefix-append : (t s : Str) → is_prefix t (t ++ s) ≡ true
unfolding is_prefix
is_prefix-append [] s = refl
is_prefix-append (c ∷ t) s = ground (arith, is_prefix-append t s)

is_prefix-split : (t s : Str) → is_prefix t s ≡ true → s ≡ (t ++ drop (length t) s)
unfolding is_prefix
is_prefix-split [] s h = refl
is_prefix-split (c ∷ t) [] h = ground arith
is_prefix-split (c ∷ t) (d ∷ s) h = ground (arith, h, ==_iff c d, is_prefix-split t s)

find_text-here : (t s : Str) → is_prefix t s ≡ true → find_text t s ≡ some 0
unfolding find_text
find_text-here t [] h = rw h refl
find_text-here t (c ∷ s) h = rw h refl

some_inj : {i : ℕ} → none ≡ some i → ⊥
some_inj h = ground arith

-- The text stands in s behind i bytes.
abbrev Occurs : Str → Str → ℕ → Type 0
Occurs t s i = (b : Str) × ((a : Str) × ((s ≡ (b ++ (t ++ a))) × (length b ≡ i)))

-- What find answers is an occurrence.
find_text-found : (t s : Str) (i : ℕ) → find_text t s ≡ some i → Occurs t s i
unfolding find_text
find_text-found t [] i h = elim (Bool-cases (is_prefix t [])) [
  | inl p ↦ ([], (drop (length t) [], (is_prefix-split t [] p, ground (arith, h, p))))
  | inr p ↦ elim (some_inj (rw p at h)) [ ]
]
find_text-found t (c ∷ s) i h = elim (Bool-cases (is_prefix t (c ∷ s))) [
  | inl p ↦ ([], (drop (length t) (c ∷ s), (is_prefix-split t (c ∷ s) p, ground (arith, h, p))))
  | inr p ↦ elim (Option-cases (find_text t s)) [
    | inl n ↦ elim (some_inj (rw (p, n) at h)) [ ]
    | inr (k, n) ↦
        let r = find_text-found t s k n in
        let l : suc k ≡ i = ground (arith, h, p, n) in
        (c ∷ r.0, (r.1.0, (ap (λ u. c ∷ u) r.1.1.0, omega (arith, r.1.1.1, l))))
  ]
]

-- No occurrence is missed, and none before the answer.
find_text-first :
    (t b a : Str) → (i : ℕ) × ((find_text t (b ++ (t ++ a)) ≡ some i) × (i ≤ length b))
unfolding find_text
find_text-first t [] a = (0, (find_text-here t (t ++ a) (is_prefix-append t a), omega arith))
find_text-first t (c ∷ b) a =
    let rest = find_text-first t b a in
    elim (Bool-cases (is_prefix t (c ∷ (b ++ (t ++ a))))) [
      | inl p ↦ (0, (find_text-here t (c ∷ (b ++ (t ++ a))) p, omega arith))
      | inr p ↦ (suc rest.0, (rw (p, rest.1.0) refl, omega (arith, rest.1.1)))
    ]

drop-append : (n : ℕ) (b s : Str) → n ≤ length b → drop n (b ++ s) ≡ (drop n b ++ s)
drop-append zero b s h = refl
drop-append (suc n) [] s h = ground arith
drop-append (suc n) (c ∷ b) s h = drop-append n b s (omega (arith, h))

take_left : (b s : Str) → take (length b) (b ++ s) ≡ b
take_left [] s = refl
take_left (c ∷ b) s = rw (take_left b s) refl

drop_left : (b s : Str) (n : ℕ) → drop (length b + n) (b ++ s) ≡ drop n s
drop_left [] s n = ground arith
drop_left (c ∷ b) s n =
    let e : (suc (length b) + n) ≡ suc (length b + n) = omega arith in
    ap (λ k. drop k (c ∷ (b ++ s))) e ∙ drop_left b s n

drop_all : (t a : Str) → drop (length t) (t ++ a) ≡ a
drop_all [] a = refl
drop_all (c ∷ t) a = drop_all t a

replace_at-occurs :
    (t new_text b a : Str)
    → replace_at (length b) t new_text (b ++ (t ++ a)) ≡ (b ++ (new_text ++ a))
unfolding replace_at
replace_at-occurs t new_text b a =
    rw (take_left b (t ++ a), drop_left b (t ++ a) (length t), drop_all t a) refl

-- find from a start: an occurrence at or behind it, if there is one.
find_from-found :
    (t s : Str) (start i : ℕ) → find_from t start s ≡ some i → Occurs t s i × (start ≤ i)
unfolding find_from
find_from-found t s start i h = elim (Bool-cases (ltb (length s) start)) [
  | inl l ↦ elim (some_inj (rw l at h)) [ ]
  | inr l ↦ elim (Option-cases (find_text t (drop start s))) [
    | inl n ↦ elim (some_inj (rw (l, n) at h)) [ ]
    | inr (k, n) ↦
        let r = find_text-found t (drop start s) k n in
        let e : start + k ≡ i = ground (arith, h, l, n) in
        let front : length (take start s) ≡ start = ground (arith, length-take start s, l) in
        (
          (
            take start s ++ r.0,
            (
              r.1.0,
              (
                sym (take-append-drop start s)
                    ∙ ap (λ u. take start s ++ u) r.1.1.0
                    ∙ sym (append_assoc (take start s) r.0 (t ++ r.1.0)),
                omega (arith, length-append (take start s) r.0, front, r.1.1.1, e),
              ),
            ),
          ),
          omega (arith, e),
        )
  ]
]

find_from-finds :
    (t b a : Str) (start : ℕ) → start ≤ length b → find_from t start (b ++ (t ++ a)) ≢ none
unfolding find_from
find_from-finds t b a start h e =
    let r = find_text-first t (drop start b) a in
    ground (arith, e, h, length-append b (t ++ a), drop-append start b (t ++ a) h, r.1.0)

-- What patch_file promises of its result, in terms of the occurrences alone.
unfoldable pub Promise : TempFile → Str → Str → Str → PatchResult × Str → Type 0
Promise tmp old new_text content (old_text_is_empty, after) = (old ≡ []) × (after ≡ content)
Promise tmp old new_text content (not_found hint, after) =
    ((i : ℕ) → ¬ Occurs old content i) × (after ≡ content)
Promise tmp old new_text content (ambiguous, after) =
    ((i : ℕ) × ((j : ℕ) × ((i < j) × (Occurs old content i × Occurs old content j))))
    × (after ≡ content)
Promise tmp old new_text content (write_failed error, after) = after ≡ content
Promise tmp old new_text content (patched size_before size_after context, after) =
    (b : Str) × ((a : Str) × ((content ≡ (b ++ (old ++ a)))
        × ((after ≡ take tmp.kept (b ++ (new_text ++ a)))
            × ((length (b ++ (new_text ++ a)) ≤ tmp.kept → after ≡ (b ++ (new_text ++ a)))
                × ((i : ℕ) → Occurs old content i → i ≡ length b)))))

-- A write that fails leaves the file; one that does not leaves the bytes that were kept.
atomic_write-cases :
    (tmp : TempFile) (result content : Str)
    → ((error : Str) × (atomic_write tmp result content ≡ (some error, content)))
      ⊎ (atomic_write tmp result content ≡ (none, take tmp.kept result))
unfolding atomic_write
atomic_write-cases tmp result content = elim (Option-cases tmp.create_directories) [
  | inr (e, n) ↦ inl (codes "Cannot create directories: " ++ e, rw (n, atomic_write) refl)
  | inl n ↦ elim (Bool-cases tmp.opens) [
    | inr o ↦
        inl (codes "Cannot open temp file for writing: " ++ tmp.name, rw (n, o, atomic_write) refl)
    | inl o ↦ elim (Bool-cases tmp.takes) [
      | inr t ↦
          inl (codes "Write failed on temp file: " ++ tmp.name, rw (n, o, t, atomic_write) refl)
      | inl t ↦ elim (Option-cases tmp.rename) [
        | inr (e, r) ↦ inl (codes "Atomic rename failed: " ++ e, rw (n, o, t, r, atomic_write) refl)
        | inl r ↦ inr (rw (n, o, t, r, atomic_write) refl)
      ]
    ]
  ]
]

take_past : (n : ℕ) (s : Str) → length s ≤ n → take n s ≡ s
take_past zero [] h = refl
take_past zero (c ∷ s) h = absurd (omega (arith, h))
take_past (suc n) [] h = refl
take_past (suc n) (c ∷ s) h = rw (take_past n s (omega (arith, h))) refl

absent : (t s : Str) → find_text t s ≡ none → (i : ℕ) → ¬ Occurs t s i
absent t s n i o =
    let first = find_text-first t o.0 o.1.0 in
    some_inj (sym n ∙ ap (find_text t) o.1.1.0 ∙ first.1.0)

-- An occurrence that find answers, with none behind it, is the only one.
only :
    (t s : Str) (pos i : ℕ)
    → find_text t s ≡ some pos
    → find_from t (pos + 1) s ≡ none
    → Occurs t s i
    → i ≡ pos
only t s pos i n later o =
    let b = o.0 in
    let a = o.1.0 in
    let first = find_text-first t b a in
    let same : some pos ≡ some first.0 = sym n ∙ ap (find_text t) o.1.1.0 ∙ first.1.0 in
    let before : pos ≤ length b = ground (arith, same, first.1.1) in
    elim (Bool-cases (ltb pos (length b))) [
      | inr e ↦ omega (arith, o.1.1.1, before, not_below pos (length b) e)
      | inl e ↦
          elim (find_from-finds t b a (pos + 1) (ground (arith, e))
            (ap (find_from t (pos + 1)) (sym o.1.1.0) ∙ later)) [ ]
    ]
  where
    not_below : (m k : ℕ) → ltb m k ≡ false → k ≤ m
    not_below m k h = ground (arith, h)

-- The file changes only when the text occurs exactly once, overlapping occurrences counted, and the
-- write succeeds; then that occurrence, and nothing else, has become the new text, up to the number of
-- bytes that were in the temporary file when it was closed, which the code does not ask. A text that
-- does not occur, or occurs more than once, is reported as such; a failed write leaves the file as it
-- is.
pub patch_file-Promise :
    (tmp : TempFile) (old new_text content : Str)
    → Promise tmp old new_text content (patch_file tmp old new_text content)
unfolding patch_file Promise
patch_file-Promise tmp old new_text content = elim (Bool-cases (is_empty old)) [
  | inl e ↦ rw e (is_empty-nil old e, refl)
  | inr e ↦ elim (Option-cases (find_text old content)) [
    | inl n ↦ rw (e, n, patch_file) (absent old content n, refl)
    | inr (pos, n) ↦ elim (Option-cases (find_from old (pos + 1) content)) [
      | inr (second, m) ↦
          let late = find_from-found old content (pos + 1) second m in
          rw (e, n, m, patch_file)
            (
              (pos, (second, (omega (arith, late.1), (find_text-found old content pos n, late.0)))),
              refl,
            )
      | inl m ↦
          let o = find_text-found old content pos n in
          let result = replace_at pos old new_text content in
          let done : result ≡ (o.0 ++ (new_text ++ o.1.0)) =
            ap (λ k. replace_at k old new_text content) (sym o.1.1.1)
            ∙ ap (replace_at (length o.0) old new_text) o.1.1.0
            ∙ replace_at-occurs old new_text o.0 o.1.0 in
          let after : take tmp.kept result ≡ take tmp.kept (o.0 ++ (new_text ++ o.1.0)) =
            ap (take tmp.kept) done in
          elim (atomic_write-cases tmp result content) [
            | inl (error, w) ↦ rw (e, n, m, w, patch_file) refl
            | inr w ↦
                rw (e, n, m, w, patch_file)
                  (
                    o.0,
                    (
                      o.1.0,
                      (
                        o.1.1.0,
                        (
                          after,
                          (
                            λ fits. after ∙ take_past tmp.kept (o.0 ++ (new_text ++ o.1.0)) fits,
                            λ i q. only old content pos i n m q ∙ sym o.1.1.1,
                          ),
                        ),
                      ),
                    ),
                  )
          ]
    ]
  ]
]
