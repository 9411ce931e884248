-- ===== src/ContextFiles/Cleaning.antt =====
-- What clean_invisible_chars takes out, and what it leaves.
use velix.Prelude.{
  ℕ, Str, false, List, [], ◌∷◌, ◌++◌, ◌≡◌, refl, arith, ap, ◌∙◌, sym, contains, nat_eq, ==_iff,
}
use velix.Patch.{is_prefix}
use velix.ContextFiles.{
  zero_width_space, later_chars, erase_all, clean_chars, clean_invisible_chars,
}

-- Bytes that do not start a character are kept.
erase_all-plain :
    (c : ℕ) (ch p s : Str)
    → contains c p ≡ false
    → erase_all (c ∷ ch) 0 (p ++ s) ≡ (p ++ erase_all (c ∷ ch) 0 s)
unfolding erase_all is_prefix contains
erase_all-plain c ch [] s h = refl
erase_all-plain c ch (d ∷ p) s h = ground (arith, erase_all-plain c ch p s, h, ==_iff d c)

append_nil : (s : Str) → (s ++ []) ≡ s
append_nil [] = refl
append_nil (c ∷ s) = rw (append_nil s)

erase_all-none : (c : ℕ) (ch s : Str) → contains c s ≡ false → erase_all (c ∷ ch) 0 s ≡ s
unfolding erase_all
erase_all-none c ch s h =
    ap (erase_all (c ∷ ch) 0) (sym (append_nil s)) ∙ erase_all-plain c ch s [] h ∙ append_nil s

-- Another character that the first bytes decide on is kept.
keeps_other :
    (a : ℕ) (ch p q : Str)
    → contains a p ≡ false
    → contains a q ≡ false
    → erase_all (a ∷ ch) 0 (zero_width_space ++ q) ≡ (zero_width_space ++ erase_all (a ∷ ch) 0 q)
    → erase_all (a ∷ ch) 0 (p ++ (zero_width_space ++ q)) ≡ (p ++ (zero_width_space ++ q))
keeps_other a ch p q h k middle =
    erase_all-plain a ch p (zero_width_space ++ q) h
    ∙ ap (λ u. p ++ u) (middle ∙ ap (λ u. zero_width_space ++ u) (erase_all-none a ch q k))

abbrev AllKeep : List Str → Str → Type 0
AllKeep [] t = Unit
AllKeep (ch ∷ chs) t = (erase_all ch 0 t ≡ t) × AllKeep chs t

clean_chars-AllKeep : (chs : List Str) (t : Str) → AllKeep chs t → clean_chars chs t ≡ t
unfolding clean_chars
clean_chars-AllKeep [] t h = refl
clean_chars-AllKeep (ch ∷ chs) t h = ap (clean_chars chs) h.0 ∙ clean_chars-AllKeep chs t h.1

later_keep :
    (p q : Str)
    → contains 226 p ≡ false
    → contains 226 q ≡ false
    → contains 239 p ≡ false
    → contains 239 q ≡ false
    → AllKeep later_chars (p ++ (zero_width_space ++ q))
unfolding erase_all is_prefix
later_keep p q h k i j = (
  keeps_other 226 (128 ∷ 140 ∷ []) p q h k refl,
  (
    keeps_other 226 (128 ∷ 141 ∷ []) p q h k refl,
    (
      keeps_other 226 (128 ∷ 170 ∷ []) p q h k refl,
      (
        keeps_other 226 (128 ∷ 171 ∷ []) p q h k refl,
        (
          keeps_other 226 (128 ∷ 172 ∷ []) p q h k refl,
          (
            keeps_other 226 (128 ∷ 173 ∷ []) p q h k refl,
            (
              keeps_other 226 (128 ∷ 174 ∷ []) p q h k refl,
              (
                keeps_other 226 (129 ∷ 160 ∷ []) p q h k refl,
                (keeps_other 239 (187 ∷ 191 ∷ []) p q i j refl, tt),
              ),
            ),
          ),
        ),
      ),
    ),
  ),
)

erase_nested :
    (q : Str)
    → erase_all zero_width_space 0 (226 ∷ 128 ∷ 226 ∷ 128 ∷ 139 ∷ 139 ∷ q)
      ≡ (zero_width_space ++ erase_all zero_width_space 0 q)
unfolding erase_all is_prefix
erase_nested q = refl

-- A zero-width space inside the bytes of another: the cleaning takes out the inner one and leaves
-- the one that the bytes around it then form, since the search does not go back. The text around
-- has no byte that starts one of the characters.
pub clean_leaves_nested :
    (p q : Str)
    → contains 226 p ≡ false
    → contains 226 q ≡ false
    → contains 239 p ≡ false
    → contains 239 q ≡ false
    → clean_invisible_chars (p ++ (226 ∷ 128 ∷ (zero_width_space ++ (139 ∷ q))))
      ≡ (p ++ (zero_width_space ++ q))
unfolding clean_invisible_chars clean_chars
clean_leaves_nested p q h k i j =
    let text = p ++ (zero_width_space ++ q) in
    ap (clean_chars later_chars) (
      erase_all-plain 226 (128 ∷ 139 ∷ []) p (226 ∷ 128 ∷ (zero_width_space ++ (139 ∷ q))) h
      ∙ ap (λ u. p ++ u)
          (erase_nested q
            ∙ ap (λ u. zero_width_space ++ u) (erase_all-none 226 (128 ∷ 139 ∷ []) q k)))
    ∙ clean_chars-AllKeep later_chars text (later_keep p q h k i j)
