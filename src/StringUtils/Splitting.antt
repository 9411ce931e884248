-- ===== src/StringUtils/Splitting.antt =====
-- utils/string_utils.hpp: split undoes join.
use velix.Prelude.{
  append_assoc, append_nil, ℕ, Str, false, List, [], ◌∷◌, ◌++◌, nat_eq, is_empty, ◌≡◌, ◌≢◌, ==_iff,
  refl, arith, ap, ◌∙◌, sym,
}
use velix.StringUtils.{split_from, split, join}

-- The delimiter is not in the text.
abbrev pub Without : ℕ → Str → Type 0
Without d [] = Unit
Without d (c ∷ s) = (c ≢ d) × Without d s

-- Lines without the delimiter, the last of which is not empty.
abbrev pub Lines : ℕ → List Str → Type 0
Lines d [] = Unit
Lines d (line ∷ []) = Without d line × (is_empty line ≡ false)
Lines d (line ∷ (next ∷ l)) = Without d line × Lines d (next ∷ l)

split_from-append :
    (d : ℕ) (token line rest : Str)
    → Without d line
    → split_from d token (line ++ rest) ≡ split_from d (token ++ line) rest
unfolding split_from
split_from-append d token [] rest w = rw (append_nil token) refl
split_from-append d token (c ∷ line) rest w =
    let moved =
      split_from-append d (token ++ (c ∷ [])) line rest w.1
      ∙ ap (λ t. split_from d t rest) (append_assoc token (c ∷ []) line) in
    ground (arith, w.0, moved)

-- Lines that were joined by the delimiter come back: none has it, and the last is not empty.
split-join : (d : ℕ) (lines : List Str) → Lines d lines → split (join lines (d ∷ [])) d ≡ lines
unfolding split join split_from
split-join d [] h = refl
split-join d (line ∷ []) h =
    let one = split_from-append d [] line [] h.0 in
    ap (split_from d []) (sym (append_nil line)) ∙ ground (arith, one, h.1)
split-join d (line ∷ (next ∷ l)) h =
    let rest : Str = join (next ∷ l) (d ∷ []) in
    split_from-append d [] line (d ∷ rest) h.0
    ∙ ground (arith, ==_iff d d, split-join d (next ∷ l) h.1)
