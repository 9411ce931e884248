-- ===== src/Terminal/Quoting.antt =====
-- core/persistant_applications/terminal_driver.cpp: shell_quote (the POSIX branch).
use velix.Prelude.{
  ℕ, Str, Option, none, some, Bool, ◌||◌, [], ◌∷◌, ◌++◌, ◌≡◌, arith, if◌then◌else◌, ◌==◌, ==_iff,
  nat_eq, map_option, Option-cases, inl, inr,
}

-- The loop of shell_quote, and the closing quote behind it.
unfoldable pub quote_rest : Str → Str
quote_rest [] = 39 ∷ []
quote_rest (c ∷ s) =
    let rest = quote_rest s in if c == 39 then 39 ∷ 92 ∷ 39 ∷ 39 ∷ rest else c ∷ rest

unfoldable pub shell_quote : Str → Str
unfolding quote_rest
shell_quote s = 39 ∷ quote_rest s

-- A byte that ends a word of the shell's language, outside quotes.
abbrev ends_word : ℕ → Bool
ends_word c =
    c == 32
    || c == 9
    || c == 10
    || c == 59
    || c == 38
    || c == 124
    || c == 60
    || c == 62
    || c == 40
    || c == 41

abbrev prepend : ℕ → Option (Str × Str) → Option (Str × Str)
prepend c o = map_option (λ p. (c ∷ p.0, p.1)) o

-- The shell's reading of a word, for the characters that are literal outside quotes. Inside single
-- quotes every byte but the quote is literal; outside them a backslash makes the next byte literal;
-- expansions and double quotes are refused.
pub data Mode : Type 0 where
  bare quoted escaped : Mode

pub data Move : Type 0 where
  skips takes : Mode → Move
  stops refuses : Move

unfoldable pub move : Mode → ℕ → Move
move quoted c = if c == 39 then skips bare else takes quoted
move escaped c = takes bare
move bare c =
    if c == 39
    then skips quoted
    else if c == 92
    then skips escaped
    else if ends_word c
    then stops
    else if c == 34 || c == 36 || c == 96
    then refuses
    else takes bare

abbrev at_end : Mode → Option (Str × Str)
at_end bare = some ([], [])
at_end _ = none

-- The word's value, and the text behind the word.
unfoldable pub read_word : Mode → Str → Option (Str × Str)
unfolding move
read_word m [] = at_end m
read_word m (c ∷ s) = elim (move m c) [
  | skips n ↦ read_word n s
  | takes n ↦ prepend c (read_word n s)
  | stops ↦ some ([], c ∷ s)
  | refuses ↦ none
]

quoted-quote_rest :
    (s rest : Str)
    → read_word quoted (quote_rest s ++ rest)
      ≡ map_option (λ p. (s ++ p.0, p.1)) (read_word bare rest)
unfolding read_word move quote_rest
quoted-quote_rest [] rest = elim (Option-cases (read_word bare rest)) [
  | inl n ↦ ground (arith, n)
  | inr (p, n) ↦ ground (arith, n)
]
quoted-quote_rest (c ∷ s) rest = elim (Option-cases (read_word bare rest)) [
  | inl n ↦ ground (arith, n, quoted-quote_rest s rest, ==_iff c 39)
  | inr (p, n) ↦ ground (arith, n, quoted-quote_rest s rest, ==_iff c 39)
]

-- Where the shell reads a word it reads shell_quote s, whatever the bytes of s, as the literal text
-- s, and goes on reading the same word at whatever stands behind.
pub shell_quote_roundtrip :
    (s rest : Str)
    → read_word bare (shell_quote s ++ rest)
      ≡ map_option (λ p. (s ++ p.0, p.1)) (read_word bare rest)
unfolding read_word move shell_quote
shell_quote_roundtrip s rest = quoted-quote_rest s rest
