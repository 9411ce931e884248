-- ===== src/ContextFiles.antt =====
-- llm/session_io.cpp: roles, estimates and the texts of context files. `scan` stands for the search of
-- std::regex over the table of threat patterns: the id of the first pattern found.
pub mod Cleaning
use velix.Prelude.{
  ℕ, zero, suc, ◌+◌, ◌-◌, ◌/◌, max, Str, Option, none, some, Bool, true, false, ◌&&◌, ◌||◌, List,
  [], ◌∷◌, ◌++◌, if◌then◌else◌, is_empty, leb, codes, ◌==◌, nat_eq, str_eq, to_string, drop, take,
  length,
}
use velix.Patch.{is_prefix, find_from}
use velix.SessionNames.{is_alnum}

unfoldable pub is_valid_role : Str → Bool
is_valid_role role =
    role == codes "system"
    || role == codes "user"
    || role == codes "assistant"
    || role == codes "tool"
    || role == codes "agent"

unfoldable pub canonicalize_role : Str → Str
canonicalize_role role = if role == codes "agent" then codes "assistant" else role

unfoldable pub sanitize_for_filename : Str → Str
sanitize_for_filename [] = []
sanitize_for_filename (c ∷ s) = (if is_alnum c then c else 95) ∷ sanitize_for_filename s

unfoldable pub estimate_text_tokens : Str → ℕ
estimate_text_tokens text = max 1 (length text / 3)

-- INVISIBLE_CHARS, in UTF-8 and in the order of the set.
abbrev pub later_chars : List Str
later_chars =
    (226 ∷ 128 ∷ 140 ∷ [])
    ∷ (226 ∷ 128 ∷ 141 ∷ [])
    ∷ (226 ∷ 128 ∷ 170 ∷ [])
    ∷ (226 ∷ 128 ∷ 171 ∷ [])
    ∷ (226 ∷ 128 ∷ 172 ∷ [])
    ∷ (226 ∷ 128 ∷ 173 ∷ [])
    ∷ (226 ∷ 128 ∷ 174 ∷ [])
    ∷ (226 ∷ 129 ∷ 160 ∷ [])
    ∷ (239 ∷ 187 ∷ 191 ∷ [])
    ∷ []

abbrev pub zero_width_space : Str
zero_width_space = 226 ∷ 128 ∷ 139 ∷ []

abbrev pub invisible_chars : List Str
invisible_chars = zero_width_space ∷ later_chars

-- The inner loop, with the bytes of an occurrence that are still to be erased; the search goes on
-- at the position of the occurrence.
unfoldable pub erase_all : Str → ℕ → Str → Str
unfolding is_prefix
erase_all ch n [] = []
erase_all ch (suc n) (c ∷ s) = erase_all ch n s
erase_all ch zero (c ∷ s) = elim (is_prefix ch (c ∷ s)) [
  | true ↦ erase_all ch (length ch - 1) s
  | false ↦ c ∷ erase_all ch 0 s
]

unfoldable pub clean_chars : List Str → Str → Str
unfolding erase_all
clean_chars [] content = content
clean_chars (ch ∷ chs) content = clean_chars chs (erase_all ch 0 content)

unfoldable pub clean_invisible_chars : Str → Str
clean_invisible_chars content = clean_chars invisible_chars content

-- find_first_not_of("\n\r"), and the text from there, or all of it if there is no other byte.
unfoldable pub skip_newlines : Str → Option Str
skip_newlines [] = none
skip_newlines (c ∷ s) =
    let rest = skip_newlines s in if c == 10 || c == 13 then rest else some (c ∷ s)

unfoldable pub strip_yaml_frontmatter : Str → Str
unfolding find_from skip_newlines
strip_yaml_frontmatter content =
    if take 3 content == codes "---"
    then elim (find_from (10 ∷ codes "---") 3 content) [
      | none ↦ content
      | some end_ ↦
          (let body = drop (end_ + 4) content in
            elim (skip_newlines body) [ none ↦ body | some rest ↦ rest ])
    ]
    else content

-- For the limit that the callers use, 20000 bytes: 14000 in front and 4000 at the end are kept.
unfoldable pub truncate_content : Str → Str → Str
truncate_content content filename =
    if leb (length content) 20000
    then content
    else take 14000 content
      ++ ((10 ∷ 10 ∷ codes "[...truncated ")
          ++ (filename
              ++ (codes ": kept 14000+4000 of "
                  ++ (to_string (length content)
                      ++ (codes " chars. Use file tools to read the full file.]"
                          ++ (10 ∷ 10 ∷ drop (length content - 4000) content))))))

unfoldable pub scan_content_for_threats : (Str → Option Str) → Str → Str → Str
scan_content_for_threats scan content filename = elim (scan content) [
  | none ↦ content
  | some pid ↦
      codes "[BLOCKED: "
      ++ (filename
          ++ (codes " contained potential prompt injection ("
              ++ (pid ++ codes "). Content not loaded.]")))
]

unfoldable pub process_context_file : (Str → Option Str) → Str → Str → Str
unfolding clean_invisible_chars scan_content_for_threats strip_yaml_frontmatter truncate_content
process_context_file scan content filename =
    if is_empty content
    then []
    else (let safe = scan_content_for_threats scan (clean_invisible_chars content) filename in
        if take 9 safe == codes "[BLOCKED:"
        then safe
        else truncate_content (strip_yaml_frontmatter safe) filename)
