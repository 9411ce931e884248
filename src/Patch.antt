-- ===== src/Patch.antt =====
-- utils/file_tools.cpp: the text work of patch_file, is_likely_binary and extract_patch_context. The
-- file's content stands for what read_all read under the lock, and atomic_write is an argument that
-- answers whether it failed.
pub mod Unique
use velix.Prelude.{
  codes, ℕ, zero, suc, ◌+◌, ◌*◌, ◌-◌, min, Str, Option, none, some, Bool, true, false, not, ◌&&◌,
  List, [], ◌∷◌, ◌++◌, if◌then◌else◌, ◌==◌, nat_eq, ltb, leb, length, take, drop, is_empty,
  map_option,
}

unfoldable pub is_prefix : Str → Str → Bool
is_prefix [] s = true
is_prefix (c ∷ t) [] = false
is_prefix (c ∷ t) (d ∷ s) = c == d && is_prefix t s

-- content.find(text): the first position, counted from the start of the string.
unfoldable pub find_text : Str → Str → Option ℕ
unfolding is_prefix
find_text text [] = if is_prefix text [] then some 0 else none
find_text text (c ∷ s) =
    let later = map_option suc (find_text text s) in
    if is_prefix text (c ∷ s) then some 0 else later

-- content.find(text, start), which answers npos for a start behind the end.
unfoldable pub find_from : Str → ℕ → Str → Option ℕ
unfolding find_text
find_from text start content =
    if ltb (length content) start
    then none
    else map_option (λ i. start + i) (find_text text (drop start content))

-- append(content, 0, pos), append(new_text), append(content, pos + old_text.size(), npos).
unfoldable pub replace_at : ℕ → Str → Str → Str → Str
replace_at pos old_text new_text content =
    take pos content ++ (new_text ++ drop (pos + length old_text) content)

pub record PatchContext : Type 0 where
  pub before : Str
  pub match_ : Str
  pub after : Str

pub data PatchResult : Type 0 where
  old_text_is_empty : PatchResult
  not_found : Str → PatchResult
  ambiguous : PatchResult
  write_failed : Str → PatchResult
  patched : ℕ → ℕ → PatchContext → PatchResult

-- rfind('\n'): the last position of a newline.
unfoldable pub last_newline : Str → Option ℕ
last_newline [] = none
last_newline (c ∷ s) = elim (last_newline s) [
  | some i ↦ some (suc i)
  | none ↦ if c == 10 then some 0 else none
]

-- find('\n')
unfoldable pub first_newline : Str → Option ℕ
first_newline [] = none
first_newline (c ∷ s) =
    let later = map_option suc (first_newline s) in if c == 10 then some 0 else later

-- The lines before the match, without a partial first one, unless the newline is the first byte.
unfoldable pub trim_before : Str → Str
trim_before before = elim (last_newline before) [
  | none ↦ before
  | some i ↦ if ltb 0 i then drop (i + 1) before else before
]

unfoldable pub trim_after : Str → Str
trim_after after = elim (first_newline after) [ none ↦ after | some i ↦ take i after ]

unfoldable pub extract_patch_context : Str → ℕ → ℕ → PatchContext
unfolding trim_before trim_after
extract_patch_context content pos match_len =
    let start = if ltb 150 pos then pos - 150 else 0 in
    let after_end = min (pos + match_len + 150) (length content) in
    record {
      before = trim_before (take (pos - start) (drop start content));
      match_ = take match_len (drop pos content);
      after = trim_after (take (after_end - pos - match_len) (drop (pos + match_len) content));
    }

-- What the machine does with the temporary file: the error of making its directory, if any; whether it is opened and
-- whether the stream takes the bytes; how many of them are in the file once it is closed, which nobody asks; the error of
-- the rename, if any.
pub record TempFile : Type 0 where
  pub name : Str
  pub create_directories : Option Str
  pub opens : Bool
  pub takes : Bool
  pub kept : ℕ
  pub rename : Option Str

-- atomic_write, on POSIX: the error, and what the file is afterwards.
unfoldable pub atomic_write : TempFile → Str → Str → Option Str × Str
atomic_write tmp result content = elim tmp.create_directories [
  | some e ↦ (some (codes "Cannot create directories: " ++ e), content)
  | none ↦
      if not tmp.opens
      then (some (codes "Cannot open temp file for writing: " ++ tmp.name), content)
      else if not tmp.takes
      then (some (codes "Write failed on temp file: " ++ tmp.name), content)
      else elim tmp.rename [
        | some e ↦ (some (codes "Atomic rename failed: " ++ e), content)
        | none ↦ (none, take tmp.kept result)
      ]
]

-- The end of patch_file, behind the write.
unfoldable pub reported : Str → Str → PatchContext → Option Str × Str → PatchResult × Str
reported content result context (some error, after) = (write_failed error, after)
reported content result context (none, after) =
    (patched (length content) (length result) context, after)

-- patch_file behind the lock: the result, and the content of the file afterwards.
unfoldable pub patch_file : TempFile → Str → Str → Str → PatchResult × Str
unfolding find_text find_from replace_at extract_patch_context atomic_write reported
patch_file tmp old_text new_text content =
    if is_empty old_text then (old_text_is_empty, content) else elim (find_text old_text content) [
      | none ↦ (not_found (take 200 content), content)
      | some pos ↦ elim (find_from old_text (pos + 1) content) [
        | some second ↦ (ambiguous, content)
        | none ↦
            (let result = replace_at pos old_text new_text content in
              reported content result (extract_patch_context content pos (length old_text))
                (atomic_write tmp result content))
      ]
    ]

-- How many of the first bytes are 0.
unfoldable pub count_nulls : Str → ℕ
count_nulls [] = 0
count_nulls (c ∷ s) = (if c == 0 then 1 else 0) + count_nulls s

-- More than 2% of the first 8 KiB are 0.
unfoldable pub is_likely_binary : Str → Bool
unfolding count_nulls
is_likely_binary content =
    if is_empty content
    then false
    else (let sample = take (min (length content) 8192) content in
        ltb (length sample * 2) (count_nulls sample * 100))
