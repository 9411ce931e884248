-- ===== src/SessionNames.antt =====
-- llm/session_manager.cpp: the names of super users and of their sessions. list_sessions is an
-- argument, the ids on record; a name is a byte string.
pub mod Fresh
use velix.Prelude.{
  ℕ, ◌+◌, max, ℤ, pos, negsuc, Str, Option, none, some, Bool, true, false, not, ◌&&◌, ◌||◌, List,
  [], ◌∷◌, ◌++◌, if◌then◌else◌, is_empty, leb, codes, ◌==◌, nat_eq, str_eq, to_string, drop, length,
}
use velix.Prelude.Numerals.{is_digit, stoi}
use velix.Patch.{is_prefix}

-- std::isalnum in the C locale.
abbrev pub is_alnum : ℕ → Bool
is_alnum c = is_digit c || (leb 65 c && leb c 90) || (leb 97 c && leb c 122)

abbrev pub starts_with_s : Str → Bool
starts_with_s [] = false
starts_with_s (c ∷ s) = c == 115

abbrev pub tail : Str → Str
tail [] = []
tail (c ∷ s) = s

-- rfind("_s"): the bytes before the last one, and those behind it.
unfoldable pub split_last : Str → Option (Str × Str)
split_last [] = none
split_last (c ∷ s) = elim (split_last s) [
  | some p ↦ some (c ∷ p.0, p.1)
  | none ↦ if c == 95 && starts_with_s s then some ([], tail s) else none
]

unfoldable pub all_digits : Str → Bool
all_digits [] = true
all_digits (c ∷ s) = is_digit c && all_digits s

-- numeric_suffix; the test pos + 2 < size is that the suffix is not empty.
unfoldable pub is_number : Str → Bool
unfolding all_digits
is_number suffix = not (is_empty suffix) && all_digits suffix

unfoldable pub extract_super_user : Str → Str
unfolding split_last is_number
extract_super_user session_id = elim (split_last session_id) [
  | none ↦ session_id
  | some p ↦ if is_number p.1 then p.0 else session_id
]

unfoldable pub is_session_id : Str → Bool
unfolding extract_super_user
is_session_id s = not (extract_super_user s == s)

pub record SessionTarget : Type 0 where
  pub is_session : Bool
  pub super_user : Str
  pub session_id : Str

unfoldable pub resolve_target : Str → SessionTarget
unfolding is_session_id extract_super_user
resolve_target user_id = record {
  is_session = is_session_id user_id;
  super_user = if is_session_id user_id then extract_super_user user_id else user_id;
  session_id = if is_session_id user_id then user_id else [];
}

-- validate_super_user_name, which throws one of these.
pub data NameError : Type 0 where
  is_blank matches_reserved has_other_bytes : NameError

unfoldable pub all_name_bytes : Str → Bool
all_name_bytes [] = true
all_name_bytes (c ∷ s) = (is_alnum c || c == 45 || c == 95) && all_name_bytes s

unfoldable pub is_reserved : Str → Bool
unfolding split_last is_number
is_reserved s = elim (split_last s) [ none ↦ false | some p ↦ is_number p.1 ]

unfoldable pub validate_super_user_name : Str → Option NameError
unfolding is_reserved all_name_bytes
validate_super_user_name s =
    if is_empty s
    then some is_blank
    else if is_reserved s
    then some matches_reserved
    else if all_name_bytes s
    then none
    else some has_other_bytes

-- The path of a session below the root of the storage.
abbrev find_underscore : Str → Option Str
find_underscore [] = none
find_underscore (c ∷ s) =
    if c == 95
    then some []
    else elim (find_underscore s) [ none ↦ none | some pid ↦ some (c ∷ pid) ]

abbrev user_dir : Str → Str → Str
user_dir root session_id =
    root
    ++ (codes "/sessions/users/" ++ (extract_super_user session_id ++ (codes "/" ++ session_id)))

unfoldable pub session_dir : Str → Str → Str
unfolding is_prefix extract_super_user
session_dir root session_id =
    if is_prefix (codes "proc_") session_id
    then elim (find_underscore (drop 5 session_id)) [
      | none ↦ user_dir root session_id
      | some pid ↦ root ++ (codes "/sessions/procs/" ++ (pid ++ (codes "/" ++ session_id)))
    ]
    else user_dir root session_id

abbrev pub raise : ℕ → Option ℤ → ℕ
raise max_n none = max_n
raise max_n (some (negsuc n)) = max_n
raise max_n (some (pos n)) = max max_n n

-- The number that a session's id gives; an id without one is passed over.
unfoldable pub session_number : Str → Option ℤ
unfolding split_last
session_number sid = elim (split_last sid) [ none ↦ none | some p ↦ stoi p.1 ]

unfoldable pub max_number : ℕ → List Str → ℕ
unfolding session_number
max_number max_n [] = max_n
max_number max_n (sid ∷ sids) = max_number (raise max_n (session_number sid)) sids

-- The highest number and one; the int has room for it.
unfoldable pub next_session_id : Str → List Str → Str
unfolding max_number
next_session_id super_user sessions =
    super_user ++ (codes "_s" ++ to_string (max_number 0 sessions + 1))
