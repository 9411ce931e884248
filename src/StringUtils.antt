-- ===== src/StringUtils.antt =====
-- utils/string_utils.hpp, without generate_uuid, whose numbers are random.
pub mod Splitting
use velix.Prelude.{
  ℕ, zero, suc, ◌-◌, Str, Option, none, some, Bool, true, false, ◌&&◌, not, if◌then◌else◌, List, [],
  ◌∷◌, ◌++◌, ◌==◌, nat_eq, str_eq, length, drop, is_empty, leb, ltb,
}
use velix.Prelude.Numerals.{is_space}
use velix.Distance.{tolower}
use velix.Patch.{is_prefix, find_text}

unfoldable pub ltrim : Str → Str
ltrim [] = []
ltrim (c ∷ s) = let rest = ltrim s in if is_space c then rest else c ∷ s

unfoldable pub rtrim : Str → Str
rtrim [] = []
rtrim (c ∷ s) = let rest = rtrim s in if is_empty rest && is_space c then [] else c ∷ rest

unfoldable pub trim : Str → Str
unfolding ltrim rtrim
trim s = rtrim (ltrim s)

-- The loop of std::getline, with what it has read of the line: at the end of the text a line that is
-- empty is none.
unfoldable pub split_from : ℕ → Str → Str → List Str
split_from delimiter token [] = if is_empty token then [] else token ∷ []
split_from delimiter token (c ∷ s) =
    let next = split_from delimiter [] s in
    let longer = split_from delimiter (token ++ (c ∷ [])) s in
    if c == delimiter then token ∷ next else longer

unfoldable pub split : Str → ℕ → List Str
unfolding split_from
split s delimiter = split_from delimiter [] s

unfoldable pub join : List Str → Str → Str
join [] delimiter = []
join (item ∷ []) delimiter = item
join (item ∷ (next ∷ items)) delimiter = item ++ (delimiter ++ join (next ∷ items) delimiter)

-- The loop of replace_all, with the number of bytes of an occurrence that are still to be passed.
unfoldable pub replace_from : Str → Str → ℕ → Str → Str
unfolding is_prefix
replace_from from to skip [] = []
replace_from from to (suc skip) (c ∷ s) = replace_from from to skip s
replace_from from to zero (c ∷ s) =
    let found = replace_from from to (length from - 1) s in
    let rest = replace_from from to 0 s in if is_prefix from (c ∷ s) then to ++ found else c ∷ rest

unfoldable pub replace_all : Str → Str → Str → Str
unfolding replace_from
replace_all s from to = if is_empty from then s else replace_from from to 0 s

unfoldable pub to_lower : Str → Str
to_lower [] = []
to_lower (c ∷ s) = tolower c ∷ to_lower s

abbrev pub toupper : ℕ → ℕ
toupper c = if leb 97 c && leb c 122 then c - 32 else c

unfoldable pub to_upper : Str → Str
to_upper [] = []
to_upper (c ∷ s) = toupper c ∷ to_upper s

unfoldable pub starts_with : Str → Str → Bool
unfolding is_prefix
starts_with s prefix = is_prefix prefix s

unfoldable pub ends_with : Str → Str → Bool
ends_with s suffix =
    not (ltb (length s) (length suffix)) && (drop (length s - length suffix) s == suffix)

unfoldable pub contains : Str → Str → Bool
unfolding find_text
contains s needle = elim (find_text needle s) [ none ↦ false | some pos ↦ true ]
