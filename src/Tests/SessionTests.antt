-- ===== src/Tests/SessionTests.antt =====
-- The theorem on the ids of sessions, for a user with three sessions on record.
use velix.Prelude.{
  ◌+◌, ◌<◌, ◌^◌, Str, true, false, List, [], ◌∷◌, ◌≡◌, arith, codes, contains, str_eq, read_digits,
}
use velix.Prelude.Numerals.{stoi, read_sign, read_up_to, skip_spaces, digit_prefix}
use velix.SessionNames.{
  extract_super_user, is_session_id, next_session_id, max_number, session_number, split_last,
}
use velix.SessionNames.Fresh.{next_session_id_fresh}

abbrev ids : List Str
ids = codes "ann_s1" ∷ codes "ann_s7" ∷ codes "ann_sx" ∷ []

few : max_number 0 ids + 1 < 2 ^ 31
unfolding max_number session_number split_last stoi read_sign read_up_to skip_spaces digit_prefix
    read_digits
few = omega arith

next_session_id_fresh_example :
    (contains (next_session_id (codes "ann") ids) ids ≡ false)
    × ((extract_super_user (next_session_id (codes "ann") ids) ≡ codes "ann")
        × (is_session_id (next_session_id (codes "ann") ids) ≡ true))
next_session_id_fresh_example = next_session_id_fresh (codes "ann") ids few
