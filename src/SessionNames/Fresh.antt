-- ===== src/SessionNames/Fresh.antt =====
-- The ids that are given to new sessions.
use velix.Prelude.{
  ℕ, ◌+◌, ◌≤◌, ◌<◌, ◌^◌, pos, Str, none, some, true, false, List, [], ◌∷◌, ◌++◌, ◌≡◌, ◌≢◌, refl,
  arith, sym, ap, ◌∙◌, codes, ◌==◌, ==_iff, nat_eq, str_eq, to_string, contains, Bool-cases, inl,
  inr,
}
use velix.Prelude.Numerals.Printed.{
  stoi-to_string, contains-to_string, to_string-digits, are_digits,
}
use velix.SessionNames.{
  split_last, all_digits, is_number, extract_super_user, is_session_id, raise, session_number,
  max_number, next_session_id,
}

split_last-none : (s : Str) → contains 95 s ≡ false → split_last s ≡ none
unfolding split_last contains
split_last-none [] h = refl
split_last-none (c ∷ s) h = ground (arith, split_last-none s, h)

-- The last "_s" is the one before a number.
split_last-append :
    (u d : Str) → contains 95 d ≡ false → split_last (u ++ (95 ∷ 115 ∷ d)) ≡ some (u, d)
unfolding split_last contains
split_last-append [] d h = ground (arith, split_last-none d h, h)
split_last-append (c ∷ u) d h = rw (split_last-append u d h) refl

max_number-above : (m : ℕ) (sids : List Str) → m ≤ max_number m sids
unfolding max_number
max_number-above m [] = omega arith
max_number-above m (sid ∷ sids) =
    ground (arith, max_number-above (raise m (session_number sid)) sids)

-- The highest number is above every number of an id on record.
max_number-member :
    (m n : ℕ) (sid : Str) (sids : List Str)
    → contains sid sids ≡ true
    → session_number sid ≡ some (pos n)
    → n ≤ max_number m sids
unfolding max_number contains
max_number-member m n sid [] c h = ground arith
max_number-member m n sid (x ∷ sids) c h = elim (Bool-cases (x == sid)) [
  | inl e ↦
      let same : session_number x ≡ some (pos n) = ap session_number ((==_iff x sid).0 e) ∙ h in
      ground (arith, same, max_number-above (raise m (session_number x)) sids)
  | inr e ↦ max_number-member (raise m (session_number x)) n sid sids (ground (arith, c, e)) h
]

number_of_next :
    (u : Str) (k : ℕ)
    → k < 2 ^ 31
    → session_number (u ++ (codes "_s" ++ to_string k)) ≡ some (pos k)
unfolding session_number
number_of_next u k h =
    rw (split_last-append u (to_string k) (contains-to_string 95 k refl), session_number)
      (stoi-to_string k h)

all_digits-are_digits : (s : Str) → all_digits s ≡ are_digits s
unfolding all_digits
all_digits-are_digits [] = refl
all_digits-are_digits (c ∷ s) = rw (all_digits-are_digits s) refl

is_number-to_string : (n : ℕ) → is_number (to_string n) ≡ true
unfolding is_number
is_number-to_string n =
    let d = to_string-digits n in rw (all_digits-are_digits (to_string n), d.0, d.1) refl

longer : (u x : Str) (c : ℕ) → u ≢ (u ++ (c ∷ x))
longer [] x c e = ground (arith, e)
longer (d ∷ u) x c e = longer u x c (ground (arith, e))

extract_next : (u : Str) (k : ℕ) → extract_super_user (u ++ (codes "_s" ++ to_string k)) ≡ u
unfolding extract_super_user
extract_next u k =
    rw
      (
        split_last-append u (to_string k) (contains-to_string 95 k refl),
        is_number-to_string k,
        extract_super_user,
      )
      refl

-- While the numbers leave room in an int, the id for the next session of a super user is none of
-- the ids on record, and it is read as a session id of that super user.
pub next_session_id_fresh :
    (u : Str) (sids : List Str)
    → max_number 0 sids + 1 < 2 ^ 31
    → (contains (next_session_id u sids) sids ≡ false)
      × ((extract_super_user (next_session_id u sids) ≡ u)
          × (is_session_id (next_session_id u sids) ≡ true))
unfolding next_session_id is_session_id
next_session_id_fresh u sids h =
    let k = max_number 0 sids + 1 in
    let id = u ++ (codes "_s" ++ to_string k) in
    let extracted = extract_next u k in
    (
      elim (Bool-cases (contains id sids)) [
        | inr e ↦ e
        | inl e ↦ elim (too_high k (max_number-member 0 k id sids e (number_of_next u k h))) [ ]
      ],
      (
        extracted,
        elim (Bool-cases (extract_super_user id == id)) [
          | inr e ↦ rw (e, is_session_id) refl
          | inl e ↦
              elim (longer u (115 ∷ to_string k) 95
                (sym extracted ∙ (==_iff (extract_super_user id) id).0 e)) [ ]
        ],
      ),
    )
  where
    too_high : (k : ℕ) → max_number 0 sids + 1 ≤ max_number 0 sids → ⊥
    too_high k e = omega (arith, e)
