-- ===== src/Terminal/Sessions/Keys.antt =====
-- Which users and names share a session id.
use velix.Prelude.{
  append_assoc, ℕ, Str, some, Bool, true, false, [], ◌∷◌, ◌++◌, ◌≡◌, refl, arith, find, str_eq,
  contains, is_empty, codes, nat_eq, ap, ◌∙◌, sym, ==_iff,
}
use velix.Terminal.Sessions.{
  Session, Sessions, Limits, Outcome, existing, session_id_of, normalize_session_name,
  make_session_key, is_healthy, get_or_create, finds_healthy,
}

normalize_idem :
    (name : Str)
    → normalize_session_name (normalize_session_name name) ≡ normalize_session_name name
unfolding normalize_session_name
normalize_idem [] = refl
normalize_idem (c ∷ cs) = refl

-- Texts before the first separator are read back.
split_first :
    (c : ℕ) (u v x y : Str)
    → contains c u ≡ false
    → contains c v ≡ false
    → (u ++ (c ∷ x)) ≡ (v ++ (c ∷ y))
    → (u ≡ v) × (x ≡ y)
unfolding contains
split_first c [] [] x y p q e = ground arith
split_first c [] (b ∷ v) x y p q e = ground (arith, ==_iff b c)
split_first c (a ∷ u) [] x y p q e = ground (arith, ==_iff a c)
split_first c (a ∷ u) (b ∷ v) x y p q e = ground (arith, split_first c u v x y)

-- Two users whose ids have no colon share a session id only if they are one user, and the names
-- are the same name, the empty one meaning the default.
session_key_separates :
    (u v a b : Str)
    → contains 58 u ≡ false
    → contains 58 v ≡ false
    → session_id_of u a ≡ session_id_of v b
    → (u ≡ v) × (normalize_session_name a ≡ normalize_session_name b)
unfolding make_session_key
session_key_separates u v a b p q e =
    let split =
      split_first 58 u v (normalize_session_name (normalize_session_name a))
        (normalize_session_name (normalize_session_name b)) p q e in
    (split.0, sym (normalize_idem a) ∙ split.1 ∙ normalize_idem b)

session_key_collides :
    (u a b : Str)
    → is_empty b ≡ false
    → session_id_of (u ++ (codes ":" ++ a)) b ≡ session_id_of u (a ++ (codes ":" ++ b))
unfolding make_session_key normalize_session_name
session_key_collides u [] [] e = ground arith
session_key_collides u [] (c ∷ b) e = append_assoc u (58 ∷ []) (58 ∷ c ∷ b)
session_key_collides u (d ∷ a) [] e = ground arith
session_key_collides u (d ∷ a) (c ∷ b) e = append_assoc u (58 ∷ d ∷ a) (58 ∷ c ∷ b)

nonempty : (u a : Str) → is_empty (u ++ (codes ":" ++ a)) ≡ false
nonempty [] a = refl
nonempty (x ∷ u) a = refl

module _ {D C : Type 0} where
  healthy_here :
      (alive : D → Bool) (k j : Str) (m : Sessions D C) (s : Session D C)
      → find k m ≡ some s
      → is_healthy alive s ≡ true
      → k ≡ j
      → finds_healthy alive j m ≡ true
  unfolding finds_healthy
  healthy_here alive k j m s n h e =
      let here : finds_healthy alive k m ≡ true = rw (n, finds_healthy) h in
      ap (λ x. finds_healthy alive x m) (sym e) ∙ here

  -- A user whose id has a colon is handed the healthy session of another user: for a name b that is
  -- not empty, user "u:a" asking for b gets the session that user u has under the name "a:b".
  pub get_or_create_shares :
      (limits : Limits) (made : Outcome (D × Str)) (cfg : C) (now : ℕ) (u a b : Str)
      (alive : D → Bool) (m : Sessions D C) (s : Session D C)
      → is_empty b ≡ false
      → find (session_id_of u (a ++ (codes ":" ++ b))) m ≡ some s
      → is_healthy alive s ≡ true
      → (get_or_create limits made cfg now (u ++ (codes ":" ++ a)) b alive m alive m).result
        ≡ existing (session_id_of u (a ++ (codes ":" ++ b)))
  unfolding get_or_create
  get_or_create_shares limits made cfg now u a b alive m s e n h =
      rw
        (
          nonempty u a,
          healthy_here alive (session_id_of u (a ++ (codes ":" ++ b)))
              (session_id_of (u ++ (codes ":" ++ a)) b) m s n h
              (sym (session_key_collides u a b e)),
        )
        (ap existing (session_key_collides u a b e))
