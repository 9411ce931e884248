-- ===== src/Terminal/Sessions/Invariant.antt =====
-- The terminal registry's invariant, and the steps on its map that the operations are made of.
use velix.Prelude.{
  ℕ, ◌≤◌, ◌<◌, Str, some, true, false, [], ◌∷◌, ◌≡◌, refl, arith, ==_iff, is_empty, length, find,
  insert, erase, modify, Unique, find-erase, find-insert, find-modify, erase-Unique, insert-Unique,
  modify-Unique, str_eq, List, Option-cases, inl, inr,
}
use velix.Terminal.Sessions.{
  Session, Sessions, SessionInfo, make_session_key, count_active, is_active, extract_all,
  extract_locked,
}

-- A session's id is the key of its user and its name, and neither is empty.
pub record Keyed (k : Str) (info : SessionInfo) : Type 0 where
  pub id : info.session_id ≡ k
  pub key : make_session_key info.user_id info.session_name ≡ k
  pub user : is_empty info.user_id ≡ false
  pub name : is_empty info.session_name ≡ false

module _ {D C : Type 0} where
  -- With room for t sessions, and for w active ones of each user.
  pub record Within (t w : ℕ) (m : Sessions D C) : Type 0 where
    pub unique : Unique m
    pub keyed : (k : Str) (s : Session D C) → find k m ≡ some s → Keyed k s.info
    pub total : length m ≤ t
    pub per_user : (user_id : Str) → count_active user_id m ≤ w

  length-erase : (k : Str) (m : Sessions D C) → length (erase k m) ≤ length m
  unfolding erase
  length-erase k [] = omega arith
  length-erase k ((j, s) ∷ m) = ground (arith, length-erase k m)

  count-erase : (u k : Str) (m : Sessions D C) → count_active u (erase k m) ≤ count_active u m
  unfolding erase count_active
  count-erase u k [] = omega arith
  count-erase u k ((j, s) ∷ m) = ground (arith, count-erase u k m)

  pub count-length : (u : Str) (m : Sessions D C) → count_active u m ≤ length m
  unfolding count_active
  count-length u [] = omega arith
  count-length u ((j, s) ∷ m) = ground (arith, count-length u m)

  pub erase-Within : (t w : ℕ) (k : Str) (m : Sessions D C) → Within t w m → Within t w (erase k m)
  erase-Within t w k m i = record {
    unique = erase-Unique k m i.unique;
    keyed = λ j s e. ground (arith, i.keyed j s, find-erase k j m);
    total = ground (arith, i.total, length-erase k m);
    per_user = λ u. ground (arith, i.per_user u, count-erase u k m);
  }

  pub extract_all-Within :
      (t w : ℕ) (ids : List Str) (m : Sessions D C)
      → Within t w m
      → Within t w (extract_all ids m).1
  unfolding extract_all extract_locked
  extract_all-Within t w [] m i = i
  extract_all-Within t w (k ∷ ids) m i =
      extract_all-Within t w ids (erase k m) (erase-Within t w k m i)

  -- A change that leaves the id, the user and the name, and makes no session active.
  pub record Tame (f : Session D C → Session D C) : Type 0 where
    pub id : (s : Session D C) → (f s).info.session_id ≡ s.info.session_id
    pub user : (s : Session D C) → (f s).info.user_id ≡ s.info.user_id
    pub name : (s : Session D C) → (f s).info.session_name ≡ s.info.session_name
    pub active :
        (s : Session D C) → is_active (f s).info.status ≡ true → is_active s.info.status ≡ true

  length-modify :
      (k : Str) (f : Session D C → Session D C) (m : Sessions D C)
      → length (modify k f m) ≡ length m
  unfolding modify
  length-modify k f [] = refl
  length-modify k f ((j, s) ∷ m) = ground (arith, length-modify k f m)

  count-modify :
      (u k : Str) (f : Session D C → Session D C) (m : Sessions D C)
      → Tame f
      → count_active u (modify k f m) ≤ count_active u m
  unfolding modify count_active
  count-modify u k f [] h = omega arith
  count-modify u k f ((j, s) ∷ m) h = ground (arith, count-modify u k f m h, h.user s, h.active s)

  Keyed-Tame :
      (f : Session D C → Session D C) (k : Str) (s : Session D C)
      → Tame f
      → Keyed k s.info
      → Keyed k (f s).info
  Keyed-Tame f k s h i = record {
    id = ground (arith, h.id s, i.id);
    key = rw (h.user s, h.name s) i.key;
    user = rw (h.user s) i.user;
    name = rw (h.name s) i.name;
  }

  pub modify-Within :
      (t w : ℕ) (k : Str) (f : Session D C → Session D C) (m : Sessions D C)
      → Tame f
      → Within t w m
      → Within t w (modify k f m)
  modify-Within t w k f m h i = record {
    unique = modify-Unique k f m i.unique;
    keyed = λ j s e. elim (Option-cases (find j m)) [
      | inl n ↦ ground (arith, find-modify k j f m)
      | inr (o, n) ↦
          ground (arith, find-modify k j f m, i.keyed j o n, Keyed-Tame f j o h (i.keyed j o n))
    ];
    total = rw (length-modify k f m) i.total;
    per_user = λ u. ground (arith, i.per_user u, count-modify u k f m h);
  }

  pub insert-Within :
      (t w : ℕ) (k : Str) (s : Session D C) (m : Sessions D C)
      → Keyed k s.info
      → length m < t
      → count_active s.info.user_id m < w
      → Within t w m
      → Within t w (insert k s m)
  unfolding insert count_active
  insert-Within t w k s m keyed_s room user_room i = record {
    unique = insert-Unique k s m i.unique;
    keyed = λ j o e. ground (arith, find-insert k j s m, ==_iff k j, i.keyed j o);
    total = ground (arith, length-erase k m);
    per_user = λ u. ground (arith, ==_iff s.info.user_id u, count-erase u k m, i.per_user u);
  }
