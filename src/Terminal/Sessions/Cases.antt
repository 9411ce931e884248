-- ===== src/Terminal/Sessions/Cases.antt =====
-- The ways through get_or_create: what holds at the end of each holds of the result.
use velix.Prelude.{
  ℕ, Str, some, none, Bool, true, false, [], ◌∷◌, List, ◌≡◌, refl, is_empty, length, find, insert,
  erase, Bool-cases, Option-cases, inl, inr, str_eq, ltb_ℤ,
}
use velix.Terminal.Sessions.{
  Sessions, Session, Limits, Outcome, returned, thrown, Created, Refusal, Opened, existing, created,
  refused, empty_user, too_many_sessions, too_many_of_user, spawn_failed, session_id_of, to_int,
  normalize_session_name, count_active, admit_session, recreate, get_or_create, new_session,
  is_healthy, finds_healthy,
}

module _ {D C : Type 0} where
  -- The limits leave room for one more session of the user.
  pub record Room (limits : Limits) (user_id : Str) (m : Sessions D C) : Type 0 where
    pub total : ltb_ℤ (to_int (length m)) limits.max_sessions_total ≡ true
    pub of_user : ltb_ℤ (to_int (count_active user_id m)) limits.max_sessions_per_user ≡ true

  abbrev pub kept : Opened → List D → Sessions D C → Created D C
  kept result closed m = record { sessions = m; result = result; closed = closed; spawned = [] }

  abbrev pub grown : Str → Str → Str → C → ℕ → D × Str → List D → Sessions D C → Created D C
  grown id user_id name cfg now made closed m = record {
    sessions = insert id (new_session id user_id name made.0 cfg made.1 now) m;
    result = created id;
    closed = closed;
    spawned = made.0 ∷ [];
  }

  pub admit_session-cases :
      (P : Created D C → Type 0) (limits : Limits) (made : Outcome (D × Str)) (cfg : C) (now : ℕ)
      (id user_id name : Str) (old : List D) (m : Sessions D C)
      → ((r : Refusal) → P (kept (refused r) old m))
      → ((d : D × Str)
          → made ≡ returned d
          → Room limits user_id m
          → P (grown id user_id name cfg now d old m))
      → P (admit_session limits made cfg now id user_id name old m)
  unfolding admit_session
  admit_session-cases P limits made cfg now id user_id name old m stop go =
      let full = ltb_ℤ (to_int (length m)) limits.max_sessions_total in
      let crowded = ltb_ℤ (to_int (count_active user_id m)) limits.max_sessions_per_user in
      elim (Bool-cases full) [
        | inr f ↦ rw f (stop too_many_sessions)
        | inl f ↦ elim (Bool-cases crowded) [
          | inr g ↦ rw (f, g) (stop too_many_of_user)
          | inl g ↦ rw (f, g) (spawned made (λ d e. go d e (record { total = f; of_user = g })))
        ]
      ]
    where
      spawned :
          (o : Outcome (D × Str))
          → ((d : D × Str) → o ≡ returned d → P (grown id user_id name cfg now d old m))
          → P (elim o [
            | thrown what ↦ kept (refused (spawn_failed what)) old m
            | returned d ↦ grown id user_id name cfg now d old m
          ])
      spawned (thrown what) h = stop (spawn_failed what)
      spawned (returned d) h = h d refl

  pub get_or_create-cases :
      (P : Created D C → Type 0) (limits : Limits) (made : Outcome (D × Str)) (cfg : C) (now : ℕ)
      (user_id name : Str) (alive_then : D → Bool) (seen : Sessions D C) (alive : D → Bool)
      (m : Sessions D C)
      → (is_empty user_id ≡ true → P (kept (refused empty_user) [] m))
      → (finds_healthy alive_then (session_id_of user_id name) seen ≡ true
          → P (kept (existing (session_id_of user_id name)) [] m))
      → ((s : Session D C)
          → find (session_id_of user_id name) m ≡ some s
          → is_healthy alive s ≡ true
          → P (kept (existing (session_id_of user_id name)) [] m))
      → (find (session_id_of user_id name) m ≡ none
          → is_empty user_id ≡ false
          → P (
              admit_session limits made cfg now
                (session_id_of user_id name)
                user_id
                (normalize_session_name name)
                []
                m))
      → ((s : Session D C)
          → find (session_id_of user_id name) m ≡ some s
          → is_healthy alive s ≡ false
          → is_empty user_id ≡ false
          → P (
              admit_session limits made cfg now
                (session_id_of user_id name)
                user_id
                (normalize_session_name name)
                (s.driver ∷ [])
                (erase (session_id_of user_id name) m)))
      → P (get_or_create limits made cfg now user_id name alive_then seen alive m)
  unfolding get_or_create
  get_or_create-cases P limits made cfg now user_id name alive_then seen alive m e0 fast again fresh
        dead =
      let id = session_id_of user_id name in
      elim (Bool-cases (is_empty user_id)) [
        | inl e ↦ rw e (e0 e)
        | inr e ↦ elim (Bool-cases (finds_healthy alive_then id seen)) [
          | inl f ↦ rw (e, f) (fast f)
          | inr f ↦ elim (Option-cases (find id m)) [
            | inl n ↦ rw (e, f, n, recreate) (fresh n e)
            | inr (s, n) ↦ elim (Bool-cases (is_healthy alive s)) [
              | inl h ↦ rw (e, f, n, h, recreate) (again s n h)
              | inr h ↦ rw (e, f, n, h, recreate) (dead s n h e)
            ]
          ]
        ]
      ]
