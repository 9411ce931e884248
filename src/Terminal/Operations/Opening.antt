-- ===== src/Terminal/Operations/Opening.antt =====
-- What get_or_create hands out, and when two users share a session.
use velix.Prelude.{
  ℕ, Str, some, Bool, true, false, List, [], ◌∷◌, ◌≡◌, ◌≢◌, refl, arith, find, erase, str_eq,
  ==_iff, ==_refl, find-erase, find-insert, nat_eq, Option-cases, inl, inr, sym, ◌∙◌,
}
use mathlib.Core.Bool.{false≢true}
use mathlib.Core.Logic.{◌⊎◌, ◌↔◌}
use velix.Terminal.Sessions.{
  SessionStatus, Session, Sessions, Limits, Outcome, returned, Created, Opened, existing, created,
  refused, new_session, session_id_of, normalize_session_name, is_healthy, get_or_create,
  admit_session, finds_healthy,
}
use velix.Terminal.Sessions.Cases.{admit_session-cases, get_or_create-cases}

module _ {D C : Type 0} where
  -- The session is active and its driver lives; no session of that id is so.
  abbrev pub Healthy : (D → Bool) → Session D C → Type 0
  Healthy alive s = (s.info.status ≡ SessionStatus.active) × (alive s.driver ≡ true)

  abbrev pub NoneHealthy : (D → Bool) → Str → Sessions D C → Type 0
  NoneHealthy alive id m = (s : Session D C) → find id m ≡ some s → ¬ (Healthy alive s)

  -- The promise of the result. A session that is handed out as it was is healthy; a new one has the
  -- spawned driver, the user and the name, and it or a refusal comes only where no session was
  -- healthy. A session that is closed was not healthy. Sessions under other ids are what they were.
  unfoldable pub Answer :
      (D → Bool)
      → Outcome (D × Str)
      → C
      → ℕ
      → Str
      → Str
      → Sessions D C
      → Sessions D C
      → Opened
      → Type 0
  Answer alive made cfg now user_id name m after (existing id) =
      (id ≡ session_id_of user_id name)
      × ((after ≡ m) × ((s : Session D C) × ((find id after ≡ some s) × Healthy alive s)))
  Answer alive made cfg now user_id name m after (created id) =
      (id ≡ session_id_of user_id name)
      × (NoneHealthy alive id m
          × ((d : D × Str) × ((made ≡ returned d)
                × (find id after
                    ≡ some
                        (new_session id user_id (normalize_session_name name) d.0 cfg d.1 now)))))
  Answer alive made cfg now user_id name m after (refused r) =
      (user_id ≡ []) ⊎ NoneHealthy alive (session_id_of user_id name) m

  pub record Opens (alive : D → Bool) (made : Outcome (D × Str)) (cfg : C) (now : ℕ)
      (user_id name : Str) (m : Sessions D C) (c : Created D C) : Type 0 where
    pub answer : Answer alive made cfg now user_id name m c.sessions c.result
    pub closed :
        (c.closed ≡ [])
        ⊎ ((s : Session D C) × ((find (session_id_of user_id name) m ≡ some s)
              × ((¬ (Healthy alive s)) × (c.closed ≡ s.driver ∷ []))))
    pub others : (j : Str) → j ≢ session_id_of user_id name → find j c.sessions ≡ find j m

  is_healthy-Healthy :
      (alive : D → Bool) (s : Session D C) → (is_healthy alive s ≡ true) ↔ Healthy alive s
  is_healthy-Healthy alive s = ground arith

  finds_healthy-none :
      (alive : D → Bool) (k : Str) (m : Sessions D C)
      → finds_healthy alive k m ≡ false
      → NoneHealthy alive k m
  unfolding finds_healthy
  finds_healthy-none alive k m h s n w =
      let sick : is_healthy alive s ≡ false = rw (n, finds_healthy) at h in
      false≢true (sym sick ∙ (is_healthy-Healthy alive s).1 w)

  finds_healthy-some :
      (alive : D → Bool) (k : Str) (m : Sessions D C)
      → finds_healthy alive k m ≡ true
      → (s : Session D C) × ((find k m ≡ some s) × Healthy alive s)
  unfolding finds_healthy
  finds_healthy-some alive k m h = elim (Option-cases (find k m)) [
    | inl n ↦ elim (false≢true (rw (n, finds_healthy) at h)) [ ]
    | inr (s, n) ↦ (s, (n, (is_healthy-Healthy alive s).0 (rw (n, finds_healthy) at h)))
  ]

  admit_session-Opens :
      (limits : Limits) (alive : D → Bool) (made : Outcome (D × Str)) (cfg : C) (now : ℕ)
      (user_id name : Str) (old : List D) (n m : Sessions D C)
      → finds_healthy alive (session_id_of user_id name) n ≡ false
      → ((old ≡ [])
          ⊎ ((s : Session D C) × ((find (session_id_of user_id name) n ≡ some s)
                × ((¬ (Healthy alive s)) × (old ≡ s.driver ∷ [])))))
      → ((j : Str) → j ≢ session_id_of user_id name → find j m ≡ find j n)
      → Opens alive made cfg now user_id name n (
          admit_session limits made cfg now
            (session_id_of user_id name)
            user_id
            (normalize_session_name name)
            old
            m)
  unfolding Answer
  admit_session-Opens limits alive made cfg now user_id name old n m sick c o =
      let id = session_id_of user_id name in
      let norm = normalize_session_name name in
      admit_session-cases (Opens alive made cfg now user_id name n) limits made cfg now id user_id
        norm old m
        (λ r. record { answer = inr (finds_healthy-none alive id n sick); closed = c; others = o })
        (λ d e free.
          let s = new_session id user_id norm d.0 cfg d.1 now in
          record {
            answer = (
              refl,
              (
                finds_healthy-none alive id n sick,
                (d, (e, ground (arith, find-insert id id s m, ==_refl id))),
              ),
            );
            closed = c;
            others = λ j apart. ground (arith, find-insert id j s m, ==_iff id j, o j apart, apart);
          })

  -- When no other call comes between its two locks, get_or_create keeps its promise: it hands out
  -- the user's session of that name unchanged if that one is active and its driver lives; a new
  -- session with the spawned driver comes only where no session of that name is so, and a refusal only
  -- there or for an empty user; it closes no driver but that of a session
  -- that was not healthy, and sessions under other ids stay as they are.
  pub get_or_create_answers :
      (limits : Limits) (alive : D → Bool) (made : Outcome (D × Str)) (cfg : C) (now : ℕ)
      (user_id name : Str) (m : Sessions D C)
      → Opens alive made cfg now user_id name m
          (get_or_create limits made cfg now user_id name alive m alive m)
  unfolding Answer finds_healthy
  get_or_create_answers limits alive made cfg now user_id name m =
      let id = session_id_of user_id name in
      let admitted = admit_session-Opens limits alive made cfg now user_id name in
      get_or_create-cases (Opens alive made cfg now user_id name m) limits made cfg now user_id name
        alive m alive m
        (λ e. record {
          answer = inl (ground (arith, e));
          closed = inl refl;
          others = λ j apart. refl;
        })
        (λ f. record {
          answer = (refl, (refl, finds_healthy-some alive id m f));
          closed = inl refl;
          others = λ j apart. refl;
        })
        (λ s n h. record {
          answer = (refl, (refl, (s, (n, (is_healthy-Healthy alive s).0 h))));
          closed = inl refl;
          others = λ j apart. refl;
        })
        (λ n e. admitted [] m m (rw (n, finds_healthy) refl) (inl refl) (λ j apart. refl))
        (λ s n h e.
          admitted (s.driver ∷ []) m (erase id m) (rw (n, finds_healthy) h)
            (inr (s, (n, (λ w. false≢true (sym h ∙ (is_healthy-Healthy alive s).1 w), refl))))
            (λ j apart. ground (arith, find-erase id j m, ==_iff id j, apart)))
