-- ===== src/Terminal/Operations/Bounds.antt =====
-- The terminal registry's limits and keys under every step.
use velix.Prelude.{
  ℕ, ℤ, ◌<◌, ◌^◌, pos, Str, Bool, true, false, List, [], ◌∷◌, ◌≡◌, refl, arith, is_empty, length,
  find, erase, modify, str_eq, ltb_ℤ, keys_where,
}
use velix.Terminal.Sessions.{
  Sessions, Limits, Outcome, make_session_key, session_id_of, normalize_session_name, count_active,
  admit_session, extract_locked, get_or_create, to_int, new_session, of_user,
}
use velix.Terminal.Sessions.Invariant.{
  Within, Tame, count-length, erase-Within, extract_all-Within, modify-Within, insert-Within,
}
use velix.Terminal.Sessions.Cases.{admit_session-cases, get_or_create-cases}
use velix.Terminal.Operations.{
  Event, opens, uses, kills, kills_id, detects, evicts, step, run, kill_session, kill_session_by_id,
  detect_dead_sessions, evict_dead_and_idle, mark_all_dead, mark_dead, used_at, is_lost,
  is_evictable,
}

to_int_small : (n : ℕ) → n < 2 ^ 31 → to_int n ≡ pos n
unfolding to_int
to_int_small n h = ground arith

normalize-nonempty : (name : Str) → is_empty (normalize_session_name name) ≡ false
unfolding normalize_session_name
normalize-nonempty [] = refl
normalize-nonempty (c ∷ cs) = refl

-- The limits are ints, and not negative.
pub record Sized (t w : ℕ) (limits : Limits) : Type 0 where
  pub total : limits.max_sessions_total ≡ pos t
  pub per_user : limits.max_sessions_per_user ≡ pos w
  pub int : t < 2 ^ 31

-- A size below an int's limit that passed the test is below the limit.
room : (n t : ℕ) (limit : ℤ) → n < 2 ^ 31 → limit ≡ pos t → ltb_ℤ (to_int n) limit ≡ true → n < t
room n t limit h e passed = ground (arith, to_int_small n h)

module _ {D C : Type 0} where
  used_at-Tame : (now : ℕ) → Tame (used_at {D = D} {C = C} now)
  used_at-Tame now = record {
    id = λ s. refl;
    user = λ s. refl;
    name = λ s. refl;
    active = λ s a. a;
  }

  mark_dead-Tame : Tame (mark_dead {D = D} {C = C})
  mark_dead-Tame = record {
    id = λ s. refl;
    user = λ s. refl;
    name = λ s. refl;
    active = λ s a. ground arith;
  }

  mark_all_dead-Within :
      (t w : ℕ) (ids : List Str) (m : Sessions D C)
      → Within t w m
      → Within t w (mark_all_dead ids m)
  unfolding mark_all_dead
  mark_all_dead-Within t w [] m i = i
  mark_all_dead-Within t w (k ∷ ids) m i =
      mark_all_dead-Within t w ids (modify k mark_dead m)
        (modify-Within t w k mark_dead m mark_dead-Tame i)

  admit_session-Within :
      (t w : ℕ) (limits : Limits) (made : Outcome (D × Str)) (cfg : C) (now : ℕ)
      (user_id name : Str) (old : List D) (m : Sessions D C)
      → Sized t w limits
      → is_empty user_id ≡ false
      → is_empty name ≡ false
      → Within t w m
      → Within t w
          (admit_session limits made cfg now
            (make_session_key user_id name)
            user_id
            name
            old
            m).sessions
  admit_session-Within t w limits made cfg now user_id name old m l user named i =
      let id = make_session_key user_id name in
      let small : length m < 2 ^ 31 = ground (arith, i.total, l.int) in
      let few : count_active user_id m < 2 ^ 31 = ground (arith, small, count-length user_id m) in
      admit_session-cases (λ c. Within t w c.sessions) limits made cfg now id user_id name old m
        (λ r. i)
        (λ d e free.
          insert-Within t w id (new_session id user_id name d.0 cfg d.1 now) m
            (record { id = refl; key = refl; user = user; name = named })
            (room (length m) t limits.max_sessions_total small l.total free.total)
            (room (count_active user_id m) w limits.max_sessions_per_user few l.per_user
              free.of_user)
            i)

  get_or_create-Within :
      (t w : ℕ) (limits : Limits) (made : Outcome (D × Str)) (cfg : C) (now : ℕ)
      (user_id name : Str) (alive_then : D → Bool) (seen : Sessions D C) (alive : D → Bool)
      (m : Sessions D C)
      → Sized t w limits
      → Within t w m
      → Within t w (get_or_create limits made cfg now user_id name alive_then seen alive m).sessions
  get_or_create-Within t w limits made cfg now user_id name alive_then seen alive m l i =
      let id = session_id_of user_id name in
      let named = normalize-nonempty name in
      let admitted =
        admit_session-Within t w limits made cfg now user_id (normalize_session_name name) in
      get_or_create-cases (λ c. Within t w c.sessions) limits made cfg now user_id name alive_then
        seen alive m (λ e. i) (λ f. i) (λ s n h. i) (λ n e. admitted [] m l e named i)
        (λ s n h e. admitted (s.driver ∷ []) (erase id m) l e named (erase-Within t w id m i))

  pub step-Within :
      (t w : ℕ) (limits : Limits) (m : Sessions D C) (e : Event D C)
      → Sized t w limits
      → Within t w m
      → Within t w (step limits m e).sessions
  unfolding step kill_session kill_session_by_id extract_locked evict_dead_and_idle
      detect_dead_sessions
  step-Within t w limits m (opens made cfg now user name alive_then seen alive) l i =
      get_or_create-Within t w limits made cfg now user name alive_then seen alive m l i
  step-Within t w limits m (uses id now) l i =
      modify-Within t w id (used_at now) m (used_at-Tame now) i
  step-Within t w limits m (kills user []) l i =
      extract_all-Within t w (keys_where (of_user user) m) m i
  step-Within t w limits m (kills user (c ∷ cs)) l i =
      erase-Within t w (session_id_of user (c ∷ cs)) m i
  step-Within t w limits m (kills_id id) l i = erase-Within t w id m i
  step-Within t w limits m (detects alive seen) l i =
      mark_all_dead-Within t w (keys_where (is_lost alive) seen) m i
  step-Within t w limits m (evicts now) l i =
      extract_all-Within t w (keys_where (is_evictable now limits.idle_timeout_ms) m) m i

  pub run-Within :
      (t w : ℕ) (limits : Limits) (m : Sessions D C) (es : List (Event D C))
      → Sized t w limits
      → Within t w m
      → Within t w (run limits m es).sessions
  unfolding run
  run-Within t w limits m [] l i = i
  run-Within t w limits m (e ∷ es) l i =
      run-Within t w limits (step limits m e).sessions es l (step-Within t w limits m e l i)

  pub init-Within : (t w : ℕ) → Within {D = D} {C = C} t w []
  unfolding find count_active
  init-Within t w = record {
    unique = tt;
    keyed = λ k s e. ground arith;
    total = omega arith;
    per_user = λ u. omega arith;
  }

  -- For limits t and w that are not negative, t an int: whatever calls run on an empty registry, in
  -- whatever interleaving, at most t sessions are on record, at most w active ones of each user, and
  -- each stands once, under the key of its user and its name.
  pub run_bounded :
      (t w : ℕ) (limits : Limits) (es : List (Event D C))
      → Sized t w limits
      → Within t w (run limits [] es).sessions
  run_bounded t w limits es l = run-Within t w limits [] es l (init-Within t w)
