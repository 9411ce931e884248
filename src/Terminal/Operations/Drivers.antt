-- ===== src/Terminal/Operations/Drivers.antt =====
-- Where the drivers go: a driver is in the table, or it was closed. Drivers are counted by an
-- arbitrary test on them, so that a count compares collections whatever their order.
use velix.Prelude.{
  ℕ, ◌+◌, Str, none, Bool, List, [], ◌∷◌, ◌++◌, ◌≡◌, refl, arith, find, insert, erase, modify,
  Unique, str_eq, if◌then◌else◌, keys_where, ==_iff, ==_refl, find-erase, erase-Unique,
}
use velix.Terminal.Sessions.{
  Session, Sessions, Limits, Outcome, Created, session_id_of, normalize_session_name, admit_session,
  extract_all, extract_locked, driver_list, new_session, get_or_create, of_user,
}
use velix.Terminal.Sessions.Invariant.{Within}
use velix.Terminal.Sessions.Cases.{admit_session-cases, get_or_create-cases}
use velix.Terminal.Operations.{
  Event, opens, uses, kills, kills_id, detects, evicts, step, run, kill_session, kill_session_by_id,
  detect_dead_sessions, evict_dead_and_idle, mark_all_dead, mark_dead, used_at, is_lost,
  is_evictable,
}
use velix.Terminal.Operations.Bounds.{Sized, step-Within, init-Within}

module _ {D : Type 0} where
  -- How many drivers of a list pass the test.
  unfoldable pub tally : (D → Bool) → List D → ℕ
  tally p [] = 0
  tally p (d ∷ ds) = (if p d then 1 else 0) + tally p ds

  tally-append : (p : D → Bool) (xs ys : List D) → tally p (xs ++ ys) ≡ tally p xs + tally p ys
  unfolding tally
  tally-append p [] ys = ground arith
  tally-append p (x ∷ xs) ys = ground (arith, tally-append p xs ys)

module _ {D C : Type 0} where
  -- How many sessions have a driver that passes the test.
  unfoldable pub in_table : (D → Bool) → Sessions D C → ℕ
  in_table p [] = 0
  in_table p ((id, s) ∷ m) = (if p s.driver then 1 else 0) + in_table p m

  erase_absent :
      (p : D → Bool) (k : Str) (m : Sessions D C)
      → find k m ≡ none
      → in_table p (erase k m) ≡ in_table p m
  unfolding find erase in_table
  erase_absent p k [] n = refl
  erase_absent p k ((j, s) ∷ m) n = ground (arith, erase_absent p k m, ==_iff j k)

  extract-tally :
      (p : D → Bool) (k : Str) (m : Sessions D C)
      → Unique m
      → in_table p (erase k m) + tally p (driver_list (find k m)) ≡ in_table p m
  unfolding find erase in_table tally
  extract-tally p k [] u = refl
  extract-tally p k ((j, s) ∷ m) u =
      ground (arith, extract-tally p k m u.1, ==_iff j k, erase_absent p j m u.0)

  extract_all-tally :
      (p : D → Bool) (ids : List Str) (m : Sessions D C)
      → Unique m
      → in_table p (extract_all ids m).1 + tally p (extract_all ids m).0 ≡ in_table p m
  unfolding extract_all extract_locked tally
  extract_all-tally p [] m u = ground arith
  extract_all-tally p (k ∷ ids) m u =
      let first = driver_list (find k m) in
      let rest = extract_all ids (erase k m) in
      ground (
        arith,
        extract_all-tally p ids (erase k m) (erase-Unique k m u),
        extract-tally p k m u,
        tally-append p first rest.0,
      )

  modify-in_table :
      (p : D → Bool) (k : Str) (f : Session D C → Session D C) (m : Sessions D C)
      → ((s : Session D C) → (f s).driver ≡ s.driver)
      → in_table p (modify k f m) ≡ in_table p m
  unfolding modify in_table
  modify-in_table p k f [] h = refl
  modify-in_table p k f ((j, s) ∷ m) h = ground (arith, modify-in_table p k f m h, h s)

  mark_all_dead-in_table :
      (p : D → Bool) (ids : List Str) (m : Sessions D C)
      → in_table p (mark_all_dead ids m) ≡ in_table p m
  unfolding mark_all_dead
  mark_all_dead-in_table p [] m = refl
  mark_all_dead-in_table p (k ∷ ids) m = ground (
    arith,
    mark_all_dead-in_table p ids (modify k mark_dead m),
    modify-in_table p k mark_dead m (λ s. refl),
  )

  insert-in_table :
      (p : D → Bool) (k : Str) (s : Session D C) (m : Sessions D C)
      → find k m ≡ none
      → in_table p (insert k s m) ≡ (if p s.driver then 1 else 0) + in_table p m
  unfolding insert in_table
  insert-in_table p k s m n = ground (arith, erase_absent p k m n)

  -- Before the call: in the table; after it: in the table, or closed, less what was spawned.
  abbrev pub Conserved : (D → Bool) → Sessions D C → Created D C → Type 0
  Conserved p m c = in_table p c.sessions + tally p c.closed ≡ in_table p m + tally p c.spawned

  admit_session-Conserved :
      (p : D → Bool) (limits : Limits) (made : Outcome (D × Str)) (cfg : C) (now : ℕ)
      (id user_id name : Str) (old : List D) (n m : Sessions D C)
      → find id m ≡ none
      → in_table p m + tally p old ≡ in_table p n
      → Conserved p n (admit_session limits made cfg now id user_id name old m)
  unfolding tally
  admit_session-Conserved p limits made cfg now id user_id name old n m absent h =
      admit_session-cases (Conserved p n) limits made cfg now id user_id name old m
        (λ r. ground (arith, h))
        (λ d e free.
          ground
            (arith, h, insert-in_table p id (new_session id user_id name d.0 cfg d.1 now) m absent))

  get_or_create-Conserved :
      (p : D → Bool) (limits : Limits) (made : Outcome (D × Str)) (cfg : C) (now : ℕ)
      (user_id name : Str) (alive_then : D → Bool) (seen : Sessions D C) (alive : D → Bool)
      (m : Sessions D C)
      → Unique m
      → Conserved p m (get_or_create limits made cfg now user_id name alive_then seen alive m)
  unfolding tally
  get_or_create-Conserved p limits made cfg now user_id name alive_then seen alive m u =
      let id = session_id_of user_id name in
      let admitted =
        admit_session-Conserved p limits made cfg now id user_id (normalize_session_name name) in
      get_or_create-cases (Conserved p m) limits made cfg now user_id name alive_then seen alive m
        (λ e. refl) (λ f. refl) (λ s n h. refl) (λ n e. admitted [] m m n (omega arith))
        (λ s n h e.
          admitted (s.driver ∷ []) m (erase id m) (ground (arith, find-erase id id m, ==_refl id))
            (rw n at (extract-tally p id m u)))

  step-tally :
      (p : D → Bool) (limits : Limits) (m : Sessions D C) (e : Event D C)
      → Unique m
      → in_table p (step limits m e).sessions + tally p (step limits m e).closed
        ≡ in_table p m + tally p (step limits m e).spawned
  unfolding step kill_session kill_session_by_id extract_locked evict_dead_and_idle
      detect_dead_sessions tally
  step-tally p limits m (opens made cfg now user name alive_then seen alive) u =
      get_or_create-Conserved p limits made cfg now user name alive_then seen alive m u
  step-tally p limits m (uses id now) u =
      ground (arith, modify-in_table p id (used_at now) m (λ s. refl))
  step-tally p limits m (kills user []) u =
      ground (arith, extract_all-tally p (keys_where (of_user user) m) m u)
  step-tally p limits m (kills user (c ∷ cs)) u =
      ground (arith, extract-tally p (session_id_of user (c ∷ cs)) m u)
  step-tally p limits m (kills_id id) u = ground (arith, extract-tally p id m u)
  step-tally p limits m (detects alive seen) u =
      ground (arith, mark_all_dead-in_table p (keys_where (is_lost alive) seen) m)
  step-tally p limits m (evicts now) u =
      ground
        (arith, extract_all-tally p (keys_where (is_evictable now limits.idle_timeout_ms) m) m u)

  run-tally :
      (p : D → Bool) (t w : ℕ) (limits : Limits) (m : Sessions D C) (es : List (Event D C))
      → Sized t w limits
      → Within t w m
      → in_table p (run limits m es).sessions + tally p (run limits m es).closed
        ≡ in_table p m + tally p (run limits m es).spawned
  unfolding run tally
  run-tally p t w limits m [] l i = refl
  run-tally p t w limits m (e ∷ es) l i =
      let s = step limits m e in
      let r = run limits s.sessions es in
      ground (
        arith,
        step-tally p limits m e i.unique,
        run-tally p t w limits s.sessions es l (step-Within t w limits m e l i),
        tally-append p s.closed r.closed,
        tally-append p s.spawned r.spawned,
      )

  -- For limits t and w that are not negative, t an int: after any sequence of calls on an empty
  -- registry, the drivers in the table together with the drivers closed so far are exactly the
  -- drivers spawned so far, each as often: none is lost, and none is closed twice or while its
  -- session is on record.
  pub drivers_conserved :
      (p : D → Bool) (t w : ℕ) (limits : Limits) (es : List (Event D C))
      → Sized t w limits
      → in_table p (run limits [] es).sessions + tally p (run limits [] es).closed
        ≡ tally p (run limits [] es).spawned
  unfolding in_table
  drivers_conserved p t w limits es l =
      ground (arith, run-tally p t w limits [] es l (init-Within t w))
