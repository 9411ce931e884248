-- ===== src/Terminal/Operations/Eviction.antt =====
-- Which sessions leave the table when sessions are killed or evicted.
use velix.Prelude.{
  ℕ, ◌≤◌, ◌<◌, ◌-◌, ◌+◌, Str, some, none, Bool, false, not, List, [], ◌∷◌, ◌≡◌, refl, arith, find,
  erase, Unique, str_eq, if◌then◌else◌, keys_where, ==_iff, find-erase, contains, ◌&&◌, leb,
  filter_option, is_empty, ◌==◌, Option,
}
use velix.Prelude.Words.{u64_mod, sub64_le, sub64_wraps}
use velix.Terminal.Sessions.{
  Session, Sessions, extract_all, extract_locked, of_user, session_id_of, is_active,
}
use velix.Terminal.Sessions.Invariant.{Within}
use velix.Terminal.Operations.{kill_session, evict_dead_and_idle, is_evictable}

module _ {D C : Type 0} where
  passes : (Session D C → Bool) → Option (Session D C) → Bool
  passes p none = false
  passes p (some s) = p s

  contains-keys_where :
      (p : Session D C → Bool) (k : Str) (m : Sessions D C)
      → Unique m
      → contains k (keys_where p m) ≡ passes p (find k m)
  unfolding contains keys_where find passes
  contains-keys_where p k [] u = refl
  contains-keys_where p k ((j, s) ∷ m) u =
      ground (arith, contains-keys_where p k m u.1, ==_iff j k, u.0)

  find-extract_all :
      (k : Str) (ids : List Str) (m : Sessions D C)
      → find k (extract_all ids m).1 ≡ (if contains k ids then none else find k m)
  unfolding extract_all extract_locked contains
  find-extract_all k [] m = refl
  find-extract_all k (j ∷ ids) m =
      ground (arith, find-extract_all k ids (erase j m), find-erase j k m)

  -- Extracting the keys that a scan of the same table found.
  find-extract_where :
      (p : Session D C → Bool) (k : Str) (m : Sessions D C)
      → Unique m
      → find k (extract_all (keys_where p m) m).1 ≡ filter_option (λ s. not (p s)) (find k m)
  unfolding passes
  find-extract_where p k m u =
      ground (arith, find-extract_all k (keys_where p m) m, contains-keys_where p k m u)

  -- With an empty name, exactly the user's sessions leave the table; with a name, exactly the
  -- session under the key of the user and that name. What stays is unchanged.
  kill_session_exact :
      (t w : ℕ) (user_id name k : Str) (m : Sessions D C)
      → Within t w m
      → find k (kill_session user_id name m).1 ≡ (
          if is_empty name
          then filter_option (λ s. not (s.info.user_id == user_id)) (find k m)
          else if session_id_of user_id name == k
          then none
          else find k m)
  unfolding kill_session extract_locked
  kill_session_exact t w user_id [] k m i = find-extract_where (of_user user_id) k m i.unique
  kill_session_exact t w user_id (c ∷ cs) k m i = find-erase (session_id_of user_id (c ∷ cs)) k m

  evict_where :
      (now idle : ℕ) (k : Str) (s : Session D C) (m : Sessions D C)
      → Unique m
      → find k m ≡ some s
      → find k (evict_dead_and_idle now idle m).1
        ≡ (if is_evictable now idle s then none else some s)
  unfolding evict_dead_and_idle
  evict_where now idle k s m u h =
      ground (arith, find-extract_where (is_evictable now idle) k m u, h)

  -- A session last used not after the clock's value stays, unchanged, exactly when it is active and
  -- was used within the timeout; otherwise it leaves the table.
  evict_exact :
      (t w now idle : ℕ) (k : Str) (s : Session D C) (m : Sessions D C)
      → Within t w m
      → find k m ≡ some s
      → s.info.last_used_ms ≤ now
      → now < u64_mod
      → find k (evict_dead_and_idle now idle m).1
        ≡ (if is_active s.info.status && leb now (s.info.last_used_ms + idle) then some s else none)
  evict_exact t w now idle k s m i h past fits =
      ground
        (arith, evict_where now idle k s m i.unique h, sub64_le now s.info.last_used_ms past fits)

  -- The clock is read before the lock is taken: a session used or created in between, by d > 0
  -- milliseconds after the reading, is evicted, whatever its status, for a timeout and a d that
  -- together stay below 2^64.
  evict_just_used :
      (t w now idle : ℕ) (k : Str) (s : Session D C) (m : Sessions D C)
      → Within t w m
      → find k m ≡ some s
      → now < s.info.last_used_ms
      → s.info.last_used_ms < u64_mod
      → idle + (s.info.last_used_ms - now) < u64_mod
      → find k (evict_dead_and_idle now idle m).1 ≡ none
  evict_just_used t w now idle k s m i h late fits room =
      ground (
        arith,
        evict_where now idle k s m i.unique h,
        sub64_wraps now s.info.last_used_ms late fits,
      )
