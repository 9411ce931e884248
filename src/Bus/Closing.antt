-- ===== src/Bus/Closing.antt =====
-- What becomes of the tables when sessions close.
use velix.Prelude.{
  ℕ, ℤ, is_pos, Str, none, some, true, false, ◌≡◌, ◌≢◌, refl, arith, find, insert, map_option,
  find-insert, find-erase, find-modify, ==_iff, ==_refl, int_eq, nat_eq, str_eq, sym, is_empty,
}
use velix.Bus.{
  Message, registered, Session, Bus, update, posting, enqueue_json, register_session,
  unregister_session, closing, close_on_strand,
}

unregister-other :
    (k o : ℕ) (r : ℤ) (tree : Str) (b : Bus)
    → find r b.pid_sessions ≡ some o
    → o ≢ k
    → is_pos r ≡ true
    → is_empty tree ≡ false
    → find tree b.tree_root_pid_map ≡ some r
    → (find r (unregister_session k r tree b).pid_sessions ≡ some o)
      × (find tree (unregister_session k r tree b).tree_root_pid_map ≡ none)
unfolding unregister_session
unregister-other k o r tree b n apart y e root = (
  ground (arith, n, apart, y, ==_iff o k),
  ground (arith, y, e, root, ==_refl r, find-erase tree tree b.tree_root_pid_map, ==_refl tree),
)

pub close-open :
    (k : ℕ) (b : Bus) (s : Session)
    → find k b.sessions ≡ some s
    → s.closed ≡ false
    → close_on_strand k b
      ≡ unregister_session k s.registered_pid s.registered_tree_id (update k closing b)
unfolding close_on_strand
close-open k b s n c = rw (n, c, close_on_strand) refl

-- The bus after a registration in the source's order: the tables, then the answer.
abbrev entered : ℕ → Message → Bus → Bus
entered k msg b = update k (posting registered) (record b {
  pid_sessions = insert msg.pid k b.pid_sessions;
  tree_root_pid_map = insert msg.tree_id msg.pid b.tree_root_pid_map;
})

register-root :
    (k : ℕ) (msg : Message) (b : Bus)
    → is_pos msg.pid ≡ true
    → msg.is_root ≡ true
    → is_empty msg.tree_id ≡ false
    → register_session k msg b ≡ entered k msg b
unfolding register_session enqueue_json
register-root k msg b y r e = rw (y, r, e) refl

-- Session `old` has a pid at the root of a tree and is open when session `new` registers the same
-- pid as the root of the same tree, as a process does that connects again. When the old session
-- closes after that, the new one stays on record for the pid, but the tree has no root any more.
pub reconnect_loses_root :
    (b : Bus) (old new : ℕ) (msg : Message) (s : Session)
    → find old b.sessions ≡ some s
    → s.closed ≡ false
    → s.registered_pid ≡ msg.pid
    → s.registered_tree_id ≡ msg.tree_id
    → old ≢ new
    → is_pos msg.pid ≡ true
    → msg.is_root ≡ true
    → is_empty msg.tree_id ≡ false
    → (find msg.pid (close_on_strand old (register_session new msg b)).pid_sessions ≡ some new)
      × (find msg.tree_id (close_on_strand old (register_session new msg b)).tree_root_pid_map
          ≡ none)
reconnect_loses_root b old new msg s n c p t apart y r e =
    let after = entered new msg b in
    let there : find old after.sessions ≡ some s =
      ground
        (arith, find-modify new old (posting registered) b.sessions, ==_iff new old, apart, n) in
    rw (register-root new msg b y r e, close-open old after s there c, p, t)
      (unregister-other old new msg.pid msg.tree_id (update old closing after)
        (ground (arith, find-insert msg.pid msg.pid new b.pid_sessions, ==_refl msg.pid))
        (λ q. apart (sym q)) y e
        (ground (
          arith,
          find-insert msg.tree_id msg.tree_id msg.pid b.tree_root_pid_map,
          ==_refl msg.tree_id,
        )))

-- A session that has registered pid p and then registers another pid, and closes: it is closed and
-- stays on record for p, where relays to p go on finding it.
second_pid_leaves_first :
    (b : Bus) (k : ℕ) (p : ℤ) (s : Session)
    → find k b.sessions ≡ some s
    → s.closed ≡ false
    → find p b.pid_sessions ≡ some k
    → s.registered_pid ≢ p
    → (find p (close_on_strand k b).pid_sessions ≡ some k)
      × (map_option (λ s. s.closed) (find k (close_on_strand k b).sessions) ≡ some true)
unfolding unregister_session
second_pid_leaves_first b k p s n c owned apart = rw (close-open k b s n c) (
  ground (
    arith,
    find-erase s.registered_pid p b.pid_sessions,
    ==_iff s.registered_pid p,
    apart,
    owned,
  ),
  ground (arith, find-modify k k closing b.sessions, ==_refl k, n),
)
