-- ===== src/Registry/Trees.antt =====
-- core/process_registry.cpp: the operations on trees. `now` is the clock's value at the call.
use velix.Prelude.{
  str_eq, ◌≡◌, arith, find-insert, find-modify, ==_iff, int_eq, ℕ, ℤ, negsuc, pos, Str, Map, Option,
  none, some, Bool, true, false, not, ◌&&◌, ◌||◌, [], ◌∷◌, ◌++◌, find, insert, modify, members,
  is_empty, ◌==◌, codes, to_string, if◌then◌else◌,
}
use velix.Prelude.Int.{incr_int}
use velix.Prelude.Words.{add64}
use velix.Registry.State.{
  ProcessInfo, TreeInfo, TreeStatus, Registry, tree_handler, is_active, is_terminal,
}

-- "TREE_" << counter
unfoldable pub auto_id : ℕ → Str
unfolding to_string
auto_id n = codes "TREE_" ++ to_string n

abbrev pub new_tree : Str → ℕ → TreeInfo
new_tree id now = record {
  tree_id = id;
  root_pid = negsuc 0;
  created_at_ms = now;
  status = TreeStatus.active;
  llm_request_count = pos 0;
}

-- A tree that is there already is reset field by field, which writes the value of a new one.
abbrev pub write_tree : Str → ℕ → Option TreeInfo → Map Str TreeInfo → Map Str TreeInfo
write_tree id now none m = insert id (new_tree id now) m
write_tree id now (some t) m = modify id (λ _. new_tree id now) m

-- What mark_tree_failed writes.
abbrev pub fail : TreeInfo → TreeInfo
fail t = if is_active t.status then record t { status = TreeStatus.failed } else t

-- Created or reset, the tree is new at its id, and the others are as they were.
pub find-write_tree :
    (j id : Str) (now : ℕ) (m : Map Str TreeInfo)
    → find id (write_tree j now (find j m) m)
      ≡ (if j == id then some (new_tree j now) else find id m)
find-write_tree j id now m = ground (
  arith,
  find-insert j id (new_tree j now) m,
  find-modify j id (λ _. new_tree j now) m,
  ==_iff j id,
)

abbrev pub set_tree_status : TreeStatus → TreeInfo → TreeInfo
set_tree_status s t = record t { status = s }

module _ {D : Type 0} where
  unfoldable pub create_tree_locked : ℕ → Str → Registry D → Registry D × Str
  create_tree_locked now explicit_id r =
      let auto = is_empty explicit_id in
      let id = if auto then auto_id r.tree_counter else explicit_id in
      (
        record r {
          tree_table = write_tree id now (find id r.tree_table) r.tree_table;
          tree_counter = if auto then add64 r.tree_counter 1 else r.tree_counter;
        },
        id,
      )

  unfoldable pub create_tree : ℕ → Str → Registry D → Registry D × Str
  unfolding create_tree_locked
  create_tree now explicit_id r = create_tree_locked now explicit_id r

  unfoldable pub increment_llm_request : Str → Registry D → Registry D
  increment_llm_request id r = record r {
    tree_table =
        modify id (λ t. record t { llm_request_count = incr_int t.llm_request_count }) r.tree_table;
  }

  -- The loop over the process table: no process of the tree is in a status that is not terminal.
  unfoldable pub all_terminal : Str → Map ℤ (ProcessInfo D) → Bool
  all_terminal id [] = true
  all_terminal id ((k, p) ∷ m) =
      (not (p.tree_id == id) || is_terminal p.status) && all_terminal id m

  -- The guards of mark_tree_completed_if_done, in their order.
  unfoldable pub is_done : Str → Registry D → Bool
  unfolding all_terminal
  is_done id r = elim (find id r.tree_table) [
    | none ↦ false
    | some t ↦
        not (id == tree_handler)
        && is_active t.status
        && is_empty (members id r.tree_process_index)
        && all_terminal id r.process_table
  ]

  unfoldable pub mark_tree_completed_if_done : Str → Registry D → Registry D × Bool
  unfolding is_done
  mark_tree_completed_if_done id r =
      if is_done id r
      then (
        record r { tree_table = modify id (set_tree_status TreeStatus.completed) r.tree_table },
        true,
      )
      else (r, false)

  unfoldable pub mark_tree_failed : Str → Registry D → Registry D
  mark_tree_failed id r = record r { tree_table = modify id fail r.tree_table }
