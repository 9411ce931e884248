-- ===== src/Tests/RegistryTests.antt =====
-- The registry's theorems at the sample registry.
use velix.Prelude.{
  ◌+◌, ◌<◌, ℕ, ◌↔◌, ◌<◌, ◌⊎◌, map_option, [], true, false, ◌≢◌, codes, int_eq, str_eq, pos, some,
  ◌≡◌, refl, find, add_member, insert, set_insert, contains, modify, erase, set_erase,
  remove_member, to_string, str_beq, int_beq, arith, ◌∷◌,
}
use velix.Prelude.Words.{add64, u64_mod}
use velix.Registry.State.{init, tree_handler, TreeStatus, is_active}
use velix.Registry.Trees.{
  create_tree, create_tree_locked, auto_id, new_tree, mark_tree_completed_if_done,
}
use velix.Registry.Processes.{
  register_process, place, found_tree, join_tree, admit, on_process_registered_unlocked, int_max,
}
use velix.Registry.Ending.{terminate_process, retire, unlink, on_process_terminal_unlocked}
use velix.Registry.Invariant.{IsValid}
use velix.Registry.Registration.{register_process-refuses}
use velix.Registry.Retirement.{Retired, terminate_process-Retired}
use velix.Registry.Completion.{IsOver, mark_tree_completed_exact}
use velix.Registry.TreeLife.{status_of, created}
use velix.Registry.TreeLife.Created.{Lives, step-Lives}
use velix.Registry.Steps.{run, step, creates}
use velix.Registry.Steps.Validity.{run-IsValid, init-IsValid}
use velix.Tests.Samples.{
  handler, calls, sample, ended, ended_calls, tool, agent_ended, stray_registration,
}

pub sample-IsValid : IsValid sample
sample-IsValid = run-IsValid init calls init-IsValid (omega arith)

ended-IsValid : IsValid ended
ended-IsValid = run-IsValid init ended_calls init-IsValid (omega arith)

pub tool_there : find (pos 1002) sample.process_table ≡ some tool
unfolding run step create_tree create_tree_locked register_process place found_tree join_tree admit
    on_process_registered_unlocked find insert modify add_member set_insert contains auto_id
    to_string str_beq int_beq tree_handler add64
tool_there = refl

pub handler_there : find (pos 1000) sample.process_table ≡ some handler
unfolding run step create_tree create_tree_locked register_process place found_tree join_tree admit
    on_process_registered_unlocked find insert modify add_member set_insert contains auto_id
    to_string str_beq int_beq tree_handler add64
handler_there = refl

counter : sample.process_counter ≡ 1003
unfolding run step create_tree create_tree_locked register_process place found_tree join_tree admit
    on_process_registered_unlocked find insert modify add_member set_insert contains auto_id
    to_string str_beq int_beq tree_handler add64
counter = refl

pub sample_room : sample.process_counter + 1 < u64_mod
sample_room = omega (arith, counter)

agent_gone : find (pos 1000) ended.process_table ≡ some agent_ended
unfolding run step create_tree create_tree_locked register_process place found_tree join_tree admit
    on_process_registered_unlocked find insert modify add_member set_insert contains auto_id
    to_string str_beq int_beq tree_handler add64 terminate_process retire
    on_process_terminal_unlocked unlink remove_member erase set_erase
agent_gone = refl

register_process-refuses_example :
    let out = register_process 500 stray_registration sample in
    ((out.1.success ≡ false) ↔ (
      (int_max < sample.process_counter)
      ⊎ ((stray_registration.is_system_handler ≡ false)
          × (stray_registration.tree_id ≢ [])
          × (map_option
                (λ t. is_active t.status)
                (find stray_registration.tree_id sample.tree_table)
              ≢ some true))))
    × (out.1.success ≡ false
        → (out.0.process_table ≡ sample.process_table)
          × (out.0.tree_table ≡ sample.tree_table)
          × (out.0.tree_process_index ≡ sample.tree_process_index)
          × (out.0.process_children ≡ sample.process_children))
register_process-refuses_example = register_process-refuses 500 stray_registration sample

terminate_process-Retired_example :
    Retired 500 (pos 1002) tool sample (terminate_process 500 (pos 1002) sample)
terminate_process-Retired_example =
    terminate_process-Retired 500 (pos 1002) tool sample sample-IsValid tool_there refl

mark_tree_completed_exact_example :
    let out = mark_tree_completed_if_done (codes "TREE_1") ended in
    ((out.1 ≡ true) ↔ IsOver (codes "TREE_1") ended)
    × (out.1 ≡ true → status_of (codes "TREE_1") out.0 ≡ some TreeStatus.completed)
    × (out.1 ≡ false → out.0 ≡ ended)
mark_tree_completed_exact_example = mark_tree_completed_exact (codes "TREE_1") ended ended-IsValid

handler_tree :
    find tree_handler (run {D = ℕ} init (creates 50 tree_handler ∷ [])).tree_table
    ≡ some (new_tree tree_handler 50)
unfolding run step create_tree create_tree_locked find insert str_beq tree_handler
handler_tree = refl

step-Lives_example :
    let before = run {D = ℕ} init (creates 50 tree_handler ∷ []) in
    Lives
      (created before (creates 90 tree_handler))
      tree_handler
      (new_tree tree_handler 50)
      (step before (creates 90 tree_handler)).tree_table
step-Lives_example =
    step-Lives (run {D = ℕ} init (creates 50 tree_handler ∷ [])) (creates 90 tree_handler)
      tree_handler (new_tree tree_handler 50) handler_tree
