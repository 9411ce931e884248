-- ===== src/Supervisor/Sessions.antt =====
-- Messages to the supervisor and the registry's invariant.
use velix.Prelude.{
  str_eq, ℕ, ◌+◌, ◌<◌, ℤ, Str, Option, none, some, not, is_pos, ◌&&◌, List, [], ◌≡◌, codes, arith,
  ◌==◌, if◌then◌else◌, if_cases, inl, inr, is_empty, Option-cases,
}
use velix.Prelude.Words.{u64_mod}
use velix.Double.{Double}
use velix.Registry.State.{ProcessInfo, Registry, is_terminal}
use velix.Registry.Trees.{increment_llm_request}
use velix.Registry.Processes.{RegisterResult, register_process, update_heartbeat}
use velix.Registry.Queries.{get_process}
use velix.Registry.Invariant.{IsValid}
use velix.Registry.Invariant.Modify.{modify-Agree}
use velix.Registry.Steps.Registering.{register_process-IsValid}
use velix.Registry.Steps.Validity.{beat-Keeps, terminate_process-IsValid}
use velix.Termination.{Effect}
use velix.Supervisor.State.{SupervisorConfig, Supervisor, minus_one}
use velix.Supervisor.Status.{is_valid_process_status_text}
use velix.Supervisor.Messages.{Message, Response, value, failed}
use velix.Supervisor.Validation.{validate_message_shape, validate_auth}
use velix.Supervisor.Registering.{
  Admission, Choice, refuse, admit, finish, enter, choose, check_register, registration,
  handle_register_pid,
}
use velix.Supervisor.Handlers.{
  new_status, beat_process, handle_heartbeat, mode_error, count_request, handle_llm_request,
  named_tree, handle_tree_kill, dispatch, handle_message,
}
use velix.Supervisor.Upkeep.{reap-IsValid}

module _ {D : Type 0} where
  record ValidPair (x : Registry D × Response D) : Type 0 where
    valid : IsValid x.0

  record ValidOut (x : Supervisor D × List Effect × Response D) : Type 0 where
    valid : IsValid x.0.registry

  beat_process-IsValid :
      (d : Double D) (now later : ℕ) (pid : ℤ) (m : Message D) (r : Registry D)
      (o : Option (ProcessInfo D))
      → IsValid r
      → ValidPair (beat_process d now later pid m r o)
  unfolding beat_process update_heartbeat
  beat_process-IsValid d now later pid m r none v = record { valid = v }
  beat_process-IsValid d now later pid m r (some p) v =
      let text = value m.payload.status [] in
      let r1 =
        update_heartbeat pid (new_status text p) (value m.payload.memory_mb d.minus_one) now r in
      let v1 : IsValid r1 =
        modify-Agree pid _
          (beat-Keeps (new_status text p) (value m.payload.memory_mb d.minus_one) now) _ _ _ _ v in
      if_cases ValidPair (not (is_empty text) && not (is_valid_process_status_text text)) _ _
        (record { valid = v })
        (record {
          valid =
              if_cases IsValid (not (is_terminal p.status) && is_terminal (new_status text p)) _ _
                (terminate_process-IsValid later pid r1 v1) v1;
        })

  handle_heartbeat-IsValid :
      (d : Double D) (now later : ℕ) (m : Message D) (r : Registry D)
      → IsValid r
      → ValidPair (handle_heartbeat d now later m r)
  unfolding handle_heartbeat
  handle_heartbeat-IsValid d now later m r v =
      if_cases ValidPair (not (is_pos (value m.pid minus_one))) _ _ (record { valid = v })
        (beat_process-IsValid d now later (value m.pid minus_one) m r
          (get_process (value m.pid minus_one) r) v)

  count_request-IsValid :
      (m : Message D) (r : Registry D) (o : Option (ProcessInfo D))
      → IsValid r
      → ValidPair (count_request m r o)
  unfolding count_request increment_llm_request
  count_request-IsValid m r none v = record { valid = v }
  count_request-IsValid m r (some p) v = elim (Option-cases (mode_error m p)) [
    | inl e ↦ rw (e, count_request) (record { valid = v })
    | inr (x, e) ↦ rw (e, count_request) (record { valid = v })
  ]

  handle_llm_request-IsValid :
      (cfg : SupervisorConfig D) (m : Message D) (r : Registry D)
      → IsValid r
      → ValidPair (handle_llm_request cfg m r)
  unfolding handle_llm_request
  handle_llm_request-IsValid cfg m r v =
      let mode = value m.mode [] in
      let source_pid = value m.source_pid minus_one in
      let counted = count_request m r (get_process source_pid r) in
      let checked : Registry D × Response D =
        if not (is_pos source_pid)
        then (r, failed (codes "LLM_REQUEST requires valid source_pid"))
        else counted in
      let enabled : Registry D × Response D =
        if not cfg.conversation_enabled && not (mode == codes "simple")
        then (r, failed (codes "conversation mode is disabled"))
        else checked in
      if_cases ValidPair
        (not (mode == codes "simple")
          && not (mode == codes "conversation")
          && not (mode == codes "user_conversation"))
        (r, failed (codes "unsupported LLM mode")) enabled (record { valid = v })
        (if_cases ValidPair (not cfg.conversation_enabled && not (mode == codes "simple"))
          (r, failed (codes "conversation mode is disabled")) checked (record { valid = v })
          (if_cases ValidPair (not (is_pos source_pid))
            (r, failed (codes "LLM_REQUEST requires valid source_pid")) counted
            (record { valid = v }) (count_request-IsValid m r (get_process source_pid r) v)))

  handle_tree_kill-IsValid :
      (cfg : SupervisorConfig D) (clock : ℕ → ℕ) (m : Message D) (r : Registry D)
      → IsValid r
      → IsValid (handle_tree_kill cfg clock m r).0
  unfolding handle_tree_kill
  handle_tree_kill-IsValid cfg clock m r v =
      if_cases (λ (x : Registry D × List Effect × Response D). IsValid x.0)
        (is_empty (named_tree m)) _ _ v
        (reap-IsValid clock cfg.terminate_grace_ms (codes "tree_kill") (named_tree m) r v)

  finish-registry :
      (m : Message D) (a : Admission) (s : Supervisor D) (r : Registry D) (res : RegisterResult D)
      (o : Option (ProcessInfo D))
      → (finish m a s r res o).0.registry ≡ r
  unfolding finish
  finish-registry m a s r res none = ground arith
  finish-registry m a s r res (some p) = ground arith

  enter-IsValid :
      (d : Double D) (now : ℕ) (m : Message D) (s : Supervisor D) (c : Choice D)
      → s.registry.process_counter + 1 < u64_mod
      → IsValid s.registry
      → IsValid (enter d now m s c).0.registry
  unfolding enter
  enter-IsValid d now m s (refuse e) h v = v
  enter-IsValid d now m s (admit a) h v =
      let out = register_process now (registration d m a) s.registry in
      rw (finish-registry m a s out.0 out.1 out.1.process)
        (register_process-IsValid now (registration d m a) s.registry h v)

  handle_register_pid-IsValid :
      (d : Double D) (now : ℕ) (m : Message D) (s : Supervisor D)
      → s.registry.process_counter + 1 < u64_mod
      → IsValid s.registry
      → IsValid (handle_register_pid d now m s).0.registry
  unfolding handle_register_pid
  handle_register_pid-IsValid d now m s h v = elim (Option-cases (check_register m)) [
    | inl e ↦
        rw (e, handle_register_pid)
          (enter-IsValid d now m s (choose m (value m.payload.os_pid minus_one) s) h v)
    | inr (x, e) ↦ rw (e, handle_register_pid) v
  ]

  dispatch-IsValid :
      (cfg : SupervisorConfig D) (d : Double D) (clock : ℕ → ℕ) (m : Message D) (s : Supervisor D)
      (type : Str)
      → s.registry.process_counter + 1 < u64_mod
      → IsValid s.registry
      → ValidOut (dispatch cfg d clock m s type)
  unfolding dispatch
  dispatch-IsValid cfg d clock m s type h v =
      if_cases ValidOut _ _ _ (record { valid = handle_register_pid-IsValid d (clock 0) m s h v })
        (if_cases ValidOut _ _ _
          (record { valid = (handle_heartbeat-IsValid d (clock 0) (clock 1) m s.registry v).valid })
          (if_cases ValidOut _ _ _
            (record { valid = (handle_llm_request-IsValid cfg m s.registry v).valid })
            (if_cases ValidOut _ _ _ (record { valid = v })
              (if_cases ValidOut _ _ _
                (record { valid = handle_tree_kill-IsValid cfg clock m s.registry v })
                (record { valid = v })))))

  -- Every message, well formed or not, leaves a valid registry valid, if the 64-bit pid counter does not wrap at it.
  pub handle_message-IsValid :
      (cfg : SupervisorConfig D) (d : Double D) (clock : ℕ → ℕ) (m : Message D) (s : Supervisor D)
      → s.registry.process_counter + 1 < u64_mod
      → IsValid s.registry
      → IsValid (handle_message cfg d clock m s).0.registry
  unfolding handle_message
  handle_message-IsValid cfg d clock m s h v = elim (Option-cases (validate_message_shape m)) [
    | inl e ↦
        rw (e, handle_message)
          (if_cases (λ (x : Supervisor D × List Effect × Response D). IsValid x.0.registry)
            (not (validate_auth cfg m)) (s, [], failed (codes "auth failed"))
            (dispatch cfg d clock m s (value m.message_type [])) v
            (dispatch-IsValid cfg d clock m s (value m.message_type []) h v).valid)
    | inr (x, e) ↦ rw (e, handle_message) v
  ]
