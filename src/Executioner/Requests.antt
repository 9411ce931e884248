-- ===== src/Executioner/Requests.antt =====
-- execution/executioner.cpp: handle_exec_request up to the launch, and run_launcher.cpp. A request is
-- the values that are read from it, and the trace id, which every reply carries, is left out of them.
pub mod Intents
pub mod Plans
use velix.Prelude.{
  ℕ, zero, suc, ◌+◌, ℤ, pos, negsuc, is_pos, Str, Option, none, some, Bool, true, false, not, ◌&&◌,
  ◌||◌, ◌==◌, str_eq, if◌then◌else◌, codes, List, [], ◌∷◌, ◌++◌, is_empty, map_option,
}
use velix.Executioner.Json.{Json, object, no_members, value, value_text, Read}
use velix.Executioner.Params.{ParamError, missing_required, type_mismatch, validate_params}
use velix.Executioner.Adapters.{Machine, PrepareStep, Resolution, Outcome, done, refused, thrown}
use velix.Executioner.Adapters.Others.{select_runtime_adapter}
use velix.Executioner.PrepareRunner.{parse_prepare_steps}
use velix.Executioner.Packages.{
  Disk, CachedPackage, PackageCache, Resolved, found, not_found, resolve_throws, resolve_package,
}
use velix.Executioner.Environment.{Env}

pub record Request : Type 0 where
  pub intent : Str
  pub is_handler : Bool
  pub force_refresh : Bool
  pub source_pid : ℤ
  pub name : Str
  pub params : Json

pub data Phase : Type 0 where
  no_phase prepare_phase adapter_phase run_phase : Phase

-- A step that goes on with a value, or that ends the request with an error; or an exception that
-- handle_client turns into a reply.
pub data Checked (A : Type 0) : Type 0 where
  passes : A → Checked A
  replies : Phase → Str → Checked A
  raises : Checked A

unfoldable pub and_pass : {A B : Type 0} → Checked A → (A → Checked B) → Checked B
and_pass (passes a) f = f a
and_pass (replies phase e) f = replies phase e
and_pass raises f = raises

unfoldable pub check : {A : Type 0} → Bool → Phase → Str → Checked A → Checked A
check true phase e next = next
check false phase e next = replies phase e

-- The checks of the intent, in their order.
unfoldable pub intent_error : Request → Option Str
intent_error req =
    if not (req.intent == codes "JOIN_PARENT_TREE") && not (req.intent == codes "NEW_TREE")
    then some (codes "invalid_intent")
    else if (req.intent == codes "JOIN_PARENT_TREE") && not (is_pos req.source_pid)
    then some (codes "invalid_source_pid_for_join_parent_tree")
    else if (req.intent == codes "NEW_TREE") && not req.is_handler
    then some (codes "intent_override_new_tree_allowed_only_for_handler")
    else if not (is_pos req.source_pid)
    then some (codes "invalid_source_pid")
    else none

abbrev pub of_resolved : Str → Resolved → Checked CachedPackage
of_resolved name (found pkg) = passes pkg
of_resolved name not_found = replies no_phase (codes "package_not_found_or_invalid: " ++ name)
of_resolved name resolve_throws = raises

abbrev pub error_text : ParamError → Str
error_text (missing_required k) = codes "missing_required_param: " ++ k
error_text (type_mismatch k t) = codes "param_type_mismatch: " ++ (k ++ (codes " expected " ++ t))

abbrev pub of_verdict : Read (Option ParamError) → Checked Bool
of_verdict none = raises
of_verdict (some none) = passes true
of_verdict (some (some e)) = replies no_phase (codes "params_validation_failed: " ++ error_text e)

abbrev pub of_outcome : {A : Type 0} → Phase → Outcome A → Checked A
of_outcome phase (done a) = passes a
of_outcome phase (refused e) = replies phase e
of_outcome phase thrown = raises

abbrev pub of_value : {A : Type 0} → Read A → Checked A
of_value none = raises
of_value (some a) = passes a

-- What is to be prepared and launched.
pub record Plan : Type 0 where
  pub package_found : CachedPackage
  pub workdir : Str
  pub runtime : Resolution
  pub steps : List PrepareStep

-- The adapter's steps come first.
abbrev pub merged : Resolution → List PrepareStep → List PrepareStep
merged runtime steps = runtime.injected_prepare_steps ++ steps

-- The normal form of a directory below a package, and whether there is such a directory.
pub record Directories : Type 0 where
  pub normal : Str → Str → Str
  pub is_directory : Str → Bool

-- From a package to a plan.
unfoldable pub plan_package : Machine → Directories → ℤ → Request → CachedPackage → Checked Plan
unfolding and_pass check value value_text validate_params select_runtime_adapter parse_prepare_steps
plan_package machine dirs prepare_timeout_ms req pkg =
    and_pass (of_value (value (codes "parameters") pkg.manifest (object no_members)))
      (λ (schema : Json).
        and_pass (of_verdict (validate_params req.params schema)) (λ (valid : Bool).
          and_pass (of_value (value_text (codes "workdir") pkg.manifest (codes ".")))
            (λ (relative : Str).
              check (dirs.is_directory (dirs.normal pkg.path relative)) prepare_phase
                (codes "workdir_not_found: " ++ dirs.normal pkg.path relative)
                (and_pass
                  (of_outcome adapter_phase
                    (select_runtime_adapter machine pkg.manifest (dirs.normal pkg.path relative)))
                  (λ (runtime : Resolution).
                    and_pass
                      (of_outcome prepare_phase
                        (parse_prepare_steps pkg.manifest prepare_timeout_ms))
                      (λ (steps : List PrepareStep). passes record {
                        package_found = pkg;
                        workdir = dirs.normal pkg.path relative;
                        runtime = runtime;
                        steps = merged runtime steps;
                      }))))))

-- The message types, in their order.
pub data Route : Type 0 where
  cache_clean cache_prune exec_process unsupported : Route

unfoldable pub route : Str → Route
route msg_type =
    if msg_type == codes "EXEC_CACHE_CLEAN"
    then cache_clean
    else if msg_type == codes "EXEC_CACHE_PRUNE"
    then cache_prune
    else if msg_type == codes "EXEC_VELIX_PROCESS"
    then exec_process
    else unsupported

-- handle_exec_request for EXEC_VELIX_PROCESS, as far as the environment, with the cache of packages.
unfoldable pub plan_request :
    Machine → Disk → Directories → ℤ → PackageCache → Request → Checked Plan × PackageCache
unfolding intent_error and_pass check resolve_package plan_package
plan_request machine disk dirs prepare_timeout_ms cache req = elim (intent_error req) [
  | some e ↦ (replies no_phase e, cache)
  | none ↦
      if is_empty req.name
      then (replies no_phase (codes "empty_package_name"), cache)
      else let resolved : Resolved × PackageCache =
          resolve_package machine disk req.name req.force_refresh cache in
        (
          and_pass (of_resolved req.name resolved.0)
              (plan_package machine dirs prepare_timeout_ms req),
          resolved.1,
        )
]

-- run_launcher::launch: the spawner's exception, or a process id and an error text.
pub data Spawned : Type 0 where
  spawn_throws : Str → Spawned
  spawned : ℤ → Str → Spawned

unfoldable pub launch : Spawned → Checked ℤ
launch (spawn_throws e) = replies run_phase (codes "spawn_exception: " ++ e)
launch (spawned os_pid e) =
    if is_pos os_pid then passes os_pid else replies run_phase (codes "spawn_failure: " ++ e)
