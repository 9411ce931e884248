-- ===== src/Executioner/Adapters/Others.antt =====
-- execution/runtime_adapters/runtime_adapters.cpp: the branches of node, rust, go and cpp, and
-- select_runtime_adapter.
use velix.Prelude.{
  pos, Str, Bool, not, ◌&&◌, ◌||◌, ◌==◌, str_eq, if◌then◌else◌, codes, List, [], ◌∷◌, ◌++◌, Map,
  is_empty,
}
use velix.Executioner.Json.{Json, object, no_members, value, value_text}
use velix.Executioner.Adapters.{
  Machine, PrepareStep, Resolution, Outcome, done, refused, and_then, require, of_read,
  binary_exists, detect_runtime_version, has_prepare_command, path_looks_local_binary, lower,
  normalize_local_binary, run_args_of,
}
use velix.Executioner.Adapters.Python.{Launch, entry_or, check_script, check_run, select_python}

-- The command made from the entry where `run` has none.
unfoldable pub launch_or : Machine → Str → Str → Str → List Str → Str → Launch → Outcome Launch
unfolding require
launch_or machine workdir runtime program before inferred (command, args) =
    if is_empty command
    then require (machine.file_exists_in workdir inferred)
        (runtime ++ (codes " entry file not found: " ++ inferred))
        (done (program, before ++ (inferred ∷ [])))
    else done (command, args)

unfoldable pub check_node : Machine → Str → Launch → Outcome Launch
unfolding check_script
check_node machine workdir (command, args) =
    if not (command == codes "node")
    then refused (codes "node runtime requires run.command to be node")
    else check_script machine workdir (codes "node") (command, args)

-- The steps that are added unless the manifest has a step with the command.
unfoldable pub injected : Bool → Json → Str → List PrepareStep → Outcome (List PrepareStep)
unfolding and_then has_prepare_command
injected wanted manifest command steps =
    if wanted
    then and_then (of_read (has_prepare_command manifest command))
        (λ (there : Bool). done (if there then [] else steps))
    else done []

abbrev pub install_step : PrepareStep
install_step = record {
  command = codes "pnpm";
  args = codes "install" ∷ (codes "--frozen-lockfile" ∷ []);
  timeout_ms = pos 0;
}

abbrev pub cmake_steps : List PrepareStep
cmake_steps =
    (record {
      command = codes "cmake";
      args = codes "-S" ∷ (codes "." ∷ (codes "-B" ∷ (codes "build" ∷ [])));
      timeout_ms = pos 0;
    })
    ∷ ((record {
      command = codes "cmake";
      args = codes "--build" ∷ (codes "build" ∷ (codes "-j" ∷ []));
      timeout_ms = pos 0;
    })
        ∷ [])

abbrev pub env_of : Str → Map Str Str
env_of runtime = (codes "VELIX_RUNTIME", runtime) ∷ []

-- The result of a branch.
abbrev pub resolved : Str → Launch → List PrepareStep → Map Str Str → Str → Outcome Resolution
resolved runtime launch steps env version = done record {
  runtime = runtime;
  run_command = launch.0;
  run_args = launch.1;
  version = version;
  injected_prepare_steps = steps;
  env_overrides = env;
}

unfoldable pub select_node : Machine → Json → Str → Str → Launch → Outcome Resolution
unfolding binary_exists require and_then launch_or check_node injected detect_runtime_version
select_node machine manifest workdir entry run =
    let inferred : Str = entry_or (codes "index.js") entry in
    require (binary_exists machine (codes "node")) (codes "node runtime requires node binary") (
      and_then
        (and_then (launch_or machine workdir (codes "node") (codes "node") [] inferred run)
          (check_node machine workdir))
        (λ (launch : Launch).
          and_then
            (injected
              (machine.exists_in workdir (codes "package.json")
                && binary_exists machine (codes "pnpm"))
              manifest (codes "pnpm") (install_step ∷ []))
            (λ (steps : List PrepareStep).
              and_then (detect_runtime_version machine (codes "node") (codes "--version" ∷ [])) (
                resolved (codes "node") launch steps
                  ((codes "NODE_ENV", codes "production") ∷ env_of (codes "node"))))))

unfoldable pub select_rust : Machine → Str → Launch → Outcome Resolution
unfolding binary_exists require and_then path_looks_local_binary detect_runtime_version
select_rust machine workdir run =
    require (binary_exists machine (codes "cargo")) (codes "rust runtime requires cargo binary") (
      require (path_looks_local_binary run.0)
        (codes "rust runtime expects run.command to be built local binary path")
        (and_then (detect_runtime_version machine (codes "cargo") (codes "--version" ∷ [])) (
          resolved (codes "rust") run []
            ((codes "CARGO_TARGET_DIR", machine.cargo_target workdir) ∷ env_of (codes "rust")))))

unfoldable pub check_go : Machine → Str → Launch → Outcome Launch
unfolding check_run path_looks_local_binary require
check_go machine workdir (command, args) =
    if command == codes "go"
    then check_run machine workdir
        (codes "go runtime with go command requires args like: run <entry.go>") (codes "go")
        (command, args)
    else require (path_looks_local_binary command)
        (codes "go runtime must use go run <entry.go> or local built binary") (done (command, args))

unfoldable pub select_go : Machine → Str → Str → Launch → Outcome Resolution
unfolding binary_exists require and_then launch_or check_go detect_runtime_version
select_go machine workdir entry run =
    let inferred : Str = entry_or (codes "main.go") entry in
    require (binary_exists machine (codes "go")) (codes "go runtime requires go binary") (
      and_then
        (and_then
          (launch_or machine workdir (codes "go") (codes "go") (codes "run" ∷ []) inferred run)
          (check_go machine workdir))
        (λ (launch : Launch).
          and_then (detect_runtime_version machine (codes "go") (codes "version" ∷ []))
            (resolved (codes "go") launch [] (env_of (codes "go")))))

unfoldable pub select_cpp : Machine → Json → Str → Str → Launch → Outcome Resolution
unfolding require and_then path_looks_local_binary injected
select_cpp machine manifest workdir runtime run =
    require (path_looks_local_binary run.0)
      (codes "cpp runtime expects run.command to be local binary path")
      (and_then
        (injected (machine.exists_in workdir (codes "CMakeLists.txt")) manifest (codes "cmake")
          cmake_steps)
        (λ (steps : List PrepareStep).
          resolved runtime run steps (env_of (codes "cpp")) (codes "cpp-toolchain")))

-- The chain of tests on the runtime.
unfoldable pub select_by_runtime : Machine → Json → Str → Str → Str → Launch → Outcome Resolution
unfolding select_python select_node select_rust select_go select_cpp
select_by_runtime machine manifest workdir runtime entry run =
    if runtime == codes "python"
    then select_python machine workdir entry run
    else if runtime == codes "node"
    then select_node machine manifest workdir entry run
    else if runtime == codes "rust"
    then select_rust machine workdir run
    else if runtime == codes "go"
    then select_go machine workdir entry run
    else if (runtime == codes "cpp") || (runtime == codes "c++")
    then select_cpp machine manifest workdir runtime run
    else refused (codes "unsupported runtime: " ++ runtime)

-- if (runtime.version.empty()) runtime.version = "unknown"
unfoldable pub with_version : Resolution → Resolution
with_version r =
    if is_empty r.version
    then record {
      runtime = r.runtime;
      run_command = r.run_command;
      run_args = r.run_args;
      version = codes "unknown";
      injected_prepare_steps = r.injected_prepare_steps;
      env_overrides = r.env_overrides;
    }
    else r

unfoldable pub select_runtime_adapter : Machine → Json → Str → Outcome Resolution
unfolding and_then value value_text lower normalize_local_binary run_args_of select_by_runtime
    with_version
select_runtime_adapter machine manifest workdir =
    and_then (of_read (value_text (codes "runtime") manifest [])) (λ (runtime : Str).
      and_then (of_read (value (codes "run") manifest (object no_members))) (λ (run : Json).
        and_then (of_read (value_text (codes "entry") manifest [])) (λ (entry : Str).
          and_then (of_read (value_text (codes "command") run [])) (λ (command : Str).
            and_then
              (select_by_runtime machine manifest workdir (lower runtime) entry
                (normalize_local_binary command, run_args_of run))
              (λ (r : Resolution). done (with_version r))))))
