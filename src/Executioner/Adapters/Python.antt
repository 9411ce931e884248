-- ===== src/Executioner/Adapters/Python.antt =====
-- execution/runtime_adapters/runtime_adapters.cpp: the branch of the python runtime.
use velix.Prelude.{Str, ◌||◌, ◌==◌, str_eq, if◌then◌else◌, codes, List, [], ◌∷◌, ◌++◌, is_empty}
use velix.Executioner.Adapters.{
  Machine, Resolution, Outcome, done, refused, and_then, require, binary_exists,
  detect_runtime_version,
}

-- The command and the arguments: those of `run`, or the ones made from the entry.
abbrev pub Launch : Type 0
Launch = Str × List Str

abbrev pub entry_or : Str → Str → Str
entry_or fallback entry = if is_empty entry then fallback else entry

unfoldable pub python_launch : Machine → Str → Str → Launch → Outcome Launch
unfolding binary_exists require
python_launch machine workdir entry (command, args) =
    let inferred : Str = entry_or (codes "main.py") entry in
    if is_empty command
    then require (machine.file_exists_in workdir inferred)
        (codes "python entry file not found: " ++ inferred)
        (done (
          if binary_exists machine (codes "uv")
          then (codes "uv", codes "run" ∷ (inferred ∷ []))
          else (codes "python", inferred ∷ [])))
    else done (command, args)

-- The first argument is a file of the package.
unfoldable pub check_script : Machine → Str → Str → Launch → Outcome Launch
unfolding require
check_script machine workdir runtime (command, []) =
    refused (runtime ++ codes " runtime requires entry script arg")
check_script machine workdir runtime (command, file ∷ args) =
    require (machine.file_exists_in workdir file)
      (runtime ++ (codes " entry file not found: " ++ file)) (done (command, file ∷ args))

-- The arguments are `run` and a file of the package.
unfoldable pub check_run : Machine → Str → Str → Str → Launch → Outcome Launch
unfolding require
check_run machine workdir usage runtime (command, run ∷ (file ∷ args)) =
    require (run == codes "run") usage (
      require (machine.file_exists_in workdir file)
        (runtime ++ (codes " entry file not found: " ++ file))
        (done (command, run ∷ (file ∷ args))))
check_run machine workdir usage runtime (command, args) = refused usage

unfoldable pub check_python : Machine → Str → Launch → Outcome Launch
unfolding check_script check_run
check_python machine workdir (command, args) =
    if (command == codes "python") || (command == codes "python3")
    then check_script machine workdir (codes "python") (command, args)
    else if command == codes "uv"
    then check_run machine workdir (codes "python uv runtime requires args like: run <entry.py>")
        (codes "python") (command, args)
    else refused (codes "python runtime must use python or uv")

unfoldable pub select_python : Machine → Str → Str → Launch → Outcome Resolution
unfolding binary_exists require and_then python_launch check_python detect_runtime_version
select_python machine workdir entry run =
    require (binary_exists machine (codes "python") || binary_exists machine (codes "uv"))
      (codes "python runtime requires python or uv binary")
      (and_then (and_then (python_launch machine workdir entry run) (check_python machine workdir))
        (λ (launch : Launch).
          and_then (detect_runtime_version machine (codes "python") (codes "--version" ∷ []))
            (λ (version : Str). done record {
              runtime = codes "python";
              run_command = launch.0;
              run_args = launch.1;
              version = version;
              injected_prepare_steps = [];
              env_overrides =
                  (codes "PYTHONUNBUFFERED", codes "1")
                  ∷ ((codes "VELIX_RUNTIME", codes "python") ∷ []);
            })))
