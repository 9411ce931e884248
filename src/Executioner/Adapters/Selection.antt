-- ===== src/Executioner/Adapters/Selection.antt =====
-- execution/runtime_adapters/runtime_adapters.cpp: what select_runtime_adapter returns.
use velix.Prelude.{
  is_empty, Str, Bool, true, false, not, ◌||◌, ◌==◌, str_eq, ==_iff, if◌then◌else◌, codes, List, [],
  ◌∷◌, ◌≡◌, ◌⊎◌, inl, inr, refl, arith, ◌∙◌, ◌++◌, Bool-cases, nat_eq,
}
use velix.Patch.{is_prefix}
use velix.Executioner.Json.{Json}
use velix.Executioner.Adapters.{
  Machine, Resolution, Outcome, done, refused, thrown, and_then, require, path_looks_local_binary,
}
use velix.Executioner.Adapters.Python.{
  entry_or, Launch, check_script, check_run, check_python, python_launch, select_python,
}
use velix.Executioner.Adapters.Others.{
  launch_or, check_node, check_go, select_node, select_rust, select_go, select_cpp,
  select_by_runtime, with_version, select_runtime_adapter,
}

-- The property holds of a result that is returned.
pub data Ensures {A : Type 0} (P : A → Type 0) : Outcome A → Type 0 where
  returns : (a : A) → P a → Ensures P (done a)
  refuses : (e : Str) → Ensures P (refused e)
  throws : Ensures P thrown

Ensures-and_then :
    {A B : Type 0} (P : A → Type 0) (Q : B → Type 0) (m : Outcome A) (f : A → Outcome B)
    → Ensures P m
    → ((a : A) → P a → Ensures Q (f a))
    → Ensures Q (and_then m f)
unfolding and_then
Ensures-and_then P Q m f (returns a p) q = q a p
Ensures-and_then P Q m f (refuses e) q = refuses e
Ensures-and_then P Q m f throws q = throws

-- Nothing is known of the first result.
Ensures-then :
    {A B : Type 0} (Q : B → Type 0) (m : Outcome A) (f : A → Outcome B)
    → ((a : A) → Ensures Q (f a))
    → Ensures Q (and_then m f)
unfolding and_then
Ensures-then Q (done a) f q = q a
Ensures-then Q (refused e) f q = refuses e
Ensures-then Q thrown f q = throws

Ensures-require :
    {A : Type 0} (Q : A → Type 0) (b : Bool) (e : Str) (m : Outcome A)
    → (b ≡ true → Ensures Q m)
    → Ensures Q (require b e m)
unfolding require
Ensures-require Q true e m q = q refl
Ensures-require Q false e m q = refuses e

Ensures-if :
    {A : Type 0} (Q : A → Type 0) (b : Bool) (x y : Outcome A)
    → (b ≡ true → Ensures Q x)
    → (b ≡ false → Ensures Q y)
    → Ensures Q (if b then x else y)
Ensures-if Q true x y p q = p refl
Ensures-if Q false x y p q = q refl

-- A path that starts with ./ or ../; the code does not ask whether there is such a file.
abbrev pub IsLocalPath : Str → Type 0
IsLocalPath command =
    (rest : Str) × ((command ≡ codes "./" ++ rest) ⊎ (command ≡ codes "../" ++ rest))

is_prefix-append : (t s : Str) → is_prefix t s ≡ true → (rest : Str) × (s ≡ t ++ rest)
unfolding is_prefix
is_prefix-append [] s h = (s, refl)
is_prefix-append (c ∷ t) [] h = cc
is_prefix-append (c ∷ t) (d ∷ s) h =
    let later = is_prefix-append t s (ground (arith, h)) in
    (later.0, ground (arith, h, later.1, ==_iff c d))

path_looks_local_binary-IsLocalPath :
    (command : Str) → path_looks_local_binary command ≡ true → IsLocalPath command
unfolding path_looks_local_binary
path_looks_local_binary-IsLocalPath command h = elim (Bool-cases (is_prefix (codes "./") command)) [
  | inl e ↦ let found = is_prefix-append (codes "./") command e in (found.0, inl found.1)
  | inr e ↦
      let found = is_prefix-append (codes "../") command (ground (arith, h, e)) in
      (found.0, inr found.1)
]

module _ (machine : Machine) (workdir : Str) where
  -- The first argument is a file of the package; or it is `run`, and the second is one.
  abbrev pub HasScript : List Str → Type 0
  HasScript [] = ⊥
  HasScript (file ∷ args) = machine.file_exists_in workdir file ≡ true

  abbrev pub HasRun : List Str → Type 0
  HasRun (run ∷ (file ∷ args)) = (run ≡ codes "run") × (machine.file_exists_in workdir file ≡ true)
  HasRun args = ⊥

  -- The runtime, the command and the arguments go together.
  pub data Runs (runtime command : Str) (args : List Str) : Type 0 where
    python_script :
        runtime ≡ codes "python"
        → (command ≡ codes "python") ⊎ (command ≡ codes "python3")
        → HasScript args
        → Runs runtime command args
    python_uv :
        runtime ≡ codes "python" → command ≡ codes "uv" → HasRun args → Runs runtime command args
    node_script :
        runtime ≡ codes "node" → command ≡ codes "node" → HasScript args → Runs runtime command args
    go_run : runtime ≡ codes "go" → command ≡ codes "go" → HasRun args → Runs runtime command args
    local_binary :
        (runtime ≡ codes "rust")
          ⊎ ((runtime ≡ codes "go") ⊎ ((runtime ≡ codes "cpp") ⊎ (runtime ≡ codes "c++")))
        → IsLocalPath command
        → Runs runtime command args

  abbrev Runnable : Resolution → Type 0
  Runnable r = Runs r.runtime r.run_command r.run_args

  check_script-HasScript :
      (runtime : Str) (launch : Launch)
      → Ensures
          (λ (l : Launch). (l.0 ≡ launch.0) × HasScript l.1)
          (check_script machine workdir runtime launch)
  unfolding check_script
  check_script-HasScript runtime (command, []) = refuses _
  check_script-HasScript runtime (command, file ∷ args) =
      Ensures-require (λ (l : Launch). (l.0 ≡ command) × HasScript l.1)
        (machine.file_exists_in workdir file) _ _ (λ e. returns _ (refl, e))

  check_run-HasRun :
      (usage runtime : Str) (launch : Launch)
      → Ensures
          (λ (l : Launch). (l.0 ≡ launch.0) × HasRun l.1)
          (check_run machine workdir usage runtime launch)
  unfolding check_run
  check_run-HasRun usage runtime (command, []) = refuses _
  check_run-HasRun usage runtime (command, run ∷ []) = refuses _
  check_run-HasRun usage runtime (command, run ∷ (file ∷ args)) =
      let P : Launch → Type 0 = λ l. (l.0 ≡ command) × HasRun l.1 in
      Ensures-require P (run == codes "run") _ _ (λ e.
        Ensures-require P (machine.file_exists_in workdir file) _ _
          (λ k. returns _ (refl, ((==_iff run (codes "run")).0 e, k))))

  -- A weaker property.
  Ensures-map :
      (P Q : Launch → Type 0) (m : Outcome Launch)
      → ((l : Launch) → P l → Q l)
      → Ensures P m
      → Ensures Q m
  Ensures-map P Q m f (returns l p) = returns l (f l p)
  Ensures-map P Q m f (refuses e) = refuses e
  Ensures-map P Q m f throws = throws

  check_python-Runs :
      (launch : Launch)
      → Ensures
          (λ (l : Launch). Runs (codes "python") l.0 l.1)
          (check_python machine workdir launch)
  unfolding check_python
  check_python-Runs (command, args) =
      let Q : Launch → Type 0 = λ l. Runs (codes "python") l.0 l.1 in
      let usage : Str = codes "python uv runtime requires args like: run <entry.py>" in
      Ensures-if Q ((command == codes "python") || (command == codes "python3")) _ _
        (λ e.
          let which : (command ≡ codes "python") ⊎ (command ≡ codes "python3") =
            ground (arith, e, ==_iff command (codes "python"), ==_iff command (codes "python3")) in
          Ensures-map (λ l. (l.0 ≡ command) × HasScript l.1) Q _
            (λ l h. python_script refl (rw (h.0) which) h.1)
            (check_script-HasScript (codes "python") (command, args)))
        (λ e.
          Ensures-if Q (command == codes "uv") _ _
            (λ k.
              Ensures-map (λ l. (l.0 ≡ command) × HasRun l.1) Q _
                (λ l h. python_uv refl (h.0 ∙ (==_iff command (codes "uv")).0 k) h.1)
                (check_run-HasRun usage (codes "python") (command, args)))
            (λ k. refuses _))

  check_node-Runs :
      (launch : Launch)
      → Ensures (λ (l : Launch). Runs (codes "node") l.0 l.1) (check_node machine workdir launch)
  unfolding check_node
  check_node-Runs (command, args) =
      let Q : Launch → Type 0 = λ l. Runs (codes "node") l.0 l.1 in
      Ensures-if Q (not (command == codes "node")) _ _ (λ e. refuses _)
        (λ e.
          Ensures-map (λ l. (l.0 ≡ command) × HasScript l.1) Q _
            (λ l h.
              node_script refl (h.0 ∙ (==_iff command (codes "node")).0 (ground (arith, e))) h.1)
            (check_script-HasScript (codes "node") (command, args)))

  check_go-Runs :
      (launch : Launch)
      → Ensures (λ (l : Launch). Runs (codes "go") l.0 l.1) (check_go machine workdir launch)
  unfolding check_go
  check_go-Runs (command, args) =
      let Q : Launch → Type 0 = λ l. Runs (codes "go") l.0 l.1 in
      let usage : Str = codes "go runtime with go command requires args like: run <entry.go>" in
      Ensures-if Q (command == codes "go") _ _
        (λ e.
          Ensures-map (λ l. (l.0 ≡ command) × HasRun l.1) Q _
            (λ l h. go_run refl (h.0 ∙ (==_iff command (codes "go")).0 e) h.1)
            (check_run-HasRun usage (codes "go") (command, args)))
        (λ e. Ensures-require Q (path_looks_local_binary command) _ _ (λ k.
          returns _
            (local_binary (inr (inl refl)) (path_looks_local_binary-IsLocalPath command k))))

  select_python-Runs :
      (entry : Str) (run : Launch) → Ensures Runnable (select_python machine workdir entry run)
  unfolding select_python
  select_python-Runs entry run =
      let P : Launch → Type 0 = λ l. Runs (codes "python") l.0 l.1 in
      let checked =
        Ensures-then P (python_launch machine workdir entry run) (check_python machine workdir)
          check_python-Runs in
      search (Ensures-require, Ensures-and_then P, Ensures-then, returns, checked)

  select_node-Runs :
      (manifest : Json) (entry : Str) (run : Launch)
      → Ensures Runnable (select_node machine manifest workdir entry run)
  unfolding select_node
  select_node-Runs manifest entry run =
      let P : Launch → Type 0 = λ l. Runs (codes "node") l.0 l.1 in
      let inferred : Str = entry_or (codes "index.js") entry in
      let checked =
        Ensures-then P (launch_or machine workdir (codes "node") (codes "node") [] inferred run)
          (check_node machine workdir) check_node-Runs in
      search (Ensures-require, Ensures-and_then P, Ensures-then, returns, checked)

  select_go-Runs :
      (entry : Str) (run : Launch) → Ensures Runnable (select_go machine workdir entry run)
  unfolding select_go
  select_go-Runs entry run =
      let P : Launch → Type 0 = λ l. Runs (codes "go") l.0 l.1 in
      let inferred : Str = entry_or (codes "main.go") entry in
      let checked =
        Ensures-then P
          (launch_or machine workdir (codes "go") (codes "go") (codes "run" ∷ []) inferred run)
          (check_go machine workdir) check_go-Runs in
      search (Ensures-require, Ensures-and_then P, Ensures-then, returns, checked)

  select_rust-Runs : (run : Launch) → Ensures Runnable (select_rust machine workdir run)
  unfolding select_rust
  select_rust-Runs run =
      let rust : path_looks_local_binary run.0 ≡ true → Runs (codes "rust") run.0 run.1 =
        λ k. local_binary (inl refl) (path_looks_local_binary-IsLocalPath run.0 k) in
      search (Ensures-require, Ensures-then, returns, rust)

  select_cpp-Runs :
      (manifest : Json) (runtime : Str) (run : Launch)
      → (runtime ≡ codes "cpp") ⊎ (runtime ≡ codes "c++")
      → Ensures Runnable (select_cpp machine manifest workdir runtime run)
  unfolding select_cpp
  select_cpp-Runs manifest runtime run h =
      let cpp : path_looks_local_binary run.0 ≡ true → Runs runtime run.0 run.1 =
        λ k. local_binary (inr (inr h)) (path_looks_local_binary-IsLocalPath run.0 k) in
      search (Ensures-require, Ensures-then, returns, cpp)

  select_by_runtime-Runs :
      (manifest : Json) (runtime entry : Str) (run : Launch)
      → Ensures Runnable (select_by_runtime machine manifest workdir runtime entry run)
  unfolding select_by_runtime
  select_by_runtime-Runs manifest runtime entry run =
      let cpp : (runtime == codes "cpp") || (runtime == codes "c++") ≡ true
          → (runtime ≡ codes "cpp") ⊎ (runtime ≡ codes "c++") =
        λ e. ground (arith, e, ==_iff runtime (codes "cpp"), ==_iff runtime (codes "c++")) in
      search
        (
          Ensures-if Runnable,
          refuses,
          select_python-Runs,
          select_node-Runs,
          select_rust-Runs,
          select_go-Runs,
          select_cpp-Runs,
          cpp,
        )
        depth 12

  -- A result that is returned names a version.
  abbrev pub IsResolved : Resolution → Type 0
  IsResolved r = Runnable r × (is_empty r.version ≡ false)

  with_version-IsResolved : (r : Resolution) → Runnable r → IsResolved (with_version r)
  unfolding with_version
  with_version-IsResolved r h = ground (arith, h)

  -- A runtime adapter that is returned names a version, and its command goes with its runtime.
  pub select_runtime_adapter-IsResolved :
      (manifest : Json) → Ensures IsResolved (select_runtime_adapter machine manifest workdir)
  unfolding select_runtime_adapter
  select_runtime_adapter-IsResolved manifest =
      search
        (
          Ensures-then,
          Ensures-and_then Runnable,
          select_by_runtime-Runs,
          returns,
          with_version-IsResolved,
        )
        depth 12
