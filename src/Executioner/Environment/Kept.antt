-- ===== src/Executioner/Environment/Kept.antt =====
-- execution/executioner.cpp: which variables of the new process are kept.
use velix.Prelude.{
  Str, some, Bool, List, [], ◌∷◌, find, insert, find-insert, str_eq, ==_iff, ◌≡◌, ◌≢◌, refl, arith,
  Option-cases, inl, inr,
}
use velix.Executioner.Environment.{
  Env, EnvSource, base_env, port_injections, sdk_injections, sdk_names, limit_injections, put_new,
  inject, override_all, environment,
}

put_new-find : (k j v w : Str) (env : Env) → find j env ≡ some w → find j (put_new k v env) ≡ some w
put_new-find k j v w env h = elim (Option-cases (find k env)) [
  | inl n ↦ rw (n, put_new) (ground (arith, find-insert k j v env, ==_iff k j, n, h))
  | inr (x, q) ↦ rw (q, put_new) h
]

inject-find :
    (l : List (Str × Str)) (j w : Str) (env : Env)
    → find j env ≡ some w
    → find j (inject l env) ≡ some w
unfolding inject
inject-find [] j w env h = h
inject-find ((k, v) ∷ l) j w env h =
    inject-find l j w (put_new k v env) (put_new-find k j v w env h)

-- The key is none of the overrides'.
abbrev pub Untouched : Str → List (Str × Str) → Type 0
Untouched j [] = Unit
Untouched j ((k, v) ∷ l) = (k ≢ j) × Untouched j l

override_all-find :
    (l : List (Str × Str)) (j : Str) (env : Env)
    → Untouched j l
    → find j (override_all l env) ≡ find j env
unfolding override_all
override_all-find [] j env u = refl
override_all-find ((k, v) ∷ l) j env u =
    ground
      (arith, override_all-find l j (insert k v env) u.1, find-insert k j v env, ==_iff k j, u.0)

-- A variable that the request sets reaches the new process, unless the runtime adapter overrides it:
-- the ports, the settings of the SDK and the limits never replace one.
pub environment-find :
    (join_tree : Bool) (s : EnvSource) (overrides : List (Str × Str)) (j w : Str)
    → find j (base_env join_tree s) ≡ some w
    → Untouched j overrides
    → find j (environment join_tree s overrides) ≡ some w
unfolding environment
environment-find join_tree s overrides j w h u =
    let ports : Env = inject (port_injections s) (base_env join_tree s) in
    let sdk : Env = inject (sdk_injections s sdk_names) ports in
    let all : Env = inject (limit_injections s) sdk in
    let kept : find j all ≡ some w = inject-find (limit_injections s) j w sdk (
      inject-find (sdk_injections s sdk_names) j w ports
        (inject-find (port_injections s) j w (base_env join_tree s) h)) in
    rw (override_all-find overrides j all u) kept
