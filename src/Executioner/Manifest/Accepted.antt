-- ===== src/Executioner/Manifest/Accepted.antt =====
-- execution/executioner.cpp: the manifests that validate_manifest accepts.
use velix.Prelude.{
  Str, Option, none, some, true, false, str_eq, ==_iff, codes, ◌≡◌, ◌≢◌, ◌↔◌, ◌⊎◌, inl, inr, arith,
  refl, Bool-cases,
}
use velix.Executioner.Json.{
  Json, null, boolean, integer, real, text, array, object, Items, Members, lookup, field, is_text,
  is_array, is_wrong, is_some,
}
use velix.Executioner.Manifest.{run_error, shape_error, validate_manifest, is_text_field, says}

-- What an optional field is, if it is there.
abbrev pub OptionalText : Option Json → Type 0
OptionalText v = (v ≡ none) ⊎ ((s : Str) × (v ≡ some (text s)))

abbrev pub OptionalArray : Option Json → Type 0
OptionalArray v = (v ≡ none) ⊎ ((l : Items) × (v ≡ some (array l)))

pub record IsRun (members : Members) : Type 0 where
  pub command : OptionalText (lookup (codes "command") members)
  pub args : OptionalArray (lookup (codes "args") members)

abbrev pub OptionalRun : Option Json → Type 0
OptionalRun none = Unit
OptionalRun (some (object m)) = IsRun m
OptionalRun (some v) = ⊥

-- The schema of a manifest.
pub record IsManifest (name : Str) (manifest : Json) : Type 0 where
  pub named : field (codes "name") manifest ≡ some (text name)
  pub runtime : (r : Str) × (field (codes "runtime") manifest ≡ some (text r))
  pub prepare : OptionalArray (field (codes "prepare") manifest)
  pub workdir : OptionalText (field (codes "workdir") manifest)
  pub entry : OptionalText (field (codes "entry") manifest)
  pub run : OptionalRun (field (codes "run") manifest)
  pub started : (field (codes "run") manifest ≢ none) ⊎ (field (codes "entry") manifest ≢ none)

optional_text : (v : Option Json) → (is_wrong is_text v ≡ false) ↔ OptionalText v
optional_text none = (λ e. inl refl, λ h. refl)
optional_text (some (text s)) = (λ e. inr (s, refl), λ h. refl)
optional_text (some null) = ground arith
optional_text (some (boolean b)) = ground arith
optional_text (some (integer n)) = ground arith
optional_text (some (real n)) = ground arith
optional_text (some (array l)) = ground arith
optional_text (some (object m)) = ground arith

optional_array : (v : Option Json) → (is_wrong is_array v ≡ false) ↔ OptionalArray v
optional_array none = (λ e. inl refl, λ h. refl)
optional_array (some (array l)) = (λ e. inr (l, refl), λ h. refl)
optional_array (some null) = ground arith
optional_array (some (boolean b)) = ground arith
optional_array (some (integer n)) = ground arith
optional_array (some (real n)) = ground arith
optional_array (some (text s)) = ground arith
optional_array (some (object m)) = ground arith

required_text : (v : Option Json) → (is_text_field v ≡ true) ↔ ((s : Str) × (v ≡ some (text s)))
required_text none = ground arith
required_text (some (text s)) = (λ e. (s, refl), λ h. refl)
required_text (some null) = ground arith
required_text (some (boolean b)) = ground arith
required_text (some (integer n)) = ground arith
required_text (some (real n)) = ground arith
required_text (some (array l)) = ground arith
required_text (some (object m)) = ground arith

says_iff : (s : Str) (v : Option Json) → (says s v ≡ true) ↔ (v ≡ some (text s))
says_iff s none = ground arith
says_iff s (some (text t)) = ground (arith, ==_iff t s)
says_iff s (some null) = ground arith
says_iff s (some (boolean b)) = ground arith
says_iff s (some (integer n)) = ground arith
says_iff s (some (real n)) = ground arith
says_iff s (some (array l)) = ground arith
says_iff s (some (object m)) = ground arith

some_iff : (v : Option Json) → (is_some v ≡ true) ↔ (v ≢ none)
some_iff none = ground arith
some_iff (some v) = ground arith

optional_run : (v : Option Json) → (run_error v ≡ none) ↔ OptionalRun v
unfolding run_error field
optional_run none = ground arith
optional_run (some (object m)) =
    let command = optional_text (lookup (codes "command") m) in
    let args = optional_array (lookup (codes "args") m) in
    (
      λ e. record { command = command.0 (ground (arith, e)); args = args.0 (ground (arith, e)) },
      λ h. ground (arith, command.1 h.command, args.1 h.args),
    )
optional_run (some null) = ground arith
optional_run (some (boolean b)) = ground arith
optional_run (some (integer n)) = ground arith
optional_run (some (real n)) = ground arith
optional_run (some (array l)) = ground arith
optional_run (some (text s)) = ground arith

-- validate_manifest accepts exactly the manifests of the schema: the name is the asked one, the
-- runtime is a text, each of prepare, workdir, entry and run has its type if it is there, and so have
-- the command and the arguments of run, and run or entry is there.
pub validate_manifest-IsManifest :
    (name : Str) (manifest : Json)
    → (validate_manifest name manifest ≡ none) ↔ IsManifest name manifest
unfolding validate_manifest shape_error
validate_manifest-IsManifest name manifest =
    let name_text = required_text (field (codes "name") manifest) in
    let name_says = says_iff name (field (codes "name") manifest) in
    let runtime = required_text (field (codes "runtime") manifest) in
    let prepare = optional_array (field (codes "prepare") manifest) in
    let workdir = optional_text (field (codes "workdir") manifest) in
    let entry = optional_text (field (codes "entry") manifest) in
    let run = optional_run (field (codes "run") manifest) in
    let some_run = some_iff (field (codes "run") manifest) in
    let some_entry = some_iff (field (codes "entry") manifest) in
    (
      λ e. record {
        named = name_says.0 (ground (arith, e));
        runtime = runtime.0 (ground (arith, e));
        prepare = prepare.0 (ground (arith, e));
        workdir = workdir.0 (ground (arith, e));
        entry = entry.0 (ground (arith, e));
        run = run.0 (ground (arith, e));
        started = elim (Bool-cases (is_some (field (codes "run") manifest))) [
          | inl b ↦ inl (some_run.0 b)
          | inr b ↦ inr (some_entry.0 (ground (arith, e, b)))
        ];
      },
      λ h. ground (
        arith,
        name_text.1 (name, h.named),
        name_says.1 h.named,
        runtime.1 h.runtime,
        prepare.1 h.prepare,
        workdir.1 h.workdir,
        entry.1 h.entry,
        run.1 h.run,
        h.started,
        some_run,
        some_entry,
      ),
    )
