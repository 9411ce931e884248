-- ===== src/Executioner/Manifest.antt =====
-- execution/executioner.cpp: validate_manifest.
pub mod Accepted
use velix.Prelude.{
  Str, Option, none, some, Bool, true, false, not, ◌&&◌, ◌||◌, ◌==◌, str_eq, if◌then◌else◌, codes,
  map_option,
}
use velix.Executioner.Json.{
  Json, null, boolean, integer, real, text, array, object, Items, no_items, item, Members,
  no_members, member, lookup, field, value, Read, to_text, is_text, is_array, is_object, is_some,
  is_wrong,
}

pub data ManifestError : Type 0 where
  missing_name name_mismatch missing_runtime prepare_must_be_array : ManifestError
  workdir_must_be_string entry_must_be_string run_must_be_object : ManifestError
  run_command_must_be_string run_args_must_be_array requires_run_or_entry : ManifestError

-- The checks inside `run`.
unfoldable pub run_error : Option Json → Option ManifestError
unfolding field
run_error none = none
run_error (some run) =
    if not (is_object run)
    then some run_must_be_object
    else if is_wrong is_text (field (codes "command") run)
    then some run_command_must_be_string
    else if is_wrong is_array (field (codes "args") run)
    then some run_args_must_be_array
    else none

-- The checks after the name and the runtime.
unfoldable pub shape_error : Json → Option ManifestError
unfolding field run_error
shape_error manifest =
    if is_wrong is_array (field (codes "prepare") manifest)
    then some prepare_must_be_array
    else if is_wrong is_text (field (codes "workdir") manifest)
    then some workdir_must_be_string
    else if is_wrong is_text (field (codes "entry") manifest)
    then some entry_must_be_string
    else elim (run_error (field (codes "run") manifest)) [
      | some e ↦ some e
      | none ↦
          if is_some (field (codes "run") manifest) || is_some (field (codes "entry") manifest)
          then none
          else some requires_run_or_entry
    ]

abbrev pub is_text_field : Option Json → Bool
is_text_field none = false
is_text_field (some v) = is_text v

abbrev pub says : Str → Option Json → Bool
says s (some (text t)) = t == s
says s _ = false

-- The error, or none for a manifest that is accepted.
unfoldable pub validate_manifest : Str → Json → Option ManifestError
unfolding field shape_error
validate_manifest name manifest =
    if not (is_text_field (field (codes "name") manifest))
    then some missing_name
    else if not (says name (field (codes "name") manifest))
    then some name_mismatch
    else if not (is_text_field (field (codes "runtime") manifest))
    then some missing_runtime
    else shape_error manifest
