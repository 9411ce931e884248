-- ===== src/Executioner/Params.antt =====
-- execution/executioner.cpp: validate_params. The iteration over a JSON value is that of the parser's
-- library: the elements, the values of an object, a single value once, null never.
pub mod Fitting
use velix.Prelude.{
  Str, Option, none, some, Bool, true, false, not, ◌&&◌, ◌||◌, ◌==◌, str_eq, if◌then◌else◌, codes,
  List, [], ◌∷◌,
}
use velix.Executioner.Json.{
  Json, null, boolean, integer, real, text, array, object, Items, no_items, item, Members,
  no_members, member, lookup, field, value_text, Read, is_text, is_array, is_object, is_number,
  is_boolean,
}

pub data ParamError : Type 0 where
  missing_required : Str → ParamError
  type_mismatch : Str → Str → ParamError

-- The result of the check: none where it throws, an error, or none for accepted.
abbrev pub Verdict : Type 0
Verdict = Read (Option ParamError)

abbrev pub has : Str → Json → Bool
has k v = elim (field k v) [ none ↦ false | some w ↦ true ]

-- The loop over the required keys.
unfoldable pub missing_items : Json → Items → Option ParamError
unfolding field
missing_items params no_items = none
missing_items params (item (text k) l) =
    if has k params then missing_items params l else some (missing_required k)
missing_items params (item v l) = missing_items params l

unfoldable pub missing_members : Json → Members → Option ParamError
unfolding field
missing_members params no_members = none
missing_members params (member j (text k) l) =
    if has k params then missing_members params l else some (missing_required k)
missing_members params (member j v l) = missing_members params l

unfoldable pub missing : Json → Json → Option ParamError
unfolding missing_items missing_members
missing params (array l) = missing_items params l
missing params (object m) = missing_members params m
missing params (text k) = missing_items params (item (text k) no_items)
missing params v = none

abbrev pub is_known : Str → Bool
is_known t =
    (t == codes "string")
    || ((t == codes "number")
        || ((t == codes "boolean") || ((t == codes "array") || (t == codes "object"))))

unfoldable pub type_matches : Str → Json → Bool
type_matches t v =
    ((t == codes "string") && is_text v)
    || (((t == codes "number") && is_number v)
        || (((t == codes "boolean") && is_boolean v)
            || (((t == codes "array") && is_array v)
                || (((t == codes "object") && is_object v) || not (is_known t)))))

-- One property against its parameter.
unfoldable pub check_property : Json → Str → Json → Verdict
unfolding field value_text type_matches
check_property params k property = elim (field k params) [
  | none ↦ some none
  | some v ↦
      if not (is_object property)
      then some none
      else elim (value_text (codes "type") property (codes "string")) [
        | none ↦ none
        | some t ↦ if type_matches t v then some none else some (some (type_mismatch k t))
      ]
]

-- The loop over the properties.
unfoldable pub check_properties : Json → Members → Verdict
unfolding check_property
check_properties params no_members = some none
check_properties params (member k property m) = elim (check_property params k property) [
  | some none ↦ check_properties params m
  | other ↦ other
]

-- it.key() throws on what is no object, unless there is nothing to iterate over.
unfoldable pub mismatch : Json → Json → Verdict
unfolding check_properties
mismatch params (object m) = check_properties params m
mismatch params null = some none
mismatch params (array no_items) = some none
mismatch params props = none

abbrev pub or_else : Option Json → Json → Json
or_else none fallback = fallback
or_else (some v) fallback = v

unfoldable pub validate_params : Json → Json → Verdict
unfolding missing mismatch lookup
validate_params params (object schema) =
    elim (missing params (or_else (lookup (codes "required") schema) (array no_items))) [
      | some e ↦ some (some e)
      | none ↦ mismatch params (or_else (lookup (codes "properties") schema) (object schema))
    ]
validate_params params schema = some none
