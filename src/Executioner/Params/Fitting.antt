-- ===== src/Executioner/Params/Fitting.antt =====
-- execution/executioner.cpp: which parameters validate_params lets through.
use velix.Prelude.{
  Str, none, some, true, str_eq, str_beq, codes, Bool, false, ◌||◌, ◌≡◌, ◌↔◌, inl, inr, arith, refl,
  Option-cases, Bool-cases,
}
use velix.Executioner.Json.{
  Json, null, boolean, integer, real, text, array, object, Items, no_items, item, Members,
  no_members, member, lookup, field, value_text, is_object, is_text, is_number, is_boolean,
  is_array,
}
use velix.Executioner.Params.{
  has, missing_items, missing, type_matches, check_property, check_properties, mismatch,
  validate_params,
}

-- Every required key that is a text is there.
abbrev pub Required : Json → Items → Type 0
Required params no_items = Unit
Required params (item (text k) l) = (has k params ≡ true) × Required params l
Required params (item v l) = Required params l

-- A parameter that is there has the type that the schema of its property, an object, names.
abbrev pub Agrees : Json → Str → Json → Type 0
Agrees params k property =
    (v : Json)
    → field k params ≡ some v
    → is_object property ≡ true
    → (t : Str) × ((value_text (codes "type") property (codes "string") ≡ some t)
        × (type_matches t v ≡ true))

abbrev pub Fits : Json → Members → Type 0
Fits params no_members = Unit
Fits params (member k property m) = Agrees params k property × Fits params m

check_property-Agrees :
    (params : Json) (k : Str) (property : Json)
    → (check_property params k property ≡ some none) ↔ Agrees params k property
unfolding check_property
check_property-Agrees params k property = elim (Option-cases (field k params)) [
  | inl n ↦ (λ e v h. absurd (ground (arith, n, h)), λ h. rw (n, check_property) refl)
  | inr (v, q) ↦ elim (Bool-cases (is_object property)) [
    | inl o ↦ elim (Option-cases (value_text (codes "type") property (codes "string"))) [
      | inl n ↦ (
        λ e. absurd (ground (arith, q, o, n, e)),
        λ h. let w = h v q o in absurd (ground (arith, n, w.1.0)),
      )
      | inr (t, r) ↦ (
        λ e. λ w hw k. (t, (r, ground (arith, q, hw, o, r, e))),
        λ h. let w = h v q o in ground (arith, q, o, w.1.0, w.1.1),
      )
    ]
    | inr o ↦ (λ e w h k. absurd (ground (arith, o, k)), λ h. rw (q, o, check_property) refl)
  ]
]

check_properties-Fits :
    (params : Json) (m : Members) → (check_properties params m ≡ some none) ↔ Fits params m
unfolding check_properties
check_properties-Fits params no_members = ground arith
check_properties-Fits params (member k property m) =
    let one = check_property-Agrees params k property in
    let rest = check_properties-Fits params m in
    (
      λ e. (one.0 (ground (arith, e)), rest.0 (ground (arith, e))),
      λ h. ground (arith, one.1 h.0, rest.1 h.1),
    )

missing_items-Required :
    (params : Json) (l : Items) → (missing_items params l ≡ none) ↔ Required params l
unfolding missing_items
missing_items-Required params no_items = ground arith
missing_items-Required params (item (text k) l) =
    let rest = missing_items-Required params l in
    (λ e. (ground (arith, e), rest.0 (ground (arith, e))), λ h. ground (arith, h.0, rest.1 h.1))
missing_items-Required params (item null l) = missing_items-Required params l
missing_items-Required params (item (boolean b) l) = missing_items-Required params l
missing_items-Required params (item (integer n) l) = missing_items-Required params l
missing_items-Required params (item (real n) l) = missing_items-Required params l
missing_items-Required params (item (array a) l) = missing_items-Required params l
missing_items-Required params (item (object m) l) = missing_items-Required params l

-- For a schema with an array of required keys and an object of properties: the parameters are
-- accepted exactly when every required key is there and every parameter that has a property, whose
-- schema is an object, has the type that the schema names, a string where it names none.
pub validate_params-Fits :
    (params : Json) (schema properties : Members) (keys : Items)
    → lookup (codes "required") schema ≡ some (array keys)
    → lookup (codes "properties") schema ≡ some (object properties)
    → (validate_params params (object schema) ≡ some none)
      ↔ (Required params keys × Fits params properties)
unfolding validate_params missing mismatch
validate_params-Fits params schema properties keys r p =
    let required = missing_items-Required params keys in
    let fits = check_properties-Fits params properties in
    (
      λ e. (required.0 (ground (arith, e, r, p)), fits.0 (ground (arith, e, r, p))),
      λ h. ground (arith, r, p, required.1 h.0, fits.1 h.1),
    )

-- The type that a schema names, for the five names that the code knows.
pub record HasType (t : Str) (v : Json) : Type 0 where
  pub string : t ≡ codes "string" → is_text v ≡ true
  pub number : t ≡ codes "number" → is_number v ≡ true
  pub boolean : t ≡ codes "boolean" → is_boolean v ≡ true
  pub array : t ≡ codes "array" → is_array v ≡ true
  pub object : t ≡ codes "object" → is_object v ≡ true

or_last : {b : Bool} → (b || false) ≡ true → b ≡ true
or_last h = ground (arith, h)

type_matches-HasType : (t : Str) (v : Json) → type_matches t v ≡ true → HasType t v
unfolding type_matches str_beq
type_matches-HasType t v h = record {
  string = λ e. or_last (rw e at h);
  number = λ e. or_last (rw e at h);
  boolean = λ e. or_last (rw e at h);
  array = λ e. or_last (rw e at h);
  object = λ e. or_last (rw e at h);
}

-- Each parameter that has a property, whose schema is an object, has the type that the schema names, a string where it
-- names none.
abbrev pub Typed : Json → Members → Type 0
Typed params no_members = Unit
Typed params (member k property m) =
    ((v : Json) (t : Str)
      → field k params ≡ some v
      → is_object property ≡ true
      → value_text (codes "type") property (codes "string") ≡ some t
      → HasType t v)
    × Typed params m

Fits-Typed : (params : Json) (m : Members) → Fits params m → Typed params m
Fits-Typed params no_members h = tt
Fits-Typed params (member k property m) h = (
  λ v t there shape named.
      let w = h.0 v there shape in
      let same : w.0 ≡ t = ground (arith, w.1.0, named) in
      type_matches-HasType t v (rw same at w.1.1),
  Fits-Typed params m h.1,
)

module _ (params : Json) (schema : Members)
    (accepted : validate_params params (object schema) ≡ some none) where
  pub accepted-Required :
      (keys : Items) → lookup (codes "required") schema ≡ some (array keys) → Required params keys
  unfolding validate_params missing
  accepted-Required keys r = (missing_items-Required params keys).0 (ground (arith, accepted, r))

  pub accepted-Typed :
      (properties : Members)
      → lookup (codes "properties") schema ≡ some (object properties)
      → Typed params properties
  unfolding validate_params mismatch
  accepted-Typed properties p =
      Fits-Typed params properties
        ((check_properties-Fits params properties).0 (ground (arith, accepted, p)))
