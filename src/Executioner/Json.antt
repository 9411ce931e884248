-- ===== src/Executioner/Json.antt =====
-- The JSON values that execution/ reads, as the vendored parser returns them. A floating point number
-- is given by its value rounded toward zero.
use velix.Prelude.{
  ℕ, ◌+◌, ◌-◌, ◌%◌, ◌^◌, ℤ, pos, negsuc, Str, Option, none, some, Bool, true, false, ◌==◌, str_eq,
  ltb, if◌then◌else◌,
}

mutual
  pub data Json : Type 0 where
    null : Json
    boolean : Bool → Json
    integer : ℤ → Json
    real : ℤ → Json
    text : Str → Json
    array : Items → Json
    object : Members → Json

  pub data Items : Type 0 where
    no_items : Items
    item : Json → Items → Items

  pub data Members : Type 0 where
    no_members : Members
    member : Str → Json → Members → Members

-- The value under a key of an object.
unfoldable pub lookup : Str → Members → Option Json
lookup k no_members = none
lookup k (member j v m) = if j == k then some v else lookup k m

-- contains(key) and operator[]: only an object has members.
unfoldable pub field : Str → Json → Option Json
unfolding lookup
field k (object m) = lookup k m
field k _ = none

-- A read that throws json::type_error is none.
abbrev pub Read : Type 0 → Type 0
Read A = Option A

-- value(key, fallback): throws where the value is no object.
unfoldable pub value : Str → Json → Json → Read Json
unfolding lookup
value k (object m) fallback = some (elim (lookup k m) [ none ↦ fallback | some v ↦ v ])
value k _ fallback = none

abbrev pub to_text : Json → Read Str
to_text (text s) = some s
to_text _ = none

-- static_cast<int> of a number.
abbrev pub signed : ℕ → ℤ
signed n = if ltb n (2 ^ 31) then pos n else negsuc (2 ^ 32 - (n + 1))

unfoldable pub to_int : ℤ → ℤ
to_int (pos n) = signed (n % 2 ^ 32)
to_int (negsuc n) = signed ((2 ^ 32 - 1) - n % 2 ^ 32)

abbrev pub to_number : Json → Read ℤ
to_number (boolean b) = some (if b then pos 1 else pos 0)
to_number (integer n) = some (to_int n)
to_number (real n) = some (to_int n)
to_number _ = none

-- value(key, fallback) for a std::string and for an int.
unfoldable pub value_text : Str → Json → Str → Read Str
unfolding lookup
value_text k (object m) fallback = elim (lookup k m) [ none ↦ some fallback | some v ↦ to_text v ]
value_text k _ fallback = none

unfoldable pub value_int : Str → Json → ℤ → Read ℤ
unfolding lookup to_int
value_int k (object m) fallback = elim (lookup k m) [ none ↦ some fallback | some v ↦ to_number v ]
value_int k _ fallback = none

abbrev pub is_text : Json → Bool
is_text (text s) = true
is_text _ = false

abbrev pub is_array : Json → Bool
is_array (array l) = true
is_array _ = false

abbrev pub is_object : Json → Bool
is_object (object m) = true
is_object _ = false

abbrev pub is_number : Json → Bool
is_number (integer n) = true
is_number (real n) = true
is_number _ = false

abbrev pub is_boolean : Json → Bool
is_boolean (boolean b) = true
is_boolean _ = false

abbrev pub is_some : Option Json → Bool
is_some none = false
is_some (some v) = true

-- An optional field of another type than the one asked for.
abbrev pub is_wrong : (Json → Bool) → Option Json → Bool
is_wrong p none = false
is_wrong p (some v) = if p v then false else true
