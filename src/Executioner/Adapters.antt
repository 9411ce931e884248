-- ===== src/Executioner/Adapters.antt =====
-- execution/runtime_adapters/runtime_adapters.cpp: select_runtime_adapter, on POSIX. What the code
-- asks of the machine is a record of functions: which programs `which` finds, which files there are,
-- what a program prints.
pub mod Python
pub mod Others
pub mod Selection
use velix.Prelude.{
  ℕ, zero, suc, ℤ, ◌-◌, Str, Option, none, some, Bool, true, false, not, ◌&&◌, ◌||◌, ◌==◌, nat_eq,
  str_eq, if◌then◌else◌, codes, List, [], ◌∷◌, ◌++◌, Map, length, take, drop, ltb, is_empty,
}
use velix.Distance.{tolower}
use velix.Patch.{is_prefix}
use velix.Executioner.Json.{
  Json, array, text, object, Items, no_items, item, field, value_text, value, Read, is_object,
}

pub record Machine : Type 0 where
  pub which : Str → Bool
  pub file_exists_in : Str → Str → Bool
  pub exists_in : Str → Str → Bool
  pub output : Str → List Str → Option (Str × Str)
  pub cargo_target : Str → Str

pub record PrepareStep : Type 0 where
  pub command : Str
  pub args : List Str
  pub timeout_ms : ℤ

pub record Resolution : Type 0 where
  pub runtime : Str
  pub run_command : Str
  pub run_args : List Str
  pub version : Str
  pub injected_prepare_steps : List PrepareStep
  pub env_overrides : Map Str Str

-- A function that returns a result, or false with an error, or that throws.
pub data Outcome (A : Type 0) : Type 0 where
  done : A → Outcome A
  refused : Str → Outcome A
  thrown : Outcome A

unfoldable pub and_then : {A B : Type 0} → Outcome A → (A → Outcome B) → Outcome B
and_then (done a) f = f a
and_then (refused e) f = refused e
and_then thrown f = thrown

-- if (!b) { error = e; return false; }
unfoldable pub require : {A : Type 0} → Bool → Str → Outcome A → Outcome A
require true e next = next
require false e next = refused e

abbrev pub of_read : {A : Type 0} → Read A → Outcome A
of_read none = thrown
of_read (some a) = done a

unfoldable pub binary_exists : Machine → Str → Bool
binary_exists machine bin = if is_empty bin then false else machine.which bin

abbrev pub is_blank : ℕ → Bool
is_blank c = (c == 10) || ((c == 13) || ((c == 32) || (c == 9)))

unfoldable pub trim_back : Str → Str
trim_back [] = []
trim_back (c ∷ s) = let rest = trim_back s in if is_empty rest && is_blank c then [] else c ∷ rest

unfoldable pub trim_front : Str → Str
trim_front [] = []
trim_front (c ∷ s) = let rest = trim_front s in if is_blank c then rest else c ∷ s

unfoldable pub trim : Str → Str
unfolding trim_back trim_front
trim s = trim_front (trim_back s)

unfoldable pub detect_runtime_version : Machine → Str → List Str → Outcome Str
unfolding trim
detect_runtime_version machine command args = elim (machine.output command args) [
  | none ↦ thrown
  | some (out, err) ↦
      if not (is_empty (trim out))
      then done (trim out)
      else if is_empty (trim err)
      then done (codes "unknown")
      else done (trim err)
]

-- The loop of has_prepare_command; a step's command of another type throws.
unfoldable pub any_step : Str → Items → Read Bool
unfolding value_text
any_step command no_items = some false
any_step command (item step l) =
    let rest = any_step command l in
    if is_object step
    then elim (value_text (codes "command") step []) [
      | none ↦ none
      | some c ↦ if c == command then some true else rest
    ]
    else rest

unfoldable pub has_prepare_command : Json → Str → Read Bool
unfolding field any_step value
has_prepare_command manifest command = elim (value (codes "prepare") manifest (array no_items)) [
  | none ↦ none
  | some (array l) ↦ any_step command l
  | some prepare ↦ some false
]

unfoldable pub path_looks_local_binary : Str → Bool
unfolding is_prefix
path_looks_local_binary command =
    not (is_empty command) && (is_prefix (codes "./") command || is_prefix (codes "../") command)

unfoldable pub lower : Str → Str
lower [] = []
lower (c ∷ s) = tolower c ∷ lower s

unfoldable pub ends_with_exe : Str → Bool
unfolding lower
ends_with_exe s = not (ltb (length s) 4) && (lower (drop (length s - 4) s) == codes ".exe")

unfoldable pub normalize_local_binary : Str → Str
unfolding path_looks_local_binary ends_with_exe
normalize_local_binary command =
    if not (path_looks_local_binary command)
    then command
    else if ends_with_exe command
    then take (length command - 4) command
    else command

-- The arguments of run that are texts.
unfoldable pub text_args : Items → List Str
text_args no_items = []
text_args (item (text s) l) = s ∷ text_args l
text_args (item v l) = text_args l

unfoldable pub run_args_of : Json → List Str
unfolding field text_args
run_args_of run = elim (field (codes "args") run) [ some (array l) ↦ text_args l | other ↦ [] ]
