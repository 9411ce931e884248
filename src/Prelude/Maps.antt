-- ===== src/Prelude/Maps.antt =====
-- std::unordered_map as an association list: the lookups determine it. No theorem uses the order.
use mathlib.Core.Path.{◌≡◌}
use mathlib.Core.List.{List, [], ◌∷◌}
use mathlib.Core.Option.{Option, none, some}
use mathlib.Core.Bool.{Bool}
use native.Mathlib.Omega.{arith}
use velix.Prelude.Tests.{if◌then◌else◌}
use velix.Prelude.Equality.{Eq, ◌==◌, ==_iff}

abbrev pub Map {ℓ κ} : Type ℓ → Type κ → Type (ℓ ⊔ κ)
Map K V = List (K × V)

abbrev pub map_option {ℓ κ} : {A : Type ℓ} {B : Type κ} → (A → B) → Option A → Option B
map_option f none = none
map_option f (some a) = some (f a)

module _ {ℓ κ} {K : Type ℓ} {V : Type κ} ⦃e : Eq K⦄ where
  unfoldable pub find : K → Map K V → Option V
  find k [] = none
  find k ((j, v) ∷ m) = if j == k then some v else find k m

  -- erase(k)
  unfoldable pub erase : K → Map K V → Map K V
  erase k [] = []
  erase k ((j, v) ∷ m) = let rest = erase k m in if j == k then rest else (j, v) ∷ rest

  -- m[k] = v
  unfoldable pub insert : K → V → Map K V → Map K V
  unfolding erase
  insert k v m = (k, v) ∷ erase k m

  -- A write through an iterator or a shared pointer found at k.
  unfoldable pub modify : K → (V → V) → Map K V → Map K V
  modify k f [] = []
  modify k f ((j, v) ∷ m) = let rest = modify k f m in (j, if j == k then f v else v) ∷ rest

  pub find-erase :
      (k j : K) (m : Map K V) → find j (erase k m) ≡ (if k == j then none else find j m)
  unfolding find erase
  find-erase k j [] = ground arith
  find-erase k j ((i, v) ∷ m) = ground (arith, find-erase k j m, ==_iff i k, ==_iff i j, ==_iff k j)

  pub find-insert :
      (k j : K) (v : V) (m : Map K V)
      → find j (insert k v m) ≡ (if k == j then some v else find j m)
  unfolding find insert
  find-insert k j v m = ground (arith, find-erase k j m)

  pub find-modify :
      (k j : K) (f : V → V) (m : Map K V)
      → find j (modify k f m) ≡ (if k == j then map_option f (find j m) else find j m)
  unfolding find modify
  find-modify k j f [] = ground arith
  find-modify k j f ((i, v) ∷ m) =
      ground (arith, find-modify k j f m, ==_iff i k, ==_iff i j, ==_iff k j)

  -- Every key stands once.
  abbrev pub Unique : Map K V → Type (ℓ ⊔ κ)
  Unique [] = Unit
  Unique ((k, v) ∷ m) = (find k m ≡ none) × Unique m

  pub erase-Unique : (k : K) (m : Map K V) → Unique m → Unique (erase k m)
  unfolding erase
  erase-Unique k [] u = u
  erase-Unique k ((j, v) ∷ m) u = ground (arith, erase-Unique k m u.1, find-erase k j m, u.0)

  pub insert-Unique : (k : K) (v : V) (m : Map K V) → Unique m → Unique (insert k v m)
  unfolding insert
  insert-Unique k v m u = ground (arith, erase-Unique k m u, find-erase k k m, ==_iff k k)

  pub modify-Unique : (k : K) (f : V → V) (m : Map K V) → Unique m → Unique (modify k f m)
  unfolding modify
  modify-Unique k f [] u = u
  modify-Unique k f ((j, v) ∷ m) u =
      ground (arith, modify-Unique k f m u.1, find-modify k j f m, u.0)

abbrev pub filter_option {ℓ} : {A : Type ℓ} → (A → Bool) → Option A → Option A
filter_option p none = none
filter_option p (some a) = if p a then some a else none

module _ {ℓ κ} {K : Type ℓ} {V : Type κ} where
  -- The loop that erases, while it iterates, the entries that fail a test.
  unfoldable pub keep : (V → Bool) → Map K V → Map K V
  keep p [] = []
  keep p ((j, v) ∷ m) = let rest = keep p m in if p v then (j, v) ∷ rest else rest

  -- The loop that collects the keys of the entries that pass a test.
  unfoldable pub keys_where : (V → Bool) → Map K V → List K
  keys_where p [] = []
  keys_where p ((j, v) ∷ m) = let rest = keys_where p m in if p v then j ∷ rest else rest

module _ {ℓ κ} {K : Type ℓ} {V : Type κ} ⦃e : Eq K⦄ where
  pub find-keep :
      (p : V → Bool) (k : K) (m : Map K V)
      → Unique m
      → find k (keep p m) ≡ filter_option p (find k m)
  unfolding find keep
  find-keep p k [] u = ground arith
  find-keep p k ((j, v) ∷ m) u = ground (arith, find-keep p k m u.1, ==_iff j k, u.0)

  pub keep-Unique : (p : V → Bool) (m : Map K V) → Unique m → Unique (keep p m)
  unfolding keep
  keep-Unique p [] u = u
  keep-Unique p ((j, v) ∷ m) u = ground (arith, keep-Unique p m u.1, find-keep p j m u.1, u.0)
