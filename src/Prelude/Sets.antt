-- ===== src/Prelude/Sets.antt =====
-- std::unordered_set as a list, and maps from keys to sets that drop a set when it gets empty.
use mathlib.Core.Path.{◌≡◌, refl}
use mathlib.Core.Bool.{Bool, false, not, ◌&&◌, ◌||◌}
use mathlib.Core.List.{List, [], ◌∷◌}
use mathlib.Core.Option.{Option, none, some}
use native.Mathlib.Omega.{arith}
use velix.Prelude.Tests.{if◌then◌else◌}
use velix.Prelude.Lists.{is_empty, is_empty-nil}
use velix.Prelude.Equality.{Eq, ◌==◌, ==_iff}
use velix.Prelude.Maps.{Map, find, erase, insert, find-erase, find-insert}

abbrev pub or_nil {ℓ} : {A : Type ℓ} → Option (List A) → List A
or_nil none = []
or_nil (some s) = s

module _ {ℓ} {A : Type ℓ} ⦃e : Eq A⦄ where
  unfoldable pub contains : A → List A → Bool
  contains a [] = false
  contains a (x ∷ xs) = x == a || contains a xs

  unfoldable pub set_insert : A → List A → List A
  unfolding contains
  set_insert a xs = if contains a xs then xs else a ∷ xs

  unfoldable pub set_erase : A → List A → List A
  set_erase a [] = []
  set_erase a (x ∷ xs) = let rest = set_erase a xs in if x == a then rest else x ∷ rest

  pub contains-nil : (a : A) → contains a [] ≡ false
  unfolding contains
  contains-nil a = refl

  pub contains-set_insert :
      (a b : A) (xs : List A) → contains b (set_insert a xs) ≡ (a == b || contains b xs)
  unfolding set_insert
  contains-set_insert a b xs = ground (arith, ==_iff a b)

  pub contains-set_erase :
      (a b : A) (xs : List A) → contains b (set_erase a xs) ≡ (not (a == b) && contains b xs)
  unfolding contains set_erase
  contains-set_erase a b [] = ground arith
  contains-set_erase a b (x ∷ xs) =
      ground (arith, contains-set_erase a b xs, ==_iff x a, ==_iff x b, ==_iff a b)

module _ {ℓ κ} {K : Type ℓ} {A : Type κ} ⦃e : Eq K⦄ ⦃d : Eq A⦄ where
  unfoldable pub members : K → Map K (List A) → List A
  members k m = or_nil (find k m)

  -- m[k].insert(a)
  unfoldable pub add_member : K → A → Map K (List A) → Map K (List A)
  unfolding members
  add_member k a m = insert k (set_insert a (members k m)) m

  -- Erase a from the set at k, and the entry at k with its last element.
  unfoldable pub remove_member : K → A → Map K (List A) → Map K (List A)
  remove_member k a m = elim (find k m) [
    | none ↦ m
    | some s ↦ if is_empty (set_erase a s) then erase k m else insert k (set_erase a s) m
  ]

  pub members-add_member :
      (k j : K) (a : A) (m : Map K (List A))
      → members j (add_member k a m) ≡ (if k == j then set_insert a (members j m) else members j m)
  unfolding members add_member
  members-add_member k j a m =
      ground (arith, find-insert k j (set_insert a (members k m)) m, ==_iff k j)

  pub members-remove_member :
      (k j : K) (a : A) (m : Map K (List A))
      → members j (remove_member k a m)
        ≡ (if k == j then set_erase a (members j m) else members j m)
  unfolding members remove_member set_erase
  members-remove_member k j a m = ground (
    arith,
    ==_iff k j,
    find-erase k j m,
    find-insert k j (set_erase a (members k m)) m,
    is_empty-nil (set_erase a (members k m)),
  )

  pub members-erase :
      (k j : K) (m : Map K (List A)) → members j (erase k m) ≡ (if k == j then [] else members j m)
  unfolding members
  members-erase k j m = ground (arith, find-erase k j m, ==_iff k j)

  pub contains-add_member :
      (k j : K) (a b : A) (m : Map K (List A))
      → contains b (members j (add_member k a m)) ≡ ((k == j && a == b) || contains b (members j m))
  contains-add_member k j a b m =
      ground (arith, members-add_member k j a m, contains-set_insert a b (members j m))

  pub contains-remove_member :
      (k j : K) (a b : A) (m : Map K (List A))
      → contains b (members j (remove_member k a m))
        ≡ (not (k == j && a == b) && contains b (members j m))
  contains-remove_member k j a b m =
      ground (arith, members-remove_member k j a m, contains-set_erase a b (members j m))

  pub contains-erase :
      (k j : K) (b : A) (m : Map K (List A))
      → contains b (members j (erase k m)) ≡ (not (k == j) && contains b (members j m))
  unfolding contains
  contains-erase k j b m = ground (arith, members-erase k j m)
