-- ===== src/Base/Lists.antt =====
-- Lists measured by native numbers, and the tests on lists that the program uses.
use Prim.Native.Nat.{ℕ, suc}
use Prim.Native.String.{String}
use mathlib.Core.Path.{◌≡◌, refl}
use mathlib.Core.Logic.{◌⊎◌}
use mathlib.Core.Bool.{Bool, true, false, not, ◌&&◌, ◌||◌}
use mathlib.Core.List.{List, [], ◌∷◌, ◌++◌}
use native.Mathlib.Omega.{arith}
use text.Mathlib.Text.{◌==◌ as str_eq}
use text.Mathlib.TextEquality.{eq_iff}

module _ {ℓ} {A : Type ℓ} where
  abbrev pub length : List A → ℕ
  length [] = 0
  length (x ∷ xs) = suc (length xs)

  abbrev pub all : (A → Bool) → List A → Bool
  all p [] = true
  all p (x ∷ xs) = p x && all p xs

  abbrev pub any : (A → Bool) → List A → Bool
  any p [] = false
  any p (x ∷ xs) = p x || any p xs

  -- The items that pass the test, in their order.
  abbrev pub select : (A → Bool) → List A → List A
  select p [] = []
  select p (x ∷ xs) = let rest = select p xs in elim (p x) [ true ↦ x ∷ rest | false ↦ rest ]

module _ {ℓ κ} {A : Type ℓ} (P : A → Type κ) where
  abbrev pub All : List A → Type κ
  All [] = Unit
  All (x ∷ xs) = P x × All xs

-- `key in keys`
abbrev pub elem : String → List String → Bool
elem k [] = false
elem k (j ∷ js) = str_eq k j || elem k js

-- `set(a) <= set(b)`
abbrev pub subset : List String → List String → Bool
subset [] ys = true
subset (x ∷ xs) ys = elem x ys && subset xs ys

-- `set(a) == set(b)`
abbrev pub same_set : List String → List String → Bool
same_set xs ys = subset xs ys && subset ys xs

-- `len(a) == len(set(a))`
abbrev pub distinct : List String → Bool
distinct [] = true
distinct (x ∷ xs) = not (elem x xs) && distinct xs

pub elem-append : (k : String) (xs ys : List String) → elem k (xs ++ ys) ≡ (elem k xs || elem k ys)
elem-append k [] ys = refl
elem-append k (x ∷ xs) ys = ground (arith, elem-append k xs ys)

-- A member of a subset is a member of the whole.
pub elem-subset :
    (k : String) (xs ys : List String) → subset xs ys ≡ true → elem k xs ≡ true → elem k ys ≡ true
elem-subset k [] ys h m = ground arith
elem-subset k (x ∷ xs) ys h m = ground (arith, eq_iff k x, elem-subset k xs ys)

-- Some item of the list satisfies the predicate.
abbrev pub Some : {A : Type 0} → (A → Type 0) → List A → Type 0
Some P [] = ⊥
Some P (y ∷ ys) = P y ⊎ Some P ys
