-- ===== src/Prelude/Lists.antt =====
-- Lists measured by native numbers, tests over lists, and the set operations that the program
-- makes over lists of texts.
use Prim.Native.Nat.{ℕ, suc, ◌+◌}
use Prim.Native.String.{String}
use mathlib.Core.Path.{◌≡◌}
use mathlib.Core.Bool.{Bool, true, false, not, ◌&&◌, ◌||◌}
use mathlib.Core.Logic.{◌⊎◌}
use mathlib.Core.List.{List, [], ◌∷◌, ◌++◌}
use native.Mathlib.Omega.{arith}
use text.Mathlib.Text.{◌==◌}

module _ {ℓ} {A : Type ℓ} where
  abbrev pub length : List A → ℕ
  length [] = 0
  length (x ∷ xs) = suc (length xs)

  abbrev pub is_empty : List A → Bool
  is_empty [] = true
  is_empty (x ∷ xs) = false

  unfoldable pub all : (A → Bool) → List A → Bool
  all p [] = true
  all p (x ∷ xs) = p x && all p xs

  unfoldable pub any : (A → Bool) → List A → Bool
  any p [] = false
  any p (x ∷ xs) = p x || any p xs

  -- `[x for x in xs if p(x)]`
  unfoldable pub select : (A → Bool) → List A → List A
  select p [] = []
  select p (x ∷ xs) = let rest = select p xs in elim (p x) [ true ↦ x ∷ rest | false ↦ rest ]

  -- `sorted`, by insertion: `before a b` where the key of `a` is not above that of `b`
  unfoldable pub insert_by : (before : A → A → Bool) → A → List A → List A
  insert_by before a [] = a ∷ []
  insert_by before a (b ∷ rest) =
      let later = b ∷ insert_by before a rest in
      elim (before a b) [ true ↦ a ∷ b ∷ rest | false ↦ later ]

  unfoldable pub sort_by : (before : A → A → Bool) → List A → List A
  sort_by before [] = []
  sort_by before (a ∷ rest) = insert_by before a (sort_by before rest)

  pub length-append : (xs ys : List A) → length (xs ++ ys) ≡ length xs + length ys
  length-append [] ys = omega arith
  length-append (x ∷ xs) ys = omega (arith, length-append xs ys)

-- Membership by recursion, which the tactics read.
abbrev pub In : {A : Type 0} → A → List A → Type 0
In a [] = ⊥
In a (x ∷ xs) = (a ≡ x) ⊎ In a xs

-- Every entry has the property.
abbrev pub All {κ ℓ} : {Entry : Type ℓ} → (Has : Entry → Type κ) → List Entry → Type κ
All Has [] = Unit
All Has (entry ∷ entries) = Has entry × All Has entries

-- No entry stands twice.
abbrev pub Distinct : {A : Type 0} → List A → Type 0
Distinct [] = Unit
Distinct (x ∷ xs) = ¬ (In x xs) × Distinct xs

-- `name in names`
unfoldable pub contains : List String → String → Bool
contains [] s = false
contains (x ∷ xs) s = (x == s) || contains xs s

-- `len(xs) == len(set(xs))`
unfoldable pub unique : List String → Bool
unique [] = true
unique (x ∷ xs) = not (contains xs x) && unique xs

-- `set(xs).issubset(ys)`
unfoldable pub subset : List String → List String → Bool
subset [] ys = true
subset (x ∷ xs) ys = contains ys x && subset xs ys

-- `set(xs) == set(ys)`
unfoldable pub same_set : List String → List String → Bool
same_set xs ys = subset xs ys && subset ys xs

-- `xs.count(s)`
unfoldable pub count : String → List String → ℕ
count s [] = 0
count s (x ∷ xs) = let rest = count s xs in elim (x == s) [ true ↦ suc rest | false ↦ rest ]

-- `xs.index(s)`; the length where it is missing
unfoldable pub index : String → List String → ℕ
index s [] = 0
index s (x ∷ xs) = let rest = index s xs in elim (x == s) [ true ↦ 0 | false ↦ suc rest ]
