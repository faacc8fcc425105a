-- ===== src/Base/Lists.antt =====
-- Lists and predicates over them.
use Prim.Native.Nat.{ℕ, suc}
use Prim.Native.String.{String}
use mathlib.Core.Path.{◌≡◌}
use mathlib.Core.Bool.{Bool, false, ◌||◌}
use mathlib.Core.List.{List, [], ◌∷◌}
use text.Mathlib.Text.{◌==◌}

module _ {ℓ} {A : Type ℓ} where
  abbrev pub length : List A → ℕ
  length [] = 0
  length (x ∷ xs) = suc (length xs)

abbrev pub All {ℓ κ} : {A : Type ℓ} → (A → Type κ) → List A → Type κ
All P [] = Unit
All P (x ∷ xs) = P x × All P xs

-- `slices.Contains`
abbrev pub contains : List String → String → Bool
contains [] a = false
contains (x ∷ xs) a = (x == a) || contains xs a

-- No text stands in the list twice.
abbrev pub Distinct : List String → Type 0
Distinct [] = Unit
Distinct (x ∷ xs) = (contains xs x ≡ false) × Distinct xs
