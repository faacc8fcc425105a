-- ===== src/Base/Text/Laws.antt =====
-- Laws of trimming and of the last path element.
use Prim.Native.Char.{Char}
use Prim.Native.String.{String, [], ◌∷◌}
use mathlib.Core.Path.{◌≡◌, refl, ◌∙◌, ap}
use mathlib.Core.Logic.{inl, inr}
use mathlib.Core.Bool.{Bool, false}
use native.Mathlib.Omega.{arith}
use frridge.Base.Tests.{Bool-cases}
use frridge.Base.Text.{trim_left, trim_right, trim, has, before_rest, is_slash, last_element}

pub has-last_element : (s : String) → has is_slash (last_element s) ≡ false
unfolding has last_element
has-last_element [] = refl
has-last_element (c ∷ s) = ground (arith, has-last_element s)

pub last_element_of_no_slash : (s : String) → has is_slash s ≡ false → last_element s ≡ s
unfolding has last_element
last_element_of_no_slash [] h = refl
last_element_of_no_slash (c ∷ s) h = ground arith

module _ (p : Char → Bool) where
  pub trim_right_of_none : (s : String) → has p s ≡ false → trim_right p s ≡ s
  unfolding has trim_right
  trim_right_of_none [] h = refl
  trim_right_of_none (c ∷ []) h = ground arith
  trim_right_of_none (c ∷ d ∷ s) h = rw (trim_right_of_none (d ∷ s) (ground arith))

  pub before_rest_idem :
      (c : Char) (s : String)
      → trim_right p s ≡ s
      → trim_right p (before_rest p c s) ≡ before_rest p c s
  unfolding trim_right
  before_rest_idem c [] h = elim (Bool-cases (p c)) [ inl e ↦ rw e | inr e ↦ rw e (rw e) ]
  before_rest_idem c (d ∷ s) h = ap (before_rest p c) h

  pub trim_right_idem : (s : String) → trim_right p (trim_right p s) ≡ trim_right p s
  unfolding trim_right
  trim_right_idem [] = refl
  trim_right_idem (c ∷ s) = before_rest_idem c (trim_right p s) (trim_right_idem s)

  pub trim_left_of_head : (c : Char) (s : String) → p c ≡ false → trim_left p (c ∷ s) ≡ c ∷ s
  unfolding trim_left
  trim_left_of_head c s h = ground arith

  -- What is trimmed begins with no trimmed character.
  trim_left-before_rest :
      (c : Char) (s : String) → p c ≡ false → trim_left p (before_rest p c s) ≡ before_rest p c s
  unfolding trim_left
  trim_left-before_rest c [] h = ground arith
  trim_left-before_rest c (d ∷ s) h = ground arith

  trim_left-trim : (s : String) → trim_left p (trim p s) ≡ trim p s
  unfolding trim
  trim_left-trim [] = refl
  trim_left-trim (c ∷ s) = elim (Bool-cases (p c)) [
    | inl e ↦ rw e (trim_left-trim s)
    | inr e ↦ rw e (trim_left-before_rest c (trim_right p s) e)
  ]

  pub trim_idem : (s : String) → trim p (trim p s) ≡ trim p s
  unfolding trim
  trim_idem s = ap (trim_right p) (trim_left-trim s) ∙ trim_right_idem (trim_left p s)
