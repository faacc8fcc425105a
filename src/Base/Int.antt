-- ===== src/Base/Int.antt =====
-- Go's signed `int`. `negsuc n` is -(n + 1).
use Prim.Native.Nat.{ℕ, ◌-◌, ◌≤◌}
use mathlib.Core.Path.{◌≡◌}
use mathlib.Core.Bool.{Bool, true, false}
use frridge.Base.Tests.{ltb, nat_eq}

pub data ℤ : Type 0 where
  pos : ℕ → ℤ
  negsuc : ℕ → ℤ

-- `x < 0`
abbrev pub is_negative : ℤ → Bool
is_negative (pos n) = false
is_negative (negsuc n) = true

-- `x <= 0`
abbrev pub is_non_positive : ℤ → Bool
is_non_positive (pos n) = nat_eq n 0
is_non_positive (negsuc n) = true

-- `x > n`
abbrev pub exceeds : ℤ → ℕ → Bool
exceeds (pos m) n = ltb n m
exceeds (negsuc m) n = false

-- `uint64(x)`: an int that is not negative is below 2^63, and a negative one wraps.
abbrev pub to_uint64 : ℤ → ℕ
to_uint64 (pos n) = n
to_uint64 (negsuc n) = 18446744073709551615 - n

-- `x == 0`
abbrev pub is_zero : ℤ → Bool
is_zero (pos n) = nat_eq n 0
is_zero (negsuc n) = false

-- `x == y`
abbrev pub int_eq : ℤ → ℤ → Bool
int_eq (pos m) (pos n) = nat_eq m n
int_eq (negsuc m) (negsuc n) = nat_eq m n
int_eq _ _ = false

-- `x` is the number `n`, which lies between the bounds.
pub record InRange (lo hi : ℕ) (x : ℤ) : Type 0 where
  pub number : ℕ
  pub is_number : ◌≡◌ x (pos number)
  pub at_least : lo ≤ number
  pub at_most : number ≤ hi
