-- ===== src/Base/Float.antt =====
-- The 64-bit floats as far as the program looks at them: written down, compared with 0, and passed on.
use turl.Base.{ℕ, Bool, false, ◌==◌}
use turl.Base.Int.{ℤ, pos}

-- A finite float is its sign, its significand and the power of two by which the significand is multiplied.
pub data Float : Type 0 where
  finite : Bool → ℕ → ℤ → Float
  infinite : Bool → Float
  not_a_number : Float

-- `x == 0`: so for both zeros, and not for the value that is no number.
unfoldable pub is_zero : Float → Bool
is_zero (finite negative significand exponent) = significand == 0
is_zero (infinite negative) = false
is_zero not_a_number = false

abbrev pub one : Float
one = finite false 1 (pos 0)
