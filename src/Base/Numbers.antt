-- ===== src/Base/Numbers.antt =====
-- Python's `int` and `float` where the program only compares them.
use Prim.Native.Nat.{ℕ, ◌*◌}
use mathlib.Core.Bool.{Bool, true, false, not, ◌&&◌, ◌||◌}
use vibe_voice_vendor.Base.Tests.{◌==◌, leb, ltb, Fraction}

-- The sizes of the negative integers do not matter.
pub data WholeNumber : Type 0 where
  natural : ℕ → WholeNumber
  negative : WholeNumber

-- A float: finite, with whether it is negative and the quotient that it is otherwise; or not.
pub data Float : Type 0 where
  finite : Bool → Fraction → Float
  infinite : Bool → Float
  nan : Float

-- math.isfinite
abbrev pub is_finite : Float → Bool
is_finite (finite below x) = true
is_finite (infinite below) = false
is_finite nan = false

-- The comparisons with a whole number; those with NaN fail.
abbrev pub below_zero : Float → Bool
below_zero (finite below x) = below && not (x.num == 0)
below_zero (infinite below) = below
below_zero nan = false

abbrev pub at_most_zero : Float → Bool
at_most_zero (finite below x) = below || x.num == 0
at_most_zero (infinite below) = below
at_most_zero nan = false

abbrev pub at_least : ℕ → Float → Bool
at_least n (finite below x) = not below && leb (n * x.den) x.num
at_least n (infinite below) = not below
at_least n nan = false

abbrev pub above : ℕ → Float → Bool
above n (finite below x) = not below && ltb (n * x.den) x.num
above n (infinite below) = not below
above n nan = false
