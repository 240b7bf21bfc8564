-- ===== src/Base/Doubles.antt =====
-- float64 beside float32: the conversions, and what the code takes of Go's `math`; with Go's built-in
-- `min` and `max` of floats.
use mathlib.Core.Bool.{Bool, not}
use inferno_autoscaler.Base.Int.{ℤ}
use inferno_autoscaler.Base.Tests.{if◌then◌else◌}
use inferno_autoscaler.Base.Floats.{Float}

pub record Double (D : Type 0) : Type 0 where
  -- math.IsInf(x, 0) and math.IsNaN(x)
  pub is_inf : D → Bool
  pub is_nan : D → Bool
  -- math.MaxFloat64
  pub max_double : D
  -- math.Pow and math.Ceil
  pub pow : D → D → D
  pub ceil : D → D
  -- int(x)
  pub to_int : D → ℤ

-- float64(x) and float32(x)
pub record Conversion (F D : Type 0) : Type 0 where
  pub widen : F → D
  pub narrow : D → F

module _ {F : Type 0} ⦃f : Float F⦄ where
  -- NaN, if an argument is NaN. The two zeros are one to this comparison.
  unfoldable pub float_min : F → F → F
  float_min x y =
      if not (f.eq x x) then x else if not (f.eq y y) then y else if f.lt y x then y else x

  unfoldable pub float_max : F → F → F
  float_max x y =
      if not (f.eq x x) then x else if not (f.eq y y) then y else if f.lt x y then y else x
