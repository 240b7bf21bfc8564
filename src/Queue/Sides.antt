-- ===== src/Queue/Sides.antt =====
-- On which side of a value of a monotone function a target lies.
use inferno_autoscaler.Base.{Bool, true, false, ◌≡◌, arith, Float}
use inferno_autoscaler.Queue.Search.{is_lower, is_upper}

module _ {F : Type 0} ⦃f : Float F⦄ where
  -- The target is reached further to the left: it is less than a value of an increasing function, or more
  -- than one of a decreasing function.
  abbrev pub lies_left : (increasing : Bool) → (target y : F) → Bool
  lies_left true target y = f.lt target y
  lies_left false target y = f.lt y target

  -- It is reached further to the right.
  abbrev pub lies_right : (increasing : Bool) → (target y : F) → Bool
  lies_right true target y = f.lt y target
  lies_right false target y = f.lt target y

  pub lies_left_lem :
      (increasing : Bool) (target y : F)
      → lies_left increasing target y ≡ is_lower increasing target y
  lies_left_lem true target y = ground arith
  lies_left_lem false target y = ground arith

  pub lies_right_lem :
      (increasing : Bool) (target y : F)
      → lies_right increasing target y ≡ is_upper increasing target y
  lies_right_lem true target y = ground arith
  lies_right_lem false target y = ground arith
