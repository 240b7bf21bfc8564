-- ===== src/Queue/Search.antt =====
-- pkg/analyzer/utils.go: WithinTolerance and BinarySearch.
use inferno_autoscaler.Base.{
  ℕ, zero, suc, Bool, true, false, not, ◌&&◌, ◌||◌, Option, none, some, if◌then◌else◌, Float,
  nought,
}

-- Whether the target is below, within or above the range: -1, 0 or +1.
pub data Indicator : Type 0 where
  below within above : Indicator

-- What BinarySearch returns: a point with the indicator, or an error.
pub data Answer (F : Type 0) : Type 0 where
  found : F → Indicator → Answer F
  invalid_range : (x_min x_max : F) → Answer F
  invalid_evaluation : Answer F

abbrev pub max_iterations : ℕ
max_iterations = 100

module _ {F : Type 0} ⦃f : Float F⦄ where
  open f use {add, sub, mul, div, lt, eq, decimal}

  abbrev pub epsilon : F
  epsilon = decimal 1 6

  -- x <= y; false where either is NaN
  abbrev pub le : F → F → Bool
  le x y = lt x y || eq x y

  -- math.Abs
  abbrev pub abs : F → F
  abs x = if lt x nought then sub nought x else x

  -- The widening to float64 is exact, so the values compare as they are.
  unfoldable pub within_tolerance : (x value tolerance : F) → Bool
  within_tolerance x value tolerance =
      if eq x value
      then true
      else if eq value nought || lt tolerance nought
      then false
      else le (abs (div (sub x value) value)) tolerance

  abbrev pub is_close : F → F → Bool
  is_close y target = within_tolerance y target epsilon

  abbrev pub midpoint : F → F → F
  midpoint x_min x_max = mul (decimal 5 1) (add x_min x_max)

  -- Whether the target lies on the lower side of a value of the function.
  abbrev pub is_lower : (increasing : Bool) → (target y : F) → Bool
  is_lower increasing target y = increasing && lt target y || not increasing && lt y target

  -- Whether it lies on the upper side.
  abbrev pub is_upper : (increasing : Bool) → (target y : F) → Bool
  is_upper increasing target y = increasing && lt y target || not increasing && lt target y

  -- `eval` is the function argument: it may change its state, and `none` is its error.
  module _ {S : Type 0} (eval : S → F → S × Option F) (target : F) (increasing : Bool) where
    -- The loop, with the iterations that are left and xStar.
    unfoldable pub search_loop : ℕ → S → (x_min x_max x_star : F) → S × Answer F
    search_loop zero s x_min x_max x_star = (s, found x_star within)
    search_loop (suc n) s x_min x_max x_star =
        let x = midpoint x_min x_max in
        let (s', y) = eval s x in
        let lower_half = search_loop n s' x_min x x in
        let upper_half = search_loop n s' x x_max x in
        elim y [
          | none ↦ (s', invalid_evaluation)
          | some y ↦
              if is_close y target
              then (s', found x within)
              else if is_lower increasing target y
              then lower_half
              else upper_half
        ]

  module _ {S : Type 0} (eval : S → F → S × Option F) (x_min x_max target : F) where
    -- From the values at both ends on.
    unfoldable pub search_inside : S → (y_min y_max : F) → S × Answer F
    search_inside s y_min y_max =
        let increasing = lt y_min y_max in
        if is_lower increasing target y_min
        then (s, found x_min below)
        else if is_upper increasing target y_max
        then (s, found x_max above)
        else search_loop eval target increasing max_iterations s x_min x_max nought

    -- The end xMax, after the value at xMin.
    unfoldable pub search_right : S → (y_min : F) → S × Answer F
    search_right s y_min =
        let (s', y) = eval s x_max in
        elim y [
          | none ↦ (s', invalid_evaluation)
          | some y_max ↦
              if is_close y_max target
              then (s', found x_max within)
              else search_inside s' y_min y_max
        ]

    unfoldable pub binary_search : S → S × Answer F
    binary_search s =
        let (s', y) = eval s x_min in
        if lt x_max x_min then (s, invalid_range x_min x_max) else elim y [
          | none ↦ (s', invalid_evaluation)
          | some y_min ↦
              if is_close y_min target then (s', found x_min within) else search_right s' y_min
        ]
