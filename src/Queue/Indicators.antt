-- ===== src/Queue/Indicators.antt =====
-- What BinarySearch says of a function that may fail and change its state.
use inferno_autoscaler.Base.{
  ℕ, zero, suc, true, false, Bool, Option, some, none, ◌≡◌, ◌⊎◌, ◌∙◌, refl, Float, Bool-cases,
  Option-cases, inl, inr, nought,
}
use inferno_autoscaler.Queue.Search.{
  Answer, found, below, within, above, invalid_range, invalid_evaluation, midpoint, is_close,
  is_lower, is_upper, max_iterations, search_loop, search_inside, search_right, binary_search,
}
use inferno_autoscaler.Queue.Sides.{lies_left, lies_right, lies_left_lem, lies_right_lem}
use inferno_autoscaler.Queue.Bounds.{search_loop_any}

module _ {F : Type 0} ⦃f : Float F⦄ {S : Type 0} (eval : S → F → S × Option F)
    (x_min x_max target : F) where
  open f use {lt}

  -- What the values at both ends of the range are, each in some state.
  abbrev pub Ends : (F → F → Type 0) → Type 0
  Ends P =
      (s : S) × (s' : S) × (y : F) × (y' : F) × ((eval s x_min).1 ≡ some y)
      × ((eval s' x_max).1 ≡ some y')
      × P y y'

  -- The target is to the left of the value at xMin, to the right of the one at xMax, or neither.
  abbrev pub IsBelow : F → F → Type 0
  IsBelow y y' = lies_left (lt y y') target y ≡ true

  abbrev pub IsAbove : F → F → Type 0
  IsAbove y y' = lies_right (lt y y') target y' ≡ true

  abbrev pub IsBetween : F → F → Type 0
  IsBetween y y' = (lies_left (lt y y') target y ≡ false) × (lies_right (lt y y') target y' ≡ false)

  -- The value at a point, in some state, is close to the target.
  abbrev pub IsHit : F → Type 0
  IsHit x = (s : S) × (y : F) × ((eval s x).1 ≡ some y) × (is_close y target ≡ true)

  -- In some state the function fails at a point.
  abbrev pub IsFailing : Type 0
  IsFailing = (s : S) × (x : F) × ((eval s x).1 ≡ none)

  abbrev pub Says : Answer F → Type 0
  Says (found x below) = (x ≡ x_min) × Ends IsBelow
  Says (found x above) = (x ≡ x_max) × Ends IsAbove
  Says (found x within) = IsHit x ⊎ Ends IsBetween
  Says (invalid_range a b) = lt x_max x_min ≡ true
  Says invalid_evaluation = IsFailing

  search_loop-Says :
      (increasing : Bool) (n : ℕ) (s : S) (a b x : F)
      → Ends IsBetween
      → Says (search_loop eval target increasing n s a b x).1
  unfolding search_loop
  search_loop-Says increasing zero s a b x ends = inr ends
  search_loop-Says increasing (suc n) s a b x ends =
      let m = midpoint a b in
      let s' = (eval s m).0 in
      let lower = search_loop-Says increasing n s' a m m ends in
      let upper = search_loop-Says increasing n s' m b m ends in
      elim (Option-cases (eval s m).1) [
        | inl fails ↦ rw (search_loop, fails) (s, m, fails)
        | inr (y, value) ↦ elim (Bool-cases (is_close y target)) [
          | inl close ↦ rw (search_loop, value, close) (inl (s, y, value, close))
          | inr far ↦ elim (Bool-cases (is_lower increasing target y)) [
            | inl low ↦ rw (search_loop, value, far, low) lower
            | inr high ↦ rw (search_loop, value, far, high) upper
          ]
        ]
      ]

  search_inside-Says :
      (s s0 s1 : S) (y_min y_max : F)
      → (eval s0 x_min).1 ≡ some y_min
      → (eval s1 x_max).1 ≡ some y_max
      → Says (search_inside eval x_min x_max target s y_min y_max).1
  unfolding search_inside
  search_inside-Says s s0 s1 y_min y_max left right =
      let increasing = lt y_min y_max in
      elim (Bool-cases (is_lower increasing target y_min)) [
        | inl low ↦
            rw (search_inside, low)
              (
                refl,
                (s0, s1, y_min, y_max, left, right, lies_left_lem increasing target y_min ∙ low),
              )
        | inr not_low ↦ elim (Bool-cases (is_upper increasing target y_max)) [
          | inl high ↦
              rw (search_inside, not_low, high)
                (
                  refl,
                  (
                    s0,
                    s1,
                    y_min,
                    y_max,
                    left,
                    right,
                    lies_right_lem increasing target y_max ∙ high,
                  ),
                )
          | inr not_high ↦
              rw
                (
                  search_inside,
                  not_low,
                  not_high,
                  search_loop_any eval target increasing 99 s x_min x_max nought x_min,
                )
                (search_loop-Says increasing max_iterations s x_min x_max x_min (
                  s0,
                  s1,
                  y_min,
                  y_max,
                  left,
                  right,
                  (
                    lies_left_lem increasing target y_min ∙ not_low,
                    lies_right_lem increasing target y_max ∙ not_high,
                  ),
                ))
        ]
      ]

  search_right-Says :
      (s s0 : S) (y_min : F)
      → (eval s0 x_min).1 ≡ some y_min
      → Says (search_right eval x_min x_max target s y_min).1
  unfolding search_right
  search_right-Says s s0 y_min left = elim (Option-cases (eval s x_max).1) [
    | inl fails ↦ rw (search_right, fails) (s, x_max, fails)
    | inr (y, value) ↦ elim (Bool-cases (is_close y target)) [
      | inl close ↦ rw (search_right, value, close) (inl (s, y, value, close))
      | inr far ↦
          rw (search_right, value, far)
            (search_inside-Says (eval s x_max).0 s0 s y_min y left value)
    ]
  ]

  pub binary_search-Says : (s : S) → Says (binary_search eval x_min x_max target s).1
  unfolding binary_search
  binary_search-Says s = elim (Bool-cases (lt x_max x_min)) [
    | inl empty ↦ rw (binary_search, empty) empty
    | inr range ↦ elim (Option-cases (eval s x_min).1) [
      | inl fails ↦ rw (binary_search, range, fails) (s, x_min, fails)
      | inr (y, value) ↦ elim (Bool-cases (is_close y target)) [
        | inl close ↦ rw (binary_search, range, value, close) (inl (s, y, value, close))
        | inr far ↦
            rw (binary_search, range, value, far) (search_right-Says (eval s x_min).0 s y value)
      ]
    ]
  ]
