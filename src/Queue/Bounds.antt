-- ===== src/Queue/Bounds.antt =====
-- BinarySearch answers with a point of its range.
use inferno_autoscaler.Base.{
  ℕ, zero, suc, Bool, false, Option, ◌≡◌, refl, Float, Bool-cases, Option-cases, inl, inr,
  IsOrdered, nought,
}
use inferno_autoscaler.Queue.Search.{
  Answer, found, invalid_range, invalid_evaluation, midpoint, is_close, is_lower, is_upper,
  max_iterations, search_loop, search_inside, search_right, binary_search,
}

module _ {F : Type 0} ⦃f : Float F⦄ where
  open f use {lt}

  -- A point is in a range.
  abbrev pub IsIn : F → F → F → Type 0
  IsIn x_min x_max x = (lt x x_min ≡ false) × (lt x_max x ≡ false)

  -- The point of an answer, if it has one, is in a range.
  abbrev pub AnswerIsIn : F → F → Answer F → Type 0
  AnswerIsIn x_min x_max (found x i) = IsIn x_min x_max x
  AnswerIsIn x_min x_max (invalid_range a b) = Unit
  AnswerIsIn x_min x_max invalid_evaluation = Unit

  module _ {S : Type 0} (eval : S → F → S × Option F) (target : F) where
    -- The first iteration does not read xStar.
    pub search_loop_any :
        (increasing : Bool) (n : ℕ) (s : S) (a b x y : F)
        → search_loop eval target increasing (suc n) s a b x
          ≡ search_loop eval target increasing (suc n) s a b y
    unfolding search_loop
    search_loop_any increasing n s a b x y = refl

  module _ {S : Type 0} (eval : S → F → S × Option F) (x_min x_max target : F)
      (halves : (a b : F)
        → IsIn x_min x_max a
        → IsIn x_min x_max b
        → IsIn x_min x_max (midpoint a b)) where
    search_loop-AnswerIsIn :
        (increasing : Bool) (n : ℕ) (s : S) (a b x : F)
        → IsIn x_min x_max a
        → IsIn x_min x_max b
        → IsIn x_min x_max x
        → AnswerIsIn x_min x_max (search_loop eval target increasing n s a b x).1
    unfolding search_loop
    search_loop-AnswerIsIn increasing zero s a b x ha hb hx = hx
    search_loop-AnswerIsIn increasing (suc n) s a b x ha hb hx =
        let m = midpoint a b in
        let hm = halves a b ha hb in
        let s' = (eval s m).0 in
        let lower = search_loop-AnswerIsIn increasing n s' a m m ha hm hm in
        let upper = search_loop-AnswerIsIn increasing n s' m b m hm hb hm in
        elim (Option-cases (eval s m).1) [
          | inl fails ↦ rw (search_loop, fails) tt
          | inr (y, value) ↦ elim (Bool-cases (is_close y target)) [
            | inl close ↦ rw (search_loop, value, close) hm
            | inr far ↦ elim (Bool-cases (is_lower increasing target y)) [
              | inl low ↦ rw (search_loop, value, far, low) lower
              | inr high ↦ rw (search_loop, value, far, high) upper
            ]
          ]
        ]

    search_inside-AnswerIsIn :
        (s : S) (y_min y_max : F)
        → IsIn x_min x_max x_min
        → IsIn x_min x_max x_max
        → AnswerIsIn x_min x_max (search_inside eval x_min x_max target s y_min y_max).1
    unfolding search_inside
    search_inside-AnswerIsIn s y_min y_max left right =
        let increasing = lt y_min y_max in
        elim (Bool-cases (is_lower increasing target y_min)) [
          | inl low ↦ rw (search_inside, low) left
          | inr not_low ↦ elim (Bool-cases (is_upper increasing target y_max)) [
            | inl high ↦ rw (search_inside, not_low, high) right
            | inr not_high ↦
                rw
                  (
                    search_inside,
                    not_low,
                    not_high,
                    search_loop_any eval target increasing 99 s x_min x_max nought x_min,
                  )
                  (search_loop-AnswerIsIn increasing max_iterations s x_min x_max x_min left right
                    left)
          ]
        ]

    search_right-AnswerIsIn :
        (s : S) (y_min : F)
        → IsIn x_min x_max x_min
        → IsIn x_min x_max x_max
        → AnswerIsIn x_min x_max (search_right eval x_min x_max target s y_min).1
    unfolding search_right
    search_right-AnswerIsIn s y_min left right = elim (Option-cases (eval s x_max).1) [
      | inl fails ↦ rw (search_right, fails) tt
      | inr (y, value) ↦ elim (Bool-cases (is_close y target)) [
        | inl close ↦ rw (search_right, value, close) right
        | inr far ↦
            rw (search_right, value, far)
              (search_inside-AnswerIsIn (eval s x_max).0 y_min y left right)
      ]
    ]

    -- If the point halfway between any two points of the range is in the range (which holds of floats
    -- whose sum does not overflow), then whatever function is searched, and whether or not it is
    -- monotone or changes its state, the point that BinarySearch answers with is in the range. The
    -- order of the floats is that of IEEE 754.
    pub binary_search-AnswerIsIn :
        IsOrdered F → (s : S) → AnswerIsIn x_min x_max (binary_search eval x_min x_max target s).1
    unfolding binary_search
    binary_search-AnswerIsIn laws s = elim (Bool-cases (lt x_max x_min)) [
      | inl empty ↦ rw (binary_search, empty) tt
      | inr range ↦
          let left : IsIn x_min x_max x_min = (laws.lt_irrefl x_min, range) in
          let right : IsIn x_min x_max x_max = (range, laws.lt_irrefl x_max) in
          elim (Option-cases (eval s x_min).1) [
            | inl fails ↦ rw (binary_search, range, fails) tt
            | inr (y, value) ↦ elim (Bool-cases (is_close y target)) [
              | inl close ↦ rw (binary_search, range, value, close) left
              | inr far ↦
                  rw (binary_search, range, value, far)
                    (search_right-AnswerIsIn (eval s x_min).0 y left right)
            ]
          ]
    ]
