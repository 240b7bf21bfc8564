-- ===== src/Queue/Answers.antt =====
-- What the indicator of BinarySearch says.
use inferno_autoscaler.Base.{
  ℕ, zero, suc, ◌+◌, subst, Bool, true, false, Option, some, ◌≡◌, ◌⊎◌, ◌∙◌, arith, refl, Float,
  Bool-cases, inl, inr, IsOrdered, nought,
}
use inferno_autoscaler.Queue.Search.{
  Indicator, Answer, found, below, within, above, midpoint, is_close, is_lower, is_upper,
  max_iterations, search_loop, search_inside, search_right, binary_search,
}
use inferno_autoscaler.Queue.Sides.{lies_left, lies_right, lies_left_lem, lies_right_lem}
use inferno_autoscaler.Queue.Bounds.{search_loop_any}

-- The intervals that halving a range some times can leave: of each, the lower or the upper half.
pub data Halved {F : Type 0} ⦃f : Float F⦄ (x_min x_max : F) : ℕ → F → F → Type 0 where
  whole : Halved x_min x_max 0 x_min x_max
  lower_half :
      {n : ℕ} {a b : F} → Halved x_min x_max n a b → Halved x_min x_max (suc n) a (midpoint a b)
  upper_half :
      {n : ℕ} {a b : F} → Halved x_min x_max n a b → Halved x_min x_max (suc n) (midpoint a b) b

module _ {F : Type 0} ⦃f : Float F⦄ (laws : IsOrdered F) {S : Type 0} (eval : S → F → S × Option F)
    (g : F → F) (value : (s : S) (x : F) → (eval s x).1 ≡ some (g x)) (x_min x_max target : F) where
  open f use {lt}

  -- The target is neither to the left of one end nor to the right of the other.
  abbrev pub Brackets : Bool → F → F → Type 0
  Brackets increasing a b =
      (lies_left increasing target (g a) ≡ false) × (lies_right increasing target (g b) ≡ false)

  -- The value at a point is close to the target, or the point is an end of an interval that a hundred
  -- halvings of the range leave, and that still brackets the target.
  abbrev pub Approaches : Bool → F → Type 0
  Approaches increasing x =
      (is_close (g x) target ≡ true)
      ⊎ ((a : F) × (b : F) × Halved x_min x_max 100 a b
          × Brackets increasing a b
          × ((x ≡ a) ⊎ (x ≡ b)))

  -- The function is taken to increase if its value at xMin is below the one at xMax.
  abbrev pub is_increasing : Bool
  is_increasing = lt (g x_min) (g x_max)

  abbrev pub Means : F → Indicator → Type 0
  Means x below = (x ≡ x_min) × (lies_left is_increasing target (g x_min) ≡ true)
  Means x within = Approaches is_increasing x
  Means x above = (x ≡ x_max) × (lies_right is_increasing target (g x_max) ≡ true)

  abbrev Answers : Answer F → Type 0
  Answers r = (x : F) × (i : Indicator) × (r ≡ found x i) × Means x i

  flip :
      (increasing : Bool) (y : F)
      → is_lower increasing target y ≡ true
      → lies_right increasing target y ≡ false
  flip true y h = ground (arith, h, laws.lt_asym target y)
  flip false y h = ground (arith, h, laws.lt_asym y target)

  search_loop-Answers :
      (n done : ℕ) (s : S) (a b x : F)
      → done + n ≡ 100
      → Halved x_min x_max done a b
      → Brackets is_increasing a b
      → (x ≡ a) ⊎ (x ≡ b)
      → Answers (search_loop eval target is_increasing n s a b x).1
  unfolding search_loop
  search_loop-Answers zero done s a b x count half bracket end =
      let whole_count : done ≡ 100 = omega arith in
      (
        x,
        within,
        refl,
        inr (a, b, subst (λ k. Halved x_min x_max k a b) whole_count half, bracket, end),
      )
  search_loop-Answers (suc n) done s a b x count half (left, right) end =
      let m = midpoint a b in
      let s' = (eval s m).0 in
      elim (Bool-cases (is_close (g m) target)) [
        | inl close ↦ rw (search_loop, value s m, close) (m, within, refl, inl close)
        | inr far ↦ elim (Bool-cases (is_lower is_increasing target (g m))) [
          | inl low ↦
              rw (search_loop, value s m, far, low)
                (search_loop-Answers n (suc done) s' a m m (omega arith) (lower_half half)
                  (left, flip is_increasing (g m) low) (inr refl))
          | inr high ↦
              rw (search_loop, value s m, far, high)
                (search_loop-Answers n (suc done) s' m b m (omega arith) (upper_half half)
                  (lies_left_lem is_increasing target (g m) ∙ high, right) (inl refl))
        ]
      ]

  search_inside-Answers :
      (s : S) → Answers (search_inside eval x_min x_max target s (g x_min) (g x_max)).1
  unfolding search_inside
  search_inside-Answers s = elim (Bool-cases (is_lower is_increasing target (g x_min))) [
    | inl low ↦
        rw (search_inside, low)
          (x_min, below, refl, (refl, lies_left_lem is_increasing target (g x_min) ∙ low))
    | inr not_low ↦ elim (Bool-cases (is_upper is_increasing target (g x_max))) [
      | inl high ↦
          rw (search_inside, not_low, high)
            (x_max, above, refl, (refl, lies_right_lem is_increasing target (g x_max) ∙ high))
      | inr not_high ↦
          rw
            (
              search_inside,
              not_low,
              not_high,
              search_loop_any eval target is_increasing 99 s x_min x_max nought x_min,
            )
            (search_loop-Answers max_iterations 0 s x_min x_max x_min (omega arith) whole
              (
                lies_left_lem is_increasing target (g x_min) ∙ not_low,
                lies_right_lem is_increasing target (g x_max) ∙ not_high,
              )
              (inl refl))
    ]
  ]

  search_right-Answers : (s : S) → Answers (search_right eval x_min x_max target s (g x_min)).1
  unfolding search_right
  search_right-Answers s = elim (Bool-cases (is_close (g x_max) target)) [
    | inl close ↦ rw (search_right, value s x_max, close) (x_max, within, refl, inl close)
    | inr far ↦ rw (search_right, value s x_max, far) (search_inside-Answers (eval s x_max).0)
  ]

  -- If the function never fails, its value does not depend on its state, and the range is not empty,
  -- then BinarySearch answers with a point and never with an error, monotone or not. The function counts
  -- as increasing if its value at xMin is below the one at xMax; the target is to the left of a value if it
  -- is less and the function increases, or more and it decreases. The indicator says that the target is to
  -- the left of the value at xMin, which is the answer; or to the right of the value at xMax, which is the
  -- answer; or within. Then the value at the answer is close to the target, or else the answer is an end of
  -- an interval, left by a hundred halvings of the range, such that the target is not to the left of the
  -- value at its lower end and not to the right of the value at its upper end. The latter is the case where
  -- the target was not found, for which a comment has an error instead. The order is that of IEEE 754.
  pub binary_search-Answers :
      lt x_max x_min ≡ false
      → (s : S)
      → (x : F) × (i : Indicator) × ((binary_search eval x_min x_max target s).1 ≡ found x i)
        × Means x i
  unfolding binary_search
  binary_search-Answers range s = elim (Bool-cases (is_close (g x_min) target)) [
    | inl close ↦ rw (binary_search, range, value s x_min, close) (x_min, within, refl, inl close)
    | inr far ↦
        rw (binary_search, range, value s x_min, far) (search_right-Answers (eval s x_min).0)
  ]
