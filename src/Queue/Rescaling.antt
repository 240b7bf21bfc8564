-- ===== src/Queue/Rescaling.antt =====
-- pkg/analyzer/mm1modelstatedependent.go: in exact arithmetic the rescaling of computeProbabilities makes
-- no difference.
use inferno_autoscaler.Base.{
  ℕ, zero, suc, ◌+◌, ◌<◌, Bool, false, ◌&&◌, List, [], ◌∷◌, ◌≡◌, refl, sym, ap, ◌∙◌, arith, inl,
  inr, Bool-cases, subst, Float, of_nat, nought, Double, Conversion,
}
use inferno_autoscaler.Queue.Weights.{
  at, later, divide_all, max_rescalings, is_out_of_range, sum_overflows, rate_at, next_weight,
  rescale, weigh, reverse_onto, sum_first, sum_loop,
}
use inferno_autoscaler.Queue.Exact.{
  IsExact, zero_add, plus_zero, add_one, suc-add, add-suc, divide_all-divide_all, at-divide_all,
  sum_first-divide_all, sum_first-suc, reverse_onto-divide_all, divide_all-cancel,
}

module _ {F D : Type 0} ⦃f : Float F⦄ ⦃e : Float D⦄ ⦃d : Double D⦄ ⦃c : Conversion F D⦄ (lambda : F)
    (rates : List F) where
  -- The weights without rescaling, from `w` for n requests on.
  unfoldable pub plain_weights : (left n : ℕ) (w : D) → List D
  plain_weights zero n w = w ∷ []
  plain_weights (suc left) n w =
      w ∷ plain_weights left (n + 1) (next_weight lambda (rate_at rates n) w)

  -- The same, newest first, onto the older ones.
  weights_onto : (left n : ℕ) (w : D) (older : List D) → List D
  weights_onto zero n w older = w ∷ older
  weights_onto (suc left) n w older =
      weights_onto left (n + 1) (next_weight lambda (rate_at rates n) w) (w ∷ older)

  reverse_onto-weights_onto :
      (left n : ℕ) (w : D) (older : List D)
      → reverse_onto (weights_onto left n w older) [] ≡ reverse_onto older (plain_weights left n w)
  unfolding weights_onto plain_weights reverse_onto
  reverse_onto-weights_onto zero n w older = refl
  reverse_onto-weights_onto (suc left) n w older =
      reverse_onto-weights_onto left (n + 1) (next_weight lambda (rate_at rates n) w) (w ∷ older)

  -- Each plain weight is the one before it times the arrival rate over the service rate.
  pub plain_weights-step :
      (left n i : ℕ) (w : D)
      → i < left
      → at (plain_weights left n w) (suc i)
        ≡ next_weight lambda (rate_at rates (n + i)) (at (plain_weights left n w) i)
  unfolding plain_weights
  plain_weights-step zero n i w h = elim h [ ]
  plain_weights-step (suc zero) n zero w h = rw (plus_zero n)
  plain_weights-step (suc (suc left)) n zero w h = rw (plus_zero n)
  plain_weights-step (suc left) n (suc i) w h =
      let next = next_weight lambda (rate_at rates n) w in
      rw (← add-suc n i) (plain_weights-step left (n + 1) i next (omega arith))

  module _ (laws : IsExact D) where
    next_weight-div :
        (r w y : D) → next_weight lambda r (e.div w y) ≡ e.div (next_weight lambda r w) y
    next_weight-div r w y =
        ap (λ x. e.div x r) (laws.mul-div w y (c.widen lambda))
        ∙ laws.div_comm (e.mul w (c.widen lambda)) y r

    -- The list is that of the plain weights, each divided by a number that is not zero.
    abbrev Scaled : List D → List D → Type 0
    Scaled xs ws = (y : D) × (e.eq y nought ≡ false) × (xs ≡ divide_all ws y)

    module _ (scale : D) (usable : e.eq scale nought ≡ false) where
      rescale-Scaled :
          (fuel : ℕ) (r w y : D) (ws : List D)
          → e.eq y nought ≡ false
          → let out = rescale fuel scale lambda r (e.div w y) (divide_all ws y) in
            Scaled (out.0 ∷ out.1) (next_weight lambda r w ∷ w ∷ ws)
      unfolding rescale
      rescale-Scaled zero r w y ws nonzero = (y, nonzero, rw (next_weight-div r w y))
      rescale-Scaled (suc fuel) r w y ws nonzero =
          elim (Bool-cases (is_out_of_range (next_weight lambda r (e.div w y)))) [
            | inr fits ↦ rw fits (y, nonzero, rw (next_weight-div r w y))
            | inl outside ↦
                rw (outside, laws.div_div w y scale, divide_all-divide_all laws ws y scale)
                  (rescale-Scaled fuel r w (e.mul y scale) ws
                    (laws.mul-ne-zero y scale nonzero usable))
          ]

      weigh-Scaled :
          (left n : ℕ) (w y : D) (ws : List D) (settled : Bool)
          → e.eq y nought ≡ false
          → Scaled
              (weigh left n scale lambda rates (e.div w y) (divide_all ws y) settled).0
              (weights_onto left n w ws)
      unfolding weigh weights_onto
      weigh-Scaled zero n w y ws settled nonzero = (y, nonzero, refl)
      weigh-Scaled (suc left) n w y ws settled nonzero =
          let r = rate_at rates n in
          let out = rescale max_rescalings scale lambda r (e.div w y) (divide_all ws y) in
          let (y', nonzero', same) = rescale-Scaled max_rescalings r w y ws nonzero in
          let e0 : out.0 ≡ e.div (next_weight lambda r w) y' = ap (λ l. at l 0) same in
          let e1 : out.1 ≡ divide_all (w ∷ ws) y' = ap later same in
          let next = next_weight lambda r w in
          let goal : D → List D → Type 0 = λ a b.
            Scaled (weigh left (n + 1) scale lambda rates a b (settled && out.2)).0
              (weights_onto left (n + 1) next (w ∷ ws)) in
          subst (λ a. goal a out.1) (sym e0)
            (subst (λ b. goal (e.div next y') b) (sym e1)
              (weigh-Scaled left (n + 1) next y' (w ∷ ws) (settled && out.2) nonzero'))

    module _ (scale : D) (usable : e.eq scale nought ≡ false) (ws : List D) where
      sum_step :
          (n : ℕ) (y : D)
          → e.add (e.div (sum_first n nought ws) y) (at (divide_all ws y) n)
            ≡ e.div (sum_first (suc n) nought ws) y
      sum_step n y =
          rw (at-divide_all laws ws y n, laws.add-div (sum_first n nought ws) (at ws n) y)
            (ap (λ x. e.div x y) (sym (sum_first-suc laws n nought ws)))

      sum_rescaled :
          (n : ℕ) (y : D)
          → sum_first n nought (divide_all (divide_all ws y) scale)
            ≡ e.div (sum_first n nought ws) (e.mul y scale)
      sum_rescaled n y =
          let z = e.mul y scale in
          rw (divide_all-divide_all laws ws y scale) (
            subst (λ o. sum_first n o (divide_all ws z) ≡ e.div (sum_first n nought ws) z)
              (laws.zero_div z) (sum_first-divide_all laws n nought z ws))

      sum_loop-Scaled :
          (left n : ℕ) (y : D)
          → e.eq y nought ≡ false
          → let out = sum_loop left n scale (e.div (sum_first n nought ws) y) (divide_all ws y) in
            (y' : D) × (e.eq y' nought ≡ false)
            × (out.0 ≡ e.div (sum_first (n + left) nought ws) y')
            × (out.1 ≡ divide_all ws y')
      unfolding sum_loop
      sum_loop-Scaled zero n y nonzero = (y, nonzero, rw (plus_zero n), refl)
      sum_loop-Scaled (suc left) n y nonzero =
          let total = e.div (sum_first (suc n) nought ws) y in
          rw
            (
              add_one n,
              sum_step n y,
              sum_rescaled (suc n) y,
              divide_all-divide_all laws ws y scale,
              ← suc-add n left,
            )
            (elim (Bool-cases (sum_overflows total)) [
              | inl over ↦ rw over (
                  sum_loop-Scaled left (suc n) (e.mul y scale)
                    (laws.mul-ne-zero y scale nonzero usable))
              | inr fits ↦ rw fits (sum_loop-Scaled left (suc n) y nonzero)
            ])

    module _ (scale : D) (usable : e.eq scale nought ≡ false) (k : ℕ) (settled : Bool) where
      abbrev plain : List D
      plain = plain_weights k 0 (of_nat 1)

      weigh-plain :
          (y : D) × (e.eq y nought ≡ false)
          × (reverse_onto (weigh k 0 scale lambda rates (of_nat 1) [] settled).0 []
              ≡ divide_all plain y)
      unfolding plain_weights reverse_onto
      weigh-plain =
          let (y, nonzero, same) =
            subst
              (λ x.
                Scaled (weigh k 0 scale lambda rates x [] settled).0
                  (weights_onto k 0 (of_nat 1) []))
              (laws.div_one (of_nat 1))
              (weigh-Scaled scale usable k 0 (of_nat 1) (of_nat 1) [] settled laws.one-ne-zero) in
          (
            y,
            nonzero,
            ap (λ xs. reverse_onto xs []) same
                ∙ reverse_onto-divide_all laws (weights_onto k 0 (of_nat 1) []) [] y
                ∙ ap (λ xs. divide_all xs y) (reverse_onto-weights_onto k 0 (of_nat 1) []),
          )

      abbrev total : D
      total = sum_first (suc k) nought plain

      sum_loop-plain :
          (y : D)
          → e.eq y nought ≡ false
          → let out = sum_loop (suc k) 0 scale nought (divide_all plain y) in
            divide_all out.1 out.0 ≡ divide_all plain total
      unfolding sum_first
      sum_loop-plain y nonzero =
          let (y', nonzero', sum, list) =
            subst
              (λ o.
                let out = sum_loop (suc k) 0 scale o (divide_all plain y) in
                (y' : D) × (e.eq y' nought ≡ false)
                × (out.0 ≡ e.div (sum_first (0 + suc k) nought plain) y')
                × (out.1 ≡ divide_all plain y'))
              (laws.zero_div y) (sum_loop-Scaled scale usable plain (suc k) 0 y nonzero) in
          rw (sum, list, zero_add (suc k)) (divide_all-cancel laws plain total y' nonzero')

      -- The lists that computeProbabilities makes of the weights.
      pub normalised_lem :
          let first = reverse_onto (weigh k 0 scale lambda rates (of_nat 1) [] settled).0 [] in
          let out = sum_loop (suc k) 0 scale nought first in
          divide_all out.1 out.0 ≡ divide_all plain total
      normalised_lem = let (y, nonzero, same) = weigh-plain in rw same (sum_loop-plain y nonzero)
