-- ===== src/Queue/Balance.antt =====
-- pkg/analyzer/mm1modelstatedependent.go: the probabilities of computeProbabilities are those of the
-- queue in equilibrium.
use inferno_autoscaler.Base.{
  ℕ, suc, ◌<◌, false, List, ◌≡◌, sym, ap, ◌∙◌, subst, Float, of_nat, nought, Double, Conversion,
}
use inferno_autoscaler.Queue.Weights.{at, divide_all, rate_at, next_weight, sum_first, scale_of}
use inferno_autoscaler.Queue.Model.{QueueModel, compute_probabilities}
use inferno_autoscaler.Queue.Exact.{IsExact, zero_add, sum_first-divide_all, at-divide_all}
use inferno_autoscaler.Queue.Rescaling.{plain_weights, plain_weights-step, normalised_lem}

module _ {F D : Type 0} ⦃f : Float F⦄ ⦃e : Float D⦄ ⦃d : Double D⦄ ⦃c : Conversion F D⦄
    (laws : IsExact D) (m : QueueModel F D) where
  -- The weights without rescaling, and their sum.
  abbrev pub weights : List D
  weights = plain_weights m.lambda m.serv_rate m.k 0 (of_nat 1)

  abbrev pub total : D
  total = sum_first (suc m.k) nought weights

  compute_probabilities-p :
      e.eq (scale_of m.k) nought ≡ false → (compute_probabilities m).p ≡ divide_all weights total
  unfolding compute_probabilities
  compute_probabilities-p usable =
      normalised_lem m.lambda m.serv_rate laws (scale_of m.k) usable m.k m.settled

  sum_first-weights :
      e.eq total nought ≡ false → sum_first (suc m.k) nought (divide_all weights total) ≡ of_nat 1
  sum_first-weights nonzero =
      subst (λ o. sum_first (suc m.k) o (divide_all weights total) ≡ e.div total total)
        (laws.zero_div total) (sum_first-divide_all laws (suc m.k) nought total weights)
      ∙ laws.div_self total nonzero

  flow_lem :
      (n : ℕ)
      → n < m.k
      → e.eq (rate_at m.serv_rate n) nought ≡ false
      → e.mul (e.div (at weights n) total) (c.widen m.lambda)
        ≡ e.mul (e.div (at weights (suc n)) total) (rate_at m.serv_rate n)
  flow_lem n h positive =
      let r = rate_at m.serv_rate n in
      let w = at weights n in
      let step : at weights (suc n) ≡ next_weight m.lambda r w =
        subst (λ k. at weights (suc n) ≡ next_weight m.lambda (rate_at m.serv_rate k) w)
          (zero_add n) (plain_weights-step m.lambda m.serv_rate m.k 0 n (of_nat 1) h) in
      let arrivals = e.mul w (c.widen m.lambda) in
      laws.mul-div w total (c.widen m.lambda)
      ∙ sym (
          ap (λ x. e.mul (e.div x total) r) step
          ∙ laws.mul-div (e.div arrivals r) total r
          ∙ ap (λ x. e.div x total) (laws.div-mul_cancel arrivals r positive))

  sum_p-total :
      e.eq (scale_of m.k) nought ≡ false
      → e.eq total nought ≡ false
      → (compute_probabilities m).sum_p ≡ of_nat 1
  unfolding compute_probabilities
  sum_p-total usable nonzero =
      ap (sum_first (suc m.k) nought) (compute_probabilities-p usable) ∙ sum_first-weights nonzero

  -- In exact arithmetic, whatever is rescaled on the way: if the scale and the sum of the weights are
  -- not zero, the probabilities sum up to 1, and in equilibrium the flow from n to n + 1 requests, at
  -- the arrival rate, is the flow back, at the service rate for n + 1 requests, if that is not zero.
  pub compute_probabilities-balance :
      e.eq (scale_of m.k) nought ≡ false
      → e.eq total nought ≡ false
      → let m' = compute_probabilities m in
        (m'.sum_p ≡ of_nat 1)
        × ((n : ℕ)
            → n < m.k
            → e.eq (rate_at m.serv_rate n) nought ≡ false
            → e.mul (at m'.p n) (c.widen m.lambda)
              ≡ e.mul (at m'.p (suc n)) (rate_at m.serv_rate n))
  compute_probabilities-balance usable nonzero = (
    sum_p-total usable nonzero,
    λ n h positive.
        rw
          (
            compute_probabilities-p usable,
            at-divide_all laws weights total n,
            at-divide_all laws weights total (suc n),
          )
          (flow_lem n h positive),
  )
