-- ===== src/Queue/Results.antt =====
-- pkg/analyzer/queueanalyzer.go: what Analyze returns.
use inferno_autoscaler.Base.{
  ℕ, Bool, true, false, not, ◌≡◌, refl, inl, inr, Bool-cases, if_cases, Float, of_nat, nought, ge,
  IsOrdered, Double, Conversion, float_min, float_max, pos,
}
use inferno_autoscaler.Queue.Parameters.{
  Result, ok, err, QueueError, AnalysisMetrics, prefill_time, decode_time, effective_concurrency,
  invalid_configuration, invalid_request_size, invalid_request_rate, rate_above_max, invalid_model,
  invalid_targets, no_rate_for_ttft, no_rate_for_itl,
}
use inferno_autoscaler.Queue.Bounds.{IsIn}
use inferno_autoscaler.Queue.Model.{solve_queue}
use inferno_autoscaler.Queue.Analyzer.{QueueAnalyzer, metrics_of, analyze}

not-true : (b : Bool) → not b ≡ true → b ≡ false
not-true true h = cc
not-true false h = refl

not-false : (b : Bool) → not b ≡ false → b ≡ true
not-false true h = refl
not-false false h = cc

module _ {F : Type 0} ⦃f : Float F⦄ (laws : IsOrdered F) where
  open f use {lt, eq}

  nan_not_lt : (x y : F) → eq x x ≡ false → (lt x y ≡ false) × (lt y x ≡ false)
  nan_not_lt x y nan = (
    elim (Bool-cases (lt x y)) [ inr no_lt ↦ no_lt | inl less ↦ cc (laws.lt-IsNumber x y less).0 ],
    elim (Bool-cases (lt y x)) [ inr no_lt ↦ no_lt | inl less ↦ cc (laws.lt-IsNumber y x less).1 ],
  )

  float_max-nought :
      (x : F)
      → eq x x ≡ true
      → (eq (float_max x nought) (float_max x nought) ≡ true)
        × (lt (float_max x nought) nought ≡ false)
  unfolding float_max
  float_max-nought x number =
      let zero_number = laws.of_int-IsNumber (pos 0) in
      elim (Bool-cases (lt x nought)) [
        | inl less ↦ rw (number, zero_number, less) (zero_number, laws.lt_irrefl nought)
        | inr not_less ↦ rw (number, zero_number, not_less) (number, not_less)
      ]

  float_min_bounds :
      (y top : F)
      → eq y y ≡ true
      → eq top top ≡ true
      → lt y nought ≡ false
      → lt top nought ≡ false
      → IsIn nought top (float_min y top)
  unfolding float_min
  float_min_bounds y top ny nt hy ht = elim (Bool-cases (lt top y)) [
    | inl less ↦ rw (ny, nt, less) (ht, laws.lt_irrefl top)
    | inr not_less ↦ rw (ny, nt, not_less) (hy, not_less)
  ]

  clamp-nan : (x top : F) → eq x x ≡ false → float_min (float_max x nought) top ≡ x
  unfolding float_min float_max
  clamp-nan x top nan = rw (nan, nan)

  -- min(max(x, 0), top) is neither below 0 nor above the top, also where it is NaN.
  clamp_bounds :
      (x top : F)
      → eq top top ≡ true
      → lt top nought ≡ false
      → IsIn nought top (float_min (float_max x nought) top)
  clamp_bounds x top number above = elim (Bool-cases (eq x x)) [
    | inl x_number ↦
        let (y_number, y_above) = float_max-nought x x_number in
        float_min_bounds (float_max x nought) top y_number number y_above above
    | inr nan ↦ rw (clamp-nan x top nan) ((nan_not_lt x nought nan).0, (nan_not_lt x top nan).1)
  ]

module _ {F D : Type 0} ⦃f : Float F⦄ ⦃e : Float D⦄ ⦃d : Double D⦄ ⦃c : Conversion F D⦄ where
  open f use {lt}

  -- The metrics of a solved model: the utilization is a fraction, and the times of prefill and decode
  -- are those of a number of requests in service that a batch can hold.
  abbrev pub Measures : QueueAnalyzer F D → AnalysisMetrics F → Type 0
  Measures qa m =
      IsIn nought (of_nat 1) m.rho
      × (m.max_rate ≡ qa.rate_range.max)
      × ((conc : F) × IsIn nought (of_nat qa.max_batch_size) conc
          × (m.avg_prefill_time ≡ prefill_time qa.prefill qa.request_size.avg_input_tokens conc)
          × (m.avg_token_time ≡ decode_time qa.decode conc))

  -- Whether the rate is one that Analyze takes: positive and not above the maximum.
  abbrev pub IsAccepted : QueueAnalyzer F D → F → Type 0
  IsAccepted qa rate = (ge nought rate ≡ false) × (lt qa.rate_range.max rate ≡ false)

  -- What each result of Analyze says, of the analyzer before and after.
  abbrev pub Reports :
      (qa : QueueAnalyzer F D) (rate : F) (qa' : QueueAnalyzer F D)
      → Result (QueueError F) (AnalysisMetrics F)
      → Type 0
  Reports qa rate qa' (ok m) =
      IsAccepted qa rate
      × (qa'.model.is_valid ≡ true)
      × (qa' ≡ record qa { model = qa'.model })
      × Measures qa' m
  Reports qa rate qa' (err (invalid_request_rate r)) =
      (r ≡ rate) × (qa' ≡ qa) × (ge nought rate ≡ true)
  Reports qa rate qa' (err (rate_above_max r top)) =
      (r ≡ rate)
      × (top ≡ qa.rate_range.max)
      × (qa' ≡ qa)
      × (ge nought rate ≡ false)
      × (lt top rate ≡ true)
  Reports qa rate qa' (err invalid_model) =
      IsAccepted qa rate × (qa'.model.is_valid ≡ false) × (qa' ≡ record qa { model = qa'.model })
  Reports qa rate qa' (err invalid_configuration) = ⊥
  Reports qa rate qa' (err (invalid_request_size r)) = ⊥
  Reports qa rate qa' (err (invalid_targets t)) = ⊥
  Reports qa rate qa' (err (no_rate_for_ttft t)) = ⊥
  Reports qa rate qa' (err (no_rate_for_itl t)) = ⊥

module _ {F D : Type 0} ⦃f : Float F⦄ ⦃e : Float D⦄ ⦃d : Double D⦄ ⦃c : Conversion F D⦄
    (laws : IsOrdered F) (natural : (n : ℕ) → f.lt (of_nat n) nought ≡ false) where
  open f use {lt}

  metrics_of-Measures : (qa : QueueAnalyzer F D) → Measures qa (metrics_of qa)
  unfolding metrics_of effective_concurrency
  metrics_of-Measures qa = (
    clamp_bounds laws _ (of_nat 1) (laws.of_int-IsNumber (pos 1)) (natural 1),
    refl,
    (
      _,
      clamp_bounds laws _ (of_nat qa.max_batch_size) (laws.of_int-IsNumber (pos qa.max_batch_size))
          (natural qa.max_batch_size),
      refl,
      refl,
    ),
  )

  -- Analyze refuses a rate that is not positive or is above the maximum, and then leaves the analyzer
  -- as it is. Otherwise it changes the model only: it gives an error exactly if the model is not valid
  -- afterwards, and metrics whose utilization is between 0 and 1, with the times of prefill and decode
  -- for a number of requests between 0 and the batch size. The order is that of IEEE 754, and no
  -- natural number is below 0.
  pub analyze-Reports :
      (qa : QueueAnalyzer F D) (rate : F) → Reports qa rate (analyze qa rate).0 (analyze qa rate).1
  unfolding analyze
  analyze-Reports qa rate =
      let P : QueueAnalyzer F D × Result (QueueError F) (AnalysisMetrics F) → Type 0 =
        λ o. Reports qa rate o.0 o.1 in
      let m = solve_queue qa.model (f.div rate (of_nat 1000)) (of_nat 1) in
      let qa' = record qa { model = m } in
      if_cases P (ge nought rate) _ _ (λ zero_rate. (refl, refl, zero_rate))
        λ positive.
          if_cases P (lt qa.rate_range.max rate) _ _ (λ above. (refl, refl, refl, positive, above))
            λ within.
              if_cases P (not m.is_valid) _ _
                (λ invalid. ((positive, within), not-true m.is_valid invalid, refl))
                (λ valid.
                  ((positive, within), not-false m.is_valid valid, refl, metrics_of-Measures qa'))
