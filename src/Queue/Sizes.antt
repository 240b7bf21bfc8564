-- ===== src/Queue/Sizes.antt =====
-- pkg/analyzer/queueanalyzer.go: what Size returns.
use inferno_autoscaler.Base.{
  true, false, ◌≡◌, ◌⊎◌, if◌then◌else◌, Float, of_nat, nought, IsOrdered, Double, Conversion,
  float_min,
}
use inferno_autoscaler.Queue.Parameters.{
  Result, ok, err, QueueError, AnalysisMetrics, TargetPerf, invalid_configuration,
  invalid_request_size, invalid_request_rate, rate_above_max, invalid_model, invalid_targets,
  no_rate_for_ttft, no_rate_for_itl, check_targets,
}
use inferno_autoscaler.Queue.Search.{midpoint}
use inferno_autoscaler.Queue.Bounds.{IsIn}
use inferno_autoscaler.Queue.Indicators.{Says}
use inferno_autoscaler.Queue.Model.{QueueModel}
use inferno_autoscaler.Queue.Analyzer.{QueueAnalyzer, analyze}
use inferno_autoscaler.Queue.Search.{Answer, found, below, within, above, invalid_evaluation}
use inferno_autoscaler.Queue.Sizing.{SizeResult, eval_with, ttft_of, itl_of, lambda_min, lambda_max}

module _ {F D : Type 0} ⦃f : Float F⦄ ⦃e : Float D⦄ ⦃d : Double D⦄ ⦃c : Conversion F D⦄
    (qa : QueueAnalyzer F D) where
  open f use {lt, mul}

  -- The rate that the throughput of the analyzer allows: a tenth below the highest, if it is a target.
  abbrev pub throughput_rate : F → F
  throughput_rate target =
      if lt nought target
      then mul (lambda_max qa) (f.sub (of_nat 1) (f.decimal 1 1))
      else lambda_max qa

  -- What the metrics of the analysis achieve.
  abbrev pub Achieves : AnalysisMetrics F → TargetPerf F → Type 0
  Achieves metrics achieved =
      (achieved.target_ttft ≡ f.add metrics.avg_wait_time metrics.avg_prefill_time)
      × (achieved.target_itl ≡ metrics.avg_token_time)
      × (achieved.target_tps ≡ mul metrics.throughput (f.of_int qa.request_size.avg_output_tokens))

  -- What a search of a latency over the range of rates says.
  module _ (latency : QueueModel F D → F) (target : F) where
    abbrev pub SearchSays : Answer F → Type 0
    SearchSays = Says (eval_with latency) (lambda_min qa) (lambda_max qa) target

    -- The latency at a rate is close to the target, or the target lies between the latencies at both ends of
    -- the range, or to the right of that at the highest rate, which is the rate.
    abbrev pub Serves : F → Type 0
    Serves x = SearchSays (found x within) ⊎ SearchSays (found x above)

    -- The rate for a target is in the range of rates and serves the target, and it is the highest one if
    -- there is no target.
    abbrev pub RateFor : F → Type 0
    RateFor x =
        IsIn (lambda_min qa) (lambda_max qa) x
        × (lt nought target ≡ false → x ≡ lambda_max qa)
        × (lt nought target ≡ true → Serves x)

    -- Only a target that is there can have no rate: it lies to the left of the latency at the lowest
    -- rate, or the queue cannot be solved at some rate.
    abbrev pub NoRate : Type 0
    NoRate =
        (lt nought target ≡ true)
        × (SearchSays (found (lambda_min qa) below) ⊎ SearchSays invalid_evaluation)

    abbrev RateResult : QueueError F → Result (QueueError F) F → Type 0
    RateResult error (ok x) = RateFor x
    RateResult error (err other) = (other ≡ error) × NoRate

  module _ (t : TargetPerf F) where
    -- The request rate at which Size analyzes, given the rates for the latencies.
    abbrev pub chosen_rate : F → F → F
    chosen_rate ttft itl =
        mul (float_min (float_min ttft itl) (throughput_rate t.target_tps)) (of_nat 1000)

    -- The analysis at the chosen rate, with some state of the model, gives a result.
    abbrev pub Analyzed : F → F → Result (QueueError F) (AnalysisMetrics F) → Type 0
    Analyzed ttft itl r =
        (m : QueueModel F D) × ((analyze (record qa { model = m }) (chosen_rate ttft itl)).1 ≡ r)

    abbrev pub Rates : (Result (QueueError F) (AnalysisMetrics F)) → (F → F → Type 0) → Type 0
    Rates r P =
        (ttft : F) × (itl : F) × RateFor (ttft_of qa) t.target_ttft ttft
        × RateFor (itl_of qa) t.target_itl itl
        × Analyzed ttft itl r
        × P ttft itl

    -- An error that Analyze gives at the chosen rate.
    abbrev pub Fails : QueueError F → Type 0
    Fails error = Rates (err error) (λ ttft itl. Unit {0})

    -- What each result of Size says.
    abbrev pub Sizes : SizeResult F → Type 0
    Sizes (ok (rates, metrics, achieved)) =
        (check_targets t ≡ true)
        × Achieves metrics achieved
        × Rates (ok metrics) (λ ttft itl. rates ≡ record {
          rate_target_ttft = mul ttft (of_nat 1000);
          rate_target_itl = mul itl (of_nat 1000);
          rate_target_tps = mul (throughput_rate t.target_tps) (of_nat 1000);
        })
    Sizes (err (invalid_targets t')) = (t' ≡ t) × (check_targets t ≡ false)
    Sizes (err (no_rate_for_ttft x)) = (x ≡ t.target_ttft) × NoRate (ttft_of qa) x
    Sizes (err (no_rate_for_itl x)) = (x ≡ t.target_itl) × NoRate (itl_of qa) x
    Sizes (err (invalid_request_rate x)) = Fails (invalid_request_rate x)
    Sizes (err (rate_above_max x top)) = Fails (rate_above_max x top)
    Sizes (err invalid_model) = Fails invalid_model
    Sizes (err invalid_configuration) = ⊥
    Sizes (err (invalid_request_size r)) = ⊥

module _ {F D : Type 0} ⦃f : Float F⦄ ⦃e : Float D⦄ ⦃d : Double D⦄ ⦃c : Conversion F D⦄
    (laws : IsOrdered F) (qa : QueueAnalyzer F D)
    (range : f.lt (lambda_max qa) (lambda_min qa) ≡ false)
    (halves : (a b : F)
      → IsIn (lambda_min qa) (lambda_max qa) a
      → IsIn (lambda_min qa) (lambda_max qa) b
      → IsIn (lambda_min qa) (lambda_max qa) (midpoint a b)) where
  open f use {lt, mul}

  -- The errors that Analyze gives.
  abbrev IsAnalysis : Result (QueueError F) (AnalysisMetrics F) → Type 0
  IsAnalysis (ok metrics) = Unit
  IsAnalysis (err (invalid_request_rate x)) = Unit
  IsAnalysis (err (rate_above_max x top)) = Unit
  IsAnalysis (err invalid_model) = Unit
  IsAnalysis (err (invalid_targets t)) = ⊥
  IsAnalysis (err (no_rate_for_ttft x)) = ⊥
  IsAnalysis (err (no_rate_for_itl x)) = ⊥
  IsAnalysis (err invalid_configuration) = ⊥
  IsAnalysis (err (invalid_request_size r)) = ⊥
