-- ===== src/Queue/Sizing.antt =====
-- pkg/analyzer/queueanalyzer.go: Size. The package variables that it sets for the functions under
-- search are arguments of these functions.
use inferno_autoscaler.Base.{
  Option, none, some, if◌then◌else◌, Float, of_nat, nought, Double, Conversion, float_min,
}
use inferno_autoscaler.Queue.Model.{QueueModel, solve_queue}
use inferno_autoscaler.Queue.Parameters.{
  Result, ok, err, AnalysisMetrics, TargetPerf, TargetRate, QueueError, invalid_targets,
  no_rate_for_ttft, no_rate_for_itl, stability_safety_fraction, prefill_time, decode_time,
  effective_concurrency, check_targets,
}
use inferno_autoscaler.Queue.Search.{
  Answer, found, below, within, above, invalid_range, invalid_evaluation, binary_search,
}
use inferno_autoscaler.Queue.Analyzer.{QueueAnalyzer, analyze}

-- What Size returns: the rates, the metrics at the smallest of them, and the achieved targets.
abbrev pub SizeResult : Type 0 → Type 0
SizeResult F = Result (QueueError F) (TargetRate F × AnalysisMetrics F × TargetPerf F)

module _ {F D : Type 0} ⦃f : Float F⦄ ⦃e : Float D⦄ ⦃d : Double D⦄ ⦃c : Conversion F D⦄ where
  open f use {add, sub, mul, div, lt}

  -- The functions under search: they solve the model and give none where it is not valid.
  unfoldable pub eval_with : (QueueModel F D → F) → QueueModel F D → F → QueueModel F D × Option F
  eval_with value m x =
      let m' = solve_queue m x (of_nat 1) in (m', if m'.is_valid then some (value m') else none)

  module _ (qa : QueueAnalyzer F D) where
    abbrev pub concurrency_of : QueueModel F D → F
    concurrency_of m =
        effective_concurrency m.avg_serv_time qa.prefill qa.decode qa.request_size qa.max_batch_size

    abbrev pub ttft_of : QueueModel F D → F
    ttft_of m =
        add m.avg_wait_time
          (prefill_time qa.prefill qa.request_size.avg_input_tokens (concurrency_of m))

    abbrev pub itl_of : QueueModel F D → F
    itl_of m = decode_time qa.decode (concurrency_of m)

    -- EvalTTFT and EvalITL
    unfoldable pub eval_ttft : QueueModel F D → F → QueueModel F D × Option F
    unfolding eval_with
    eval_ttft = eval_with ttft_of

    unfoldable pub eval_itl : QueueModel F D → F → QueueModel F D × Option F
    unfolding eval_with
    eval_itl = eval_with itl_of

    -- qa.RateRange.Min / 1000 and qa.RateRange.Max / 1000
    abbrev pub lambda_min : F
    lambda_min = div qa.rate_range.min (of_nat 1000)

    abbrev pub lambda_max : F
    lambda_max = div qa.rate_range.max (of_nat 1000)

    -- The result of a search, an error where the target is below the range.
    abbrev pub rate_of : QueueError F → Answer F → Result (QueueError F) F
    rate_of e (found x below) = err e
    rate_of e (found x within) = ok x
    rate_of e (found x above) = ok x
    rate_of e (invalid_range a b) = err e
    rate_of e invalid_evaluation = err e

    -- The maximum rate for one target; a target that is not positive is no target.
    unfoldable pub max_rate_for :
        (QueueModel F D → F → QueueModel F D × Option F)
        → QueueError F
        → (target : F) → QueueModel F D
        → QueueModel F D × Result (QueueError F) F
    max_rate_for eval e target m =
        let (m', answer) = binary_search eval lambda_min lambda_max target m in
        if lt nought target then (m', rate_of e answer) else (m, ok lambda_max)

    -- lambdaStarTPS
    abbrev pub tps_rate : F → F
    tps_rate target =
        if lt nought target
        then mul lambda_max (sub (of_nat 1) stability_safety_fraction)
        else lambda_max

    abbrev pub achieved_of : AnalysisMetrics F → TargetPerf F
    achieved_of metrics = record {
      target_ttft = add metrics.avg_wait_time metrics.avg_prefill_time;
      target_itl = metrics.avg_token_time;
      target_tps = mul metrics.throughput (f.of_int qa.request_size.avg_output_tokens);
    }

  -- The end of Size, from the rates for both latencies on.
  unfoldable pub size_at :
      QueueAnalyzer F D → TargetPerf F → (ttft_rate itl_rate : F) → QueueAnalyzer F D × SizeResult F
  unfolding analyze
  size_at qa t ttft_rate itl_rate =
      let tps = tps_rate qa t.target_tps in
      let lambda = float_min (float_min ttft_rate itl_rate) tps in
      let (qa', r) = analyze qa (mul lambda (of_nat 1000)) in
      let rates : TargetRate F = record {
        rate_target_ttft = mul ttft_rate (of_nat 1000);
        rate_target_itl = mul itl_rate (of_nat 1000);
        rate_target_tps = mul tps (of_nat 1000);
      } in
      (qa', elim r [ err e ↦ err e | ok metrics ↦ ok (rates, metrics, achieved_of qa metrics) ])

  -- The search for the token latency, and the rest.
  unfoldable pub size_itl :
      QueueAnalyzer F D → TargetPerf F → (ttft_rate : F) → QueueAnalyzer F D × SizeResult F
  unfolding max_rate_for eval_itl size_at
  size_itl qa t ttft_rate =
      let (m, r) =
        max_rate_for qa (eval_itl qa) (no_rate_for_itl t.target_itl) t.target_itl qa.model in
      let qa' = record qa { model = m } in
      elim r [ err e ↦ (qa', err e) | ok itl_rate ↦ size_at qa' t ttft_rate itl_rate ]

  unfoldable pub size : QueueAnalyzer F D → TargetPerf F → QueueAnalyzer F D × SizeResult F
  unfolding max_rate_for eval_ttft size_itl check_targets
  size qa t =
      let (m, r) =
        max_rate_for qa (eval_ttft qa) (no_rate_for_ttft t.target_ttft) t.target_ttft qa.model in
      let qa' = record qa { model = m } in
      if check_targets t
      then elim r [ err e ↦ (qa', err e) | ok ttft_rate ↦ size_itl qa' t ttft_rate ]
      else (qa, err (invalid_targets t))
