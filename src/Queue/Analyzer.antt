-- ===== src/Queue/Analyzer.antt =====
-- pkg/analyzer/queueanalyzer.go: the analyzer of a queue of requests with batching.
use inferno_autoscaler.Base.{
  ℕ, ◌+◌, not, none, some, if◌then◌else◌, Float, of_nat, nought, ge, Double, Conversion, float_min,
  float_max,
}
use inferno_autoscaler.Config.{PrefillParms, DecodeParms}
use inferno_autoscaler.Queue.Model.{QueueModel, solve_queue, new_queue_model}
use inferno_autoscaler.Queue.Parameters.{
  Result, ok, err, Configuration, RequestSize, RateRange, AnalysisMetrics, QueueError,
  invalid_configuration, invalid_request_size, invalid_request_rate, rate_above_max, invalid_model,
  CheckedConfiguration, check_configuration, check_request_size, small_disturbance, prefill_time,
  decode_time, service_rate, service_rates, effective_concurrency,
}

-- An analyzer is made only of a checked configuration, whose sizes are natural numbers.
pub record QueueAnalyzer (F D : Type 0) : Type 0 where
  pub max_batch_size : ℕ
  pub max_queue_size : ℕ
  pub prefill : PrefillParms F
  pub decode : DecodeParms F
  pub request_size : RequestSize
  pub model : QueueModel F D
  pub rate_range : RateRange F

module _ {F D : Type 0} ⦃f : Float F⦄ ⦃e : Float D⦄ ⦃d : Double D⦄ ⦃c : Conversion F D⦄ where
  open f use {add, sub, mul, div, lt}

  unfoldable pub build_model : CheckedConfiguration F → RequestSize → QueueAnalyzer F D
  unfolding service_rate
  build_model cfg r =
      let n = cfg.batch_size in
      let rates = service_rates cfg.prefill cfg.decode r n 1 in
      let lambda_min = mul (service_rate cfg.prefill cfg.decode r 1) small_disturbance in
      let lambda_max =
        mul (service_rate cfg.prefill cfg.decode r n) (sub (of_nat 1) small_disturbance) in
      record {
        max_batch_size = n;
        max_queue_size = cfg.queue_size;
        prefill = cfg.prefill;
        decode = cfg.decode;
        request_size = r;
        model = new_queue_model (cfg.queue_size + n) rates;
        rate_range = record {
          min = mul lambda_min (of_nat 1000);
          max = mul lambda_max (of_nat 1000);
        };
      }

  unfoldable pub new_queue_analyzer :
      Configuration F → RequestSize → Result (QueueError F) (QueueAnalyzer F D)
  unfolding build_model check_configuration check_request_size
  new_queue_analyzer cfg r = elim (check_configuration cfg) [
    | none ↦ err invalid_configuration
    | some cfg ↦
        if check_request_size r then ok (build_model cfg r) else err (invalid_request_size r)
  ]

  -- The metrics that Analyze takes from the solved model.
  unfoldable pub metrics_of : QueueAnalyzer F D → AnalysisMetrics F
  metrics_of qa =
      let m = qa.model in
      let conc =
        effective_concurrency m.avg_serv_time qa.prefill qa.decode qa.request_size
          qa.max_batch_size in
      let rho = div m.avg_num_in_servers (of_nat qa.max_batch_size) in
      record {
        throughput = mul m.throughput (of_nat 1000);
        avg_resp_time = m.avg_resp_time;
        avg_wait_time = m.avg_wait_time;
        avg_num_in_serv = m.avg_num_in_servers;
        avg_prefill_time = prefill_time qa.prefill qa.request_size.avg_input_tokens conc;
        avg_token_time = decode_time qa.decode conc;
        max_rate = qa.rate_range.max;
        rho = float_min (float_max rho nought) (of_nat 1);
      }

  -- Analyze changes the model of the analyzer.
  unfoldable pub analyze :
      QueueAnalyzer F D → F → QueueAnalyzer F D × Result (QueueError F) (AnalysisMetrics F)
  unfolding metrics_of
  analyze qa rate =
      let qa' = record qa { model = solve_queue qa.model (div rate (of_nat 1000)) (of_nat 1) } in
      if ge nought rate
      then (qa, err (invalid_request_rate rate))
      else if lt qa.rate_range.max rate
      then (qa, err (rate_above_max rate qa.rate_range.max))
      else if not qa'.model.is_valid
      then (qa', err invalid_model)
      else (qa', ok (metrics_of qa'))
