-- ===== src/Collector/Status.antt =====
-- internal/collector/collector.go, AddMetricsToOptStatus: the current allocation of a variant.
use inferno_autoscaler.Base.{
  ℕ, String, Option, none, some, if◌then◌else◌, lookup_or, str_eq, Float, of_nat, Double,
}
use inferno_autoscaler.Controller.Types.{VariantAutoscaling, Deployment, CurrentAlloc}
use inferno_autoscaler.Collector.Prometheus.{
  Prometheus, sum_rate, rate_ratio, query_and_extract_metric,
}

-- An allocation, an error, or the panic of a nil pointer.
pub data Collected : Type 0 where
  collected : CurrentAlloc → Collected
  not_collected : Collected
  panicked : Collected

-- The values of the five queries, in the units of the code.
pub record Metrics (D : Type 0) : Type 0 where
  pub arrival : D
  pub input_tokens : D
  pub output_tokens : D
  pub ttft : D
  pub itl : D

module _ {D C : Type 0} ⦃f : Float D⦄ ⦃d : Double D⦄ (prometheus : Prometheus D C) where
  -- A query, and what follows if it does not fail.
  abbrev pub then_with : String → (D → C → C × Option (Metrics D)) → C → C × Option (Metrics D)
  then_with query next c =
      let (c', value) = query_and_extract_metric prometheus query c in
      elim value [ none ↦ (c', none) | some x ↦ next x c' ]

  -- The queries in order, up to the first that fails.
  unfoldable pub collect_values : (model_name namespace : String) → C → C × Option (Metrics D)
  collect_values model_name namespace =
      let ratio : String → String → String =
        λ sum count. rate_ratio sum count model_name namespace in
      then_with (sum_rate "vllm:request_success_total" model_name namespace) (λ arrival.
        then_with (ratio "vllm:request_prompt_tokens_sum" "vllm:request_prompt_tokens_count")
          (λ input.
            then_with
              (ratio "vllm:request_generation_tokens_sum" "vllm:request_generation_tokens_count")
              (λ output.
                then_with
                  (ratio "vllm:time_to_first_token_seconds_sum"
                    "vllm:time_to_first_token_seconds_count")
                  (λ ttft.
                    then_with
                      (ratio "vllm:time_per_output_token_seconds_sum"
                        "vllm:time_per_output_token_seconds_count")
                      (λ itl (c : C). (
                        c,
                        some (record {
                          arrival = f.mul arrival (of_nat 60);
                          input_tokens = input;
                          output_tokens = output;
                          ttft = f.mul ttft (of_nat 1000);
                          itl = f.mul itl (of_nat 1000);
                        }),
                      ))))))

-- The text of a float with two decimals is a parameter: strconv.FormatFloat(x, 'f', 2, 64).
module _ {D : Type 0} ⦃f : Float D⦄ (format : D → String) where
  -- The allocation of a variant with an accelerator.
  abbrev pub allocation_with :
      (acc : String) (num_replicas : ℕ) (cost : D) → Metrics D → CurrentAlloc
  allocation_with acc num_replicas cost m = record {
    accelerator = acc;
    num_replicas = num_replicas;
    max_batch = 256;
    variant_cost = format (f.mul (of_nat num_replicas) cost);
    itl_average = format m.itl;
    ttft_average = format m.ttft;
    load = record {
      arrival_rate = format m.arrival;
      avg_input_tokens = format m.input_tokens;
      avg_output_tokens = format m.output_tokens;
    };
  }

  -- What follows the queries: the replicas first, then the accelerator.
  unfoldable pub status_of : VariantAutoscaling → Deployment → (cost : D) → Metrics D → Collected
  status_of opt deployment cost m = elim deployment.spec_replicas [
    | none ↦ panicked
    | some n ↦
        let acc = lookup_or "" "inference.optimization/acceleratorName" opt.labels in
        if str_eq acc "" then not_collected else collected (allocation_with acc n cost m)
  ]

  -- AddMetricsToOptStatus
  unfoldable pub add_metrics_to_opt_status :
      {C : Type 0}
      → ⦃d : Double D⦄ → Prometheus D C
      → VariantAutoscaling
      → Deployment
      → (cost : D) → C
      → C × Collected
  add_metrics_to_opt_status prometheus opt deployment cost c =
      let (c', values) = collect_values prometheus opt.model_id deployment.namespace c in
      (c', elim values [ none ↦ not_collected | some m ↦ status_of opt deployment cost m ])
