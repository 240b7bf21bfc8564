-- ===== src/Core/Creation.antt =====
-- pkg/core/allocation.go: CreateAllocation, Scale and ReAllocate; and the candidates of server.go and
-- system.go. The type D of float64 is an argument.
use inferno_autoscaler.Base.{
  ℕ, ◌*◌, ◌/◌, max, String, ◌||◌, Option, none, some, ltb, ◌==◌, if◌then◌else◌, lookup, Float,
  of_nat, nought, Double, Conversion, ℤ, pos, negsuc,
}
use inferno_autoscaler.Config.{ModelAcceleratorPerfData, max_queue_to_batch_ratio}
use inferno_autoscaler.Core.Types.{Accelerator, Model, Target, Allocation, Server, System}
use inferno_autoscaler.Core.Server.{num_instances_of}
use inferno_autoscaler.Queue.Parameters.{ok, err, Configuration, RequestSize, TargetPerf}
use inferno_autoscaler.Queue.Analyzer.{QueueAnalyzer, new_queue_analyzer, analyze}
use inferno_autoscaler.Queue.Sizing.{size}

-- What CreateAllocation reads of the system; each part is there.
pub record Parts (F : Type 0) : Type 0 where
  pub acc : Accelerator F
  pub server : Server F
  pub model : Model F
  pub perf : ModelAcceleratorPerfData F
  pub target : Target F

module _ {F : Type 0} where
  -- The service class and its target for the model of the server.
  abbrev pub target_of : System F → Server F → Option (Target F)
  target_of sys server = elim (lookup server.service_class_name sys.service_classes) [
    | none ↦ none
    | some svc ↦ lookup server.model_name svc.targets
  ]

  -- The parts for a server and an accelerator; none where one is missing.
  unfoldable pub find_parts : System F → (server_name g_name : String) → Option (Parts F)
  find_parts sys server_name g_name = elim (lookup g_name sys.accelerators) [
    | none ↦ none
    | some acc ↦ elim (lookup server_name sys.servers) [
      | none ↦ none
      | some server ↦ elim (lookup server.model_name sys.models) [
        | none ↦ none
        | some model ↦ elim (lookup g_name model.perf_data) [
          | none ↦ none
          | some perf ↦ elim (target_of sys server) [
            | none ↦ none
            | some target ↦
                some (record {
                  acc = acc;
                  server = server;
                  model = model;
                  perf = perf;
                  target = target;
                })
          ]
        ]
      ]
    ]
  ]

module _ {F : Type 0} ⦃f : Float F⦄ where
  open f use {add, mul, div, lt, eq}

  -- acc.Cost() * float32(totalNumInstances)
  abbrev pub cost_of : Parts F → String → ℕ → F
  cost_of p g_name num_replicas =
      mul p.acc.spec.cost (of_nat (num_instances_of p.model g_name * num_replicas))

  unfoldable pub zero_load_allocation : Parts F → Allocation F
  zero_load_allocation p =
      let num_replicas = p.server.min_num_replicas in
      let g_name = p.acc.name in
      let cost = cost_of p g_name num_replicas in
      let decode = p.perf.decode_parms in
      let prefill = p.perf.prefill_parms in
      let max_batch_size =
        if ltb 0 p.server.max_batch_size then p.server.max_batch_size else p.perf.max_batch_size in
      let max_decode_time = add decode.alpha (mul decode.beta (of_nat max_batch_size)) in
      let prefill_time = add prefill.gamma prefill.delta in
      let max_serv_time = add prefill_time max_decode_time in
      if num_replicas == 0
      then record {
        accelerator = "";
        num_replicas = 0;
        batch_size = 0;
        cost = nought;
        value = nought;
        itl = nought;
        ttft = nought;
        rho = nought;
        max_arrv_rate_per_replica = nought;
      }
      else record {
        accelerator = g_name;
        num_replicas = num_replicas;
        batch_size = max_batch_size;
        cost = cost;
        value = cost;
        itl = add decode.alpha decode.beta;
        ttft = prefill_time;
        rho = nought;
        max_arrv_rate_per_replica = div (of_nat max_batch_size) max_serv_time;
      }

  -- N, the batch size of a replica
  abbrev pub batch_size_of : Parts F → ℕ
  batch_size_of p =
      if ltb 0 p.server.max_batch_size
      then p.server.max_batch_size
      else max (p.perf.max_batch_size * p.perf.at_tokens / p.server.load.avg_out_tokens) 1

  abbrev pub configuration_of : Parts F → Configuration F
  configuration_of p = record {
    max_batch_size = pos (batch_size_of p);
    max_queue_size = pos (batch_size_of p * max_queue_to_batch_ratio);
    service_parms =
        some (record { prefill = some p.perf.prefill_parms; decode = some p.perf.decode_parms });
  }

  abbrev pub request_size_of : Parts F → RequestSize
  request_size_of p = record {
    avg_input_tokens = pos p.server.load.avg_in_tokens;
    avg_output_tokens = pos p.server.load.avg_out_tokens;
  }

  abbrev pub target_perf_of : Parts F → TargetPerf F
  target_perf_of p = record {
    target_ttft = p.target.ttft;
    target_itl = p.target.itl;
    target_tps = p.target.tps;
  }

  -- The rate of all replicas, per second.
  abbrev pub total_rate_of : Parts F → F
  total_rate_of p =
      if eq p.target.tps nought
      then div p.server.load.arrival_rate (of_nat 60)
      else div p.target.tps (of_nat p.server.load.avg_out_tokens)

-- max(n, least)
unfoldable pub at_least : ℤ → ℕ → ℕ
at_least (pos n) least = max n least
at_least (negsuc n) least = least

module _ {F : Type 0} (D : Type 0) ⦃f : Float F⦄ ⦃e : Float D⦄ ⦃d : Double D⦄
    ⦃c : Conversion F D⦄ where
  open f use {add, mul, div, lt, eq}

  -- int(math.Ceil(totalRate / rateStar)), and at least the minimum of the server
  unfoldable pub replicas_for : Parts F → (rate_star : F) → ℕ
  unfolding at_least
  replicas_for p rate_star =
      at_least (d.to_int (d.ceil (e.div (c.widen (total_rate_of p)) (c.widen rate_star))))
        p.server.min_num_replicas

  -- From the maximum rate of a replica on.
  unfoldable pub allocate_replicas :
      Parts F → String → QueueAnalyzer F D → (rate_star : F) → Option (Allocation F)
  unfolding replicas_for analyze
  allocate_replicas p g_name qa rate_star =
      let n = replicas_for p rate_star in
      let cost = cost_of p g_name n in
      elim (analyze qa (div (total_rate_of p) (of_nat n))).1 [
        | err error ↦ none
        | ok metrics ↦ some (record {
          accelerator = g_name;
          num_replicas = n;
          batch_size = batch_size_of p;
          cost = cost;
          value = cost;
          itl = metrics.avg_token_time;
          ttft = add metrics.avg_wait_time metrics.avg_prefill_time;
          rho = metrics.rho;
          max_arrv_rate_per_replica = div rate_star (of_nat 1000);
        })
      ]

  -- From the queue analyzer on.
  unfoldable pub size_allocation : Parts F → String → QueueAnalyzer F D → Option (Allocation F)
  unfolding allocate_replicas size
  size_allocation p g_name qa =
      let (qa', r) = size qa (target_perf_of p) in
      elim r [
        | err error ↦ none
        | ok (rates, metrics, achieved) ↦ allocate_replicas p g_name qa' metrics.throughput
      ]

  -- With all parts there, and a load that is not negative.
  unfoldable pub create_from : Parts F → String → Option (Allocation F)
  unfolding zero_load_allocation size_allocation new_queue_analyzer
  create_from p g_name =
      if eq p.server.load.arrival_rate nought || p.server.load.avg_out_tokens == 0
      then some (zero_load_allocation p)
      else elim (new_queue_analyzer {D = D} (configuration_of p) (request_size_of p)) [
        | err error ↦ none
        | ok qa ↦ size_allocation p g_name qa
      ]

  -- CreateAllocation. The counts of tokens are natural numbers here, and so never negative.
  unfoldable pub create_allocation :
      System F → (server_name g_name : String) → Option (Allocation F)
  unfolding find_parts create_from
  create_allocation sys server_name g_name = elim (find_parts sys server_name g_name) [
    | none ↦ none
    | some p ↦ if lt p.server.load.arrival_rate nought then none else create_from p g_name
  ]
