-- ===== src/Queue/Model.antt =====
-- pkg/analyzer/queuemodel.go and mm1modelstatedependent.go: the queue with a service rate for each
-- number of requests in it, and its base classes, as one record; the virtual calls are resolved.
use inferno_autoscaler.Base.{
  ℕ, suc, ◌+◌, Bool, true, false, ◌||◌, not, List, [], if◌then◌else◌, length, Float, of_nat, nought,
  ge, Double, Conversion,
}
use inferno_autoscaler.Queue.Weights.{
  replicate, at, divide_all, scale_of, weigh, reverse_onto, sum_first, sum_loop, average_loop,
  later,
}

-- `settled` is false once a rescaling loop has not ended within `max_rescalings` rounds.
pub record QueueModel (F D : Type 0) : Type 0 where
  pub lambda : F
  pub mu : F
  pub rho : F
  pub avg_resp_time : F
  pub avg_wait_time : F
  pub avg_serv_time : F
  pub avg_num_in_system : F
  pub avg_queue_length : F
  pub is_valid : Bool
  pub k : ℕ
  pub p : List D
  pub sum_p : D
  pub throughput : F
  pub serv_rate : List F
  pub avg_num_in_servers : F
  pub settled : Bool

module _ {F D : Type 0} ⦃f : Float F⦄ ⦃e : Float D⦄ ⦃d : Double D⦄ ⦃c : Conversion F D⦄ where
  open c use {narrow}

  -- 1 - float32(m.p[0])
  unfoldable pub compute_rho : QueueModel F D → F
  compute_rho m = f.sub (of_nat 1) (narrow (at m.p 0))

  unfoldable pub compute_probabilities : QueueModel F D → QueueModel F D
  unfolding compute_rho
  compute_probabilities m =
      let scale = scale_of m.k in
      let (ws, settled) = weigh m.k 0 scale m.lambda m.serv_rate (of_nat 1) [] m.settled in
      let (sum, ps) = sum_loop (suc m.k) 0 scale nought (reverse_onto ws []) in
      let qs = divide_all ps sum in
      let m' = record m { p = qs; sum_p = sum_first (suc m.k) nought qs; settled = settled } in
      record m' { rho = compute_rho m' }

  unfoldable pub compute_statistics : QueueModel F D → QueueModel F D
  compute_statistics m0 =
      let m = compute_probabilities m0 in
      let (in_system, in_servers) =
        average_loop (length m.serv_rate) 1 nought (at m.p 0) nought (later m.p) in
      let throughput = f.mul m.lambda (f.sub (of_nat 1) (narrow (at m.p m.k))) in
      let resp = f.div (narrow in_system) throughput in
      let serv = f.div (narrow in_servers) throughput in
      let wait = if f.lt (f.sub resp serv) nought then nought else f.sub resp serv in
      if m0.is_valid
      then record m {
        avg_num_in_servers = narrow in_servers;
        avg_num_in_system = narrow in_system;
        throughput = throughput;
        avg_resp_time = resp;
        avg_serv_time = serv;
        avg_wait_time = wait;
        avg_queue_length = f.mul throughput wait;
      }
      else m0

  -- GetRhoMax
  abbrev pub rho_max : QueueModel F D → F
  rho_max m = of_nat m.k

  -- The check of QueueModel.Solve, on the utilization of the state before.
  abbrev pub is_solvable : QueueModel F D → (lambda mu : F) → Bool
  is_solvable m lambda mu =
      let rho = compute_rho m in
      not (f.lt rho nought || ge rho (rho_max m) || f.lt lambda nought || ge nought mu)

  unfoldable pub solve_queue : QueueModel F D → (lambda mu : F) → QueueModel F D
  solve_queue m lambda mu =
      let valid = is_solvable m lambda mu in
      let m' = record m { lambda = lambda; mu = mu; rho = compute_rho m; is_valid = valid } in
      if valid then compute_statistics m' else m'

  -- NewMM1ModelStateDependent
  unfoldable pub new_queue_model : ℕ → List F → QueueModel F D
  new_queue_model k serv_rate = record {
    lambda = nought;
    mu = nought;
    rho = nought;
    avg_resp_time = nought;
    avg_wait_time = nought;
    avg_serv_time = nought;
    avg_num_in_system = nought;
    avg_queue_length = nought;
    is_valid = false;
    k = k;
    p = replicate (k + 1) nought;
    sum_p = nought;
    throughput = nought;
    serv_rate = serv_rate;
    avg_num_in_servers = nought;
    settled = true;
  }
