-- ===== src/Core/Feasible.antt =====
-- pkg/core/allocation.go: what CreateAllocation gives.
use inferno_autoscaler.Base.{
  ℕ, ◌≤◌, String, Bool, true, false, ◌||◌, Option, none, some, ◌==◌, ◌≡◌, refl, ap, subst, arith,
  inl, inr, ◌⊎◌, if_cases, if◌then◌else◌, lookup, lookup_or, ◌*◌, All, lookup-All, Float, of_nat,
  nought, IsOrdered, Double, Conversion, ℤ, pos, negsuc,
}
use inferno_autoscaler.Core.Types.{Allocation, System}
use inferno_autoscaler.Core.WellFormed.{IsAccelerator}
use inferno_autoscaler.Core.Creation.{
  Parts, find_parts, target_of, cost_of, zero_load_allocation, at_least, replicas_for,
  allocate_replicas, size_allocation, batch_size_of, create_from, create_allocation, total_rate_of,
  target_perf_of, configuration_of, request_size_of,
}
use inferno_autoscaler.Queue.Parameters.{Result, ok, err, QueueError, AnalysisMetrics}
use inferno_autoscaler.Queue.Bounds.{IsIn}
use inferno_autoscaler.Queue.Analyzer.{QueueAnalyzer, analyze, new_queue_analyzer}
use inferno_autoscaler.Queue.Sizing.{size, SizeResult}
use inferno_autoscaler.Queue.Results.{Reports, analyze-Reports}

if-some :
    {A : Type 0} (b : Bool) (o : Option A) (a : A)
    → (if b then none else o) ≡ some a
    → (b ≡ false) × (o ≡ some a)
if-some true o a h = cc
if-some false o a h = (refl, h)

module _ {F : Type 0} where
  pub find_parts-some :
      (sys : System F) (server_name g_name : String) (p : Parts F)
      → find_parts sys server_name g_name ≡ some p
      → (lookup g_name sys.accelerators ≡ some p.acc)
        × (lookup server_name sys.servers ≡ some p.server)
        × (lookup p.server.model_name sys.models ≡ some p.model)
        × (lookup g_name p.model.perf_data ≡ some p.perf)
        × (target_of sys p.server ≡ some p.target)
  unfolding find_parts
  find_parts-some sys server_name g_name p h = ground (arith, h)

at_least-le : (n : ℤ) (least : ℕ) → least ≤ at_least n least
unfolding at_least
at_least-le (pos n) least = omega arith
at_least-le (negsuc n) least = omega arith

module _ {F : Type 0} ⦃f : Float F⦄ where
  -- No traffic, or no tokens in it.
  abbrev pub is_idle : Parts F → Bool
  is_idle p = f.eq p.server.load.arrival_rate nought || p.server.load.avg_out_tokens == 0

  -- At least the minimum number of replicas on the accelerator, which cost what its instances cost; the
  -- cost is the value.
  abbrev pub IsPriced : Parts F → String → Allocation F → Type 0
  IsPriced p g_name a =
      (a.accelerator ≡ g_name)
      × (p.server.min_num_replicas ≤ a.num_replicas)
      × (a.cost
          ≡ f.mul p.acc.spec.cost
              (of_nat (lookup_or 0 g_name p.model.num_instances * a.num_replicas)))
      × (a.value ≡ a.cost)

  -- Nothing, at no cost.
  abbrev pub IsNothing : Allocation F → Type 0
  IsNothing a = (a.accelerator ≡ "") × (a.num_replicas ≡ 0) × (a.cost ≡ nought) × (a.value ≡ nought)

  -- Without traffic, the minimum number of replicas, or nothing if it is 0; with traffic, a priced
  -- allocation whose utilization is between 0 and 1.
  abbrev pub IsFeasible : Parts F → String → Allocation F → Type 0
  IsFeasible p g_name a =
      ((is_idle p ≡ true)
        × (((p.server.min_num_replicas ≡ 0) × IsNothing a)
            ⊎ (IsPriced p g_name a × (a.num_replicas ≡ p.server.min_num_replicas))))
      ⊎ ((is_idle p ≡ false) × IsPriced p g_name a × IsIn nought (of_nat 1) a.rho)

  zero_load-IsFeasible :
      (p : Parts F) (g_name : String)
      → p.acc.name ≡ g_name
      → is_idle p ≡ true
      → IsFeasible p g_name (zero_load_allocation p)
  unfolding zero_load_allocation
  zero_load-IsFeasible p g_name named idle =
      if_cases (IsFeasible p g_name) (p.server.min_num_replicas == 0) _ _
        (λ none_needed. inl (idle, inl (ground (arith, none_needed), (refl, refl, refl, refl))))
        (λ some_needed. inl (
          idle,
          inr (
            (named, omega arith, ap (λ g. cost_of p g p.server.min_num_replicas) named, refl),
            refl,
          ),
        ))

module _ {F : Type 0} (D : Type 0) ⦃f : Float F⦄ ⦃e : Float D⦄ ⦃d : Double D⦄ ⦃c : Conversion F D⦄
    (laws : IsOrdered F) (natural : (n : ℕ) → f.lt (of_nat n) nought ≡ false) where
  analyze-rho :
      (qa : QueueAnalyzer F D) (rate : F) (m : AnalysisMetrics F)
      → (analyze qa rate).1 ≡ ok m
      → IsIn nought (of_nat 1) m.rho
  analyze-rho qa rate m h =
      (subst (Reports qa rate (analyze qa rate).0) h (analyze-Reports laws natural qa rate)).3.0

  -- The allocation, if there is one, is feasible.
  abbrev Gives : Parts F → String → Option (Allocation F) → Type 0
  Gives p g_name none = Unit
  Gives p g_name (some a) = IsFeasible p g_name a

  module _ (p : Parts F) (g_name : String) (busy : is_idle p ≡ false) where
    analysis-Gives :
        (qa : QueueAnalyzer F D) (rate : F) (n : ℕ) (rate_star : F)
        (r : Result (QueueError F) (AnalysisMetrics F))
        → p.server.min_num_replicas ≤ n
        → (analyze qa rate).1 ≡ r
        → Gives p g_name (
            let out : Option (Allocation F) = elim r [
              | err error ↦ none
              | ok metrics ↦ some (record {
                accelerator = g_name;
                num_replicas = n;
                batch_size = batch_size_of p;
                cost = cost_of p g_name n;
                value = cost_of p g_name n;
                itl = metrics.avg_token_time;
                ttft = f.add metrics.avg_wait_time metrics.avg_prefill_time;
                rho = metrics.rho;
                max_arrv_rate_per_replica = f.div rate_star (of_nat 1000);
              })
            ] in
            out)
    analysis-Gives qa rate n rate_star (err error) enough h = tt
    analysis-Gives qa rate n rate_star (ok metrics) enough h =
        inr (busy, (refl, enough, refl, refl), analyze-rho qa rate metrics h)

    allocate_replicas-Gives :
        (qa : QueueAnalyzer F D) (rate_star : F)
        → Gives p g_name (allocate_replicas D p g_name qa rate_star)
    unfolding allocate_replicas replicas_for
    allocate_replicas-Gives qa rate_star =
        let ceiling = d.to_int (d.ceil (e.div (c.widen (total_rate_of p)) (c.widen rate_star))) in
        let n = replicas_for D p rate_star in
        let rate = f.div (total_rate_of p) (of_nat n) in
        analysis-Gives qa rate n rate_star (analyze qa rate).1
          (at_least-le ceiling p.server.min_num_replicas) refl

    sizing-Gives :
        (qa : QueueAnalyzer F D) (r : SizeResult F)
        → Gives p g_name (
            let out : Option (Allocation F) = elim r [
              | err error ↦ none
              | ok (rates, metrics, achieved) ↦ allocate_replicas D p g_name qa metrics.throughput
            ] in
            out)
    sizing-Gives qa (err error) = tt
    sizing-Gives qa (ok (rates, metrics, achieved)) = allocate_replicas-Gives qa metrics.throughput

    analyzer-Gives :
        (r : Result (QueueError F) (QueueAnalyzer F D))
        → Gives p g_name (
            let out : Option (Allocation F) = elim r [
              | err error ↦ none
              | ok qa ↦ size_allocation D p g_name qa
            ] in
            out)
    unfolding size_allocation
    analyzer-Gives (err error) = tt
    analyzer-Gives (ok qa) = let out = size qa (target_perf_of p) in sizing-Gives out.0 out.1

  create_from-Gives :
      (p : Parts F) (g_name : String)
      → p.acc.name ≡ g_name
      → Gives p g_name (create_from D p g_name)
  unfolding create_from
  create_from-Gives p g_name named =
      if_cases (Gives p g_name) (is_idle p) _ _ (λ idle. zero_load-IsFeasible p g_name named idle)
        (λ busy.
          analyzer-Gives p g_name busy
            (new_queue_analyzer (configuration_of p) (request_size_of p)))

  created-some :
      (o : Option (Parts F)) (g_name : String) (a : Allocation F)
      → (let out : Option (Allocation F) = elim o [
        | none ↦ none
        | some p ↦ if f.lt p.server.load.arrival_rate nought then none else create_from D p g_name
      ] in
          out ≡ some a)
      → (p : Parts F) × (o ≡ some p)
        × (f.lt p.server.load.arrival_rate nought ≡ false)
        × (create_from D p g_name ≡ some a)
  created-some none g_name a h = cc
  created-some (some p) g_name a h =
      let (load, made) =
        if-some (f.lt p.server.load.arrival_rate nought) (create_from D p g_name) a h in
      (p, refl, load, made)

  -- If the accelerators have their names, an allocation that CreateAllocation gives for a server and an
  -- accelerator is made of parts that are all there, for a load that is not negative. Without traffic
  -- it has the minimum number of replicas of the server, or is nothing at no cost if that is 0. With
  -- traffic it has at least this number, and its utilization is between 0 and 1. Its value is its
  -- cost: that of the accelerator, times the instances per replica and the replicas. The order is that
  -- of IEEE 754, and no natural number is below 0.
  pub create_allocation-IsFeasible :
      (sys : System F) (server_name g_name : String) (a : Allocation F)
      → All IsAccelerator sys.accelerators
      → create_allocation D sys server_name g_name ≡ some a
      → (p : Parts F) × (find_parts sys server_name g_name ≡ some p)
        × (f.lt p.server.load.arrival_rate nought ≡ false)
        × IsFeasible p g_name a
  unfolding create_allocation
  create_allocation-IsFeasible sys server_name g_name a named h =
      let (p, parts, load, made) = created-some (find_parts sys server_name g_name) g_name a h in
      let acc = (find_parts-some sys server_name g_name p parts).0 in
      let name = (lookup-All IsAccelerator g_name sys.accelerators acc named).0 in
      (p, parts, load, subst (Gives p g_name) made (create_from-Gives p g_name name))
