-- ===== src/Queue/WellFormed.antt =====
-- pkg/analyzer/queueanalyzer.go: the invariant of an analyzer.
use inferno_autoscaler.Base.{
  ℕ, zero, suc, ◌+◌, ◌<◌, Bool, not, true, false, ◌≡◌, refl, subst, ap, ◌∙◌, arith, if◌then◌else◌,
  Option, none, some, length, Float, of_nat, nought, ge, Double, Conversion, ℤ, pos, negsuc,
}
use inferno_autoscaler.Config.{PrefillParms, DecodeParms}
use inferno_autoscaler.Queue.Parameters.{
  Result, ServiceParms, ok, err, Configuration, RequestSize, CheckedConfiguration, QueueError,
  TargetPerf, check_configuration, check_request_size, check_parms, check_sizes, service_rates,
  invalid_configuration, invalid_request_size, no_rate_for_ttft, no_rate_for_itl, check_targets,
}
use inferno_autoscaler.Queue.Model.{QueueModel, solve_queue, new_queue_model}
use inferno_autoscaler.Queue.Shape.{KeepsShape, solve_queue-KeepsShape, length-replicate}
use inferno_autoscaler.Queue.Analyzer.{QueueAnalyzer, build_model, new_queue_analyzer, analyze}
use inferno_autoscaler.Queue.Sizing.{
  size, size_itl, size_at, max_rate_for, eval_ttft, eval_itl, eval_with, SizeResult, lambda_min,
  lambda_max, itl_of, ttft_of,
}
use inferno_autoscaler.Queue.States.{binary_search-keeps}

-- The first part of either branch of a test.
if_first :
    {A R : Type 0} (P : A → Type 0) (b : Bool) (x y : A × R)
    → P x.0
    → P y.0
    → P (if b then x else y).0
if_first P true x y hx hy = hx
if_first P false x y hx hy = hy

if-ok :
    {E A : Type 0} (b : Bool) (e : E) (x y : A)
    → (if b then ok x else err e) ≡ ok y
    → (b ≡ true) × (x ≡ y)
if-ok true e x y h = (refl, cc)
if-ok false e x y h = cc

-- The sizes by which the code indexes: at least one request in a batch, a service rate for each size
-- of a batch, and a probability for each number of requests that the queue and the batch hold.
pub record IsShaped {F D : Type 0} (qa : QueueAnalyzer F D) : Type 0 where
  pub batch : 0 < qa.max_batch_size
  pub rates : length qa.model.serv_rate ≡ qa.max_batch_size
  pub occupancy : qa.model.k ≡ qa.max_queue_size + qa.max_batch_size
  pub places : length qa.model.p ≡ suc qa.model.k

module _ {F : Type 0} ⦃f : Float F⦄ where
  length-service_rates :
      (p : PrefillParms F) (d : DecodeParms F) (r : RequestSize) (left n : ℕ)
      → length (service_rates p d r left n) ≡ left
  unfolding service_rates
  length-service_rates p d r zero n = refl
  length-service_rates p d r (suc left) n = ap suc (length-service_rates p d r left (n + 1))

-- Input tokens that are not negative, and at least one output token.
abbrev pub IsRequest : RequestSize → Type 0
IsRequest r = (i : ℕ) × (o : ℕ) × (r.avg_input_tokens ≡ pos i) × (r.avg_output_tokens ≡ pos (suc o))

check_request_size-IsRequest :
    (i o : ℤ)
    → check_request_size (record { avg_input_tokens = i; avg_output_tokens = o }) ≡ true
    → IsRequest (record { avg_input_tokens = i; avg_output_tokens = o })
unfolding check_request_size
check_request_size-IsRequest (pos i) (pos (suc o)) h = (i, o, refl, refl)
check_request_size-IsRequest (pos i) (pos zero) h = absurd (ground (arith, h))
check_request_size-IsRequest (pos i) (negsuc o) h = absurd (ground (arith, h))
check_request_size-IsRequest (negsuc i) o h = absurd (ground (arith, h))

module _ {F : Type 0} where
  check_parms-some :
      (o : Option (ServiceParms F)) (p : PrefillParms F) (d : DecodeParms F)
      → check_parms o ≡ some (p, d)
      → o ≡ some (record { prefill = some p; decode = some d })
  check_parms-some none p d h = cc
  check_parms-some (some s) p d h = ground arith

  check_sizes-some :
      (b q : ℤ) (parms : PrefillParms F × DecodeParms F) (r : CheckedConfiguration F)
      → check_sizes b q parms ≡ some r
      → (b ≡ pos r.batch_size)
        × (q ≡ pos r.queue_size)
        × (0 < r.batch_size)
        × (parms ≡ (r.prefill, r.decode))
  check_sizes-some (pos (suc n)) (pos q) parms r h = ground arith
  check_sizes-some (pos zero) q parms r h = cc
  check_sizes-some (negsuc n) q parms r h = cc
  check_sizes-some (pos (suc n)) (negsuc q) parms r h = cc

  checked-some :
      (o : Option (PrefillParms F × DecodeParms F)) (b q : ℤ) (r : CheckedConfiguration F)
      → (let out : Option (CheckedConfiguration F) = elim o [
        | none ↦ none
        | some parms ↦ check_sizes b q parms
      ] in
          out ≡ some r)
      → (o ≡ some (r.prefill, r.decode))
        × (b ≡ pos r.batch_size)
        × (q ≡ pos r.queue_size)
        × (0 < r.batch_size)
  checked-some none b q r h = cc
  checked-some (some parms) b q r h =
      let (batch, queue, positive, same) = check_sizes-some b q parms r h in
      (ap some same, batch, queue, positive)

  check_configuration-some :
      (c : Configuration F) (r : CheckedConfiguration F)
      → check_configuration c ≡ some r
      → (c.max_batch_size ≡ pos r.batch_size)
        × (c.max_queue_size ≡ pos r.queue_size)
        × (c.service_parms ≡ some (record { prefill = some r.prefill; decode = some r.decode }))
        × (0 < r.batch_size)
  unfolding check_configuration
  check_configuration-some c r h =
      let (parms, batch, queue, positive) =
        checked-some (check_parms c.service_parms) c.max_batch_size c.max_queue_size r h in
      (batch, queue, check_parms-some c.service_parms r.prefill r.decode parms, positive)

module _ {F D : Type 0} ⦃f : Float F⦄ ⦃e : Float D⦄ ⦃d : Double D⦄ ⦃c : Conversion F D⦄ where
  build_model-IsShaped :
      (cfg : CheckedConfiguration F) (r : RequestSize)
      → 0 < cfg.batch_size
      → IsShaped (build_model {D = D} cfg r)
  unfolding build_model new_queue_model
  build_model-IsShaped cfg r positive = record {
    batch = positive;
    rates = length-service_rates cfg.prefill cfg.decode r cfg.batch_size 1;
    occupancy = refl;
    places = length-replicate (cfg.queue_size + cfg.batch_size + 1) nought ∙ omega arith;
  }

  made-ok :
      (o : Option (CheckedConfiguration F)) (r : RequestSize) (qa : QueueAnalyzer F D)
      → (let out : Result (QueueError F) (QueueAnalyzer F D) = elim o [
        | none ↦ err invalid_configuration
        | some cfg ↦
            if check_request_size r then ok (build_model cfg r) else err (invalid_request_size r)
      ] in
          out ≡ ok qa)
      → (cfg : CheckedConfiguration F) × (o ≡ some cfg)
        × (check_request_size r ≡ true)
        × (build_model cfg r ≡ qa)
  made-ok none r qa h = cc
  made-ok (some cfg) r qa h =
      let (request, same) =
        if-ok (check_request_size r) (invalid_request_size r) (build_model cfg r) qa h in
      (cfg, refl, request, same)

  -- What the caller gave for an analyzer.
  abbrev pub Fits : Configuration F → RequestSize → QueueAnalyzer F D → Type 0
  Fits cfg r qa =
      (cfg.max_batch_size ≡ pos qa.max_batch_size)
      × (cfg.max_queue_size ≡ pos qa.max_queue_size)
      × (cfg.service_parms ≡ some (record { prefill = some qa.prefill; decode = some qa.decode }))
      × (r ≡ qa.request_size)
      × IsRequest r

  -- An analyzer is made only of a configuration with a positive batch size, a queue size that is not
  -- negative and no nil, and of a request size with input tokens that are not negative and at least one
  -- output token. It has their values, a service rate
  -- for each batch size from 1 on, room for the batch and the queue, and an entry for the probability of
  -- every number of requests from 0 to that: the entries that the code indexes.
  pub new_queue_analyzer-IsShaped :
      (cfg : Configuration F) (r : RequestSize) (qa : QueueAnalyzer F D)
      → new_queue_analyzer cfg r ≡ ok qa
      → Fits cfg r qa × IsShaped qa
  unfolding new_queue_analyzer
  new_queue_analyzer-IsShaped cfg r qa h =
      let (checked, conf, request, same) = made-ok (check_configuration cfg) r qa h in
      let (batch, queue, parms, positive) = check_configuration-some cfg checked conf in
      subst (λ q. Fits cfg r q × IsShaped q) same
        (
          (
            batch,
            queue,
            parms,
            refl,
            check_request_size-IsRequest r.avg_input_tokens r.avg_output_tokens request,
          ),
          build_model-IsShaped checked r positive,
        )

  keeps-IsShaped :
      (qa : QueueAnalyzer F D) (m : QueueModel F D)
      → IsShaped qa
      → KeepsShape qa.model m
      → IsShaped (record qa { model = m })
  keeps-IsShaped qa m s k = record {
    batch = s.batch;
    rates = ap length k.2 ∙ s.rates;
    occupancy = k.1 ∙ s.occupancy;
    places = k.0;
  }

  -- Analyze keeps the sizes.
  analyze-IsShaped :
      (qa : QueueAnalyzer F D) (rate : F) → IsShaped qa → IsShaped (analyze qa rate).0
  unfolding analyze
  analyze-IsShaped qa rate s =
      let m = solve_queue qa.model (f.div rate (of_nat 1000)) (of_nat 1) in
      let s' =
        keeps-IsShaped qa m s
          (solve_queue-KeepsShape qa.model (f.div rate (of_nat 1000)) (of_nat 1) s.places) in
      if_first IsShaped (ge nought rate) _ _ s (
        if_first IsShaped (f.lt qa.rate_range.max rate) _ _ s
          (if_first IsShaped (not m.is_valid) _ _ s' s'))

  -- A search with one of the functions keeps the shape of the model.
  eval_with-KeepsShape :
      (value : QueueModel F D → F) (m0 m : QueueModel F D) (x : F)
      → KeepsShape m0 m
      → KeepsShape m0 (eval_with value m x).0
  unfolding eval_with
  eval_with-KeepsShape value m0 m x (places, k, rates) =
      let (places', k', rates') = solve_queue-KeepsShape m x (of_nat 1) places in
      (places', k' ∙ k, rates' ∙ rates)

  max_rate_for-IsShaped :
      (qa : QueueAnalyzer F D) (value : QueueModel F D → F) (error : QueueError F) (target : F)
      → IsShaped qa
      → IsShaped (record qa { model = (max_rate_for qa (eval_with value) error target qa.model).0 })
  unfolding max_rate_for
  max_rate_for-IsShaped qa value error target s =
      let m = qa.model in
      let same : KeepsShape m m = (s.places, refl, refl) in
      let kept =
        binary_search-keeps (eval_with value) (KeepsShape m) (eval_with-KeepsShape value m) target
          (lambda_min qa) (lambda_max qa) m same in
      keeps-IsShaped qa _ s (if_first (KeepsShape m) (f.lt nought target) _ _ kept same)

  result-IsShaped :
      (r : Result (QueueError F) F) (qa : QueueAnalyzer F D)
      (k : F → QueueAnalyzer F D × SizeResult F)
      → IsShaped qa
      → ((x : F) → IsShaped (k x).0)
      → IsShaped
          (let out : QueueAnalyzer F D × SizeResult F = elim r [
            | err error ↦ (qa, err error)
            | ok x ↦ k x
          ] in
            out).0
  result-IsShaped (err error) qa k hq hk = hq
  result-IsShaped (ok x) qa k hq hk = hk x

  size_at-IsShaped :
      (qa : QueueAnalyzer F D) (t : TargetPerf F) (ttft itl : F)
      → IsShaped qa
      → IsShaped (size_at qa t ttft itl).0
  unfolding size_at
  size_at-IsShaped qa t ttft itl s = analyze-IsShaped qa _ s

  size_itl-IsShaped :
      (qa : QueueAnalyzer F D) (t : TargetPerf F) (ttft : F)
      → IsShaped qa
      → IsShaped (size_itl qa t ttft).0
  unfolding size_itl eval_itl
  size_itl-IsShaped qa t ttft s =
      let s' = max_rate_for-IsShaped qa (itl_of qa) (no_rate_for_itl t.target_itl) t.target_itl s in
      result-IsShaped _ _ _ s' (λ x. size_at-IsShaped _ t ttft x s')

  -- Analyze and Size keep the sizes by which the analyzer's code indexes, also where they fail.
  size-IsShaped :
      (qa : QueueAnalyzer F D) (t : TargetPerf F) (rate : F)
      → IsShaped qa
      → IsShaped (analyze qa rate).0 × IsShaped (size qa t).0
  unfolding size eval_ttft
  size-IsShaped qa t rate s =
      let s' =
        max_rate_for-IsShaped qa (ttft_of qa) (no_rate_for_ttft t.target_ttft) t.target_ttft s in
      (
        analyze-IsShaped qa rate s,
        if_first IsShaped (check_targets t) _ _
            (result-IsShaped _ _ _ s' (λ x. size_itl-IsShaped _ t x s')) s,
      )
