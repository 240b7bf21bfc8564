-- ===== src/Queue/Parameters.antt =====
-- pkg/analyzer/queueanalyzer.go: the parameters of the analyzer, their checks, and the times of a request. Its PrefillParms
-- and DecodeParms have the fields of those of pkg/config.
use inferno_autoscaler.Base.{
  ℕ, zero, suc, ◌+◌, Bool, true, false, ◌&&◌, ◌||◌, not, List, [], ◌∷◌, Option, none, some,
  if◌then◌else◌, Float, of_nat, nought, float_min, float_max, ℤ, pos, negsuc,
}
use inferno_autoscaler.Config.{PrefillParms, DecodeParms}

pub data Result (E A : Type 0) : Type 0 where
  ok : A → Result E A
  err : E → Result E A

-- `none` is nil.
pub record ServiceParms (F : Type 0) : Type 0 where
  pub prefill : Option (PrefillParms F)
  pub decode : Option (DecodeParms F)

pub record Configuration (F : Type 0) : Type 0 where
  pub max_batch_size : ℤ
  pub max_queue_size : ℤ
  pub service_parms : Option (ServiceParms F)

pub record RequestSize : Type 0 where
  pub avg_input_tokens : ℤ
  pub avg_output_tokens : ℤ

pub record RateRange (F : Type 0) : Type 0 where
  pub min : F
  pub max : F

pub record AnalysisMetrics (F : Type 0) : Type 0 where
  pub throughput : F
  pub avg_resp_time : F
  pub avg_wait_time : F
  pub avg_num_in_serv : F
  pub avg_prefill_time : F
  pub avg_token_time : F
  pub max_rate : F
  pub rho : F

pub record TargetPerf (F : Type 0) : Type 0 where
  pub target_ttft : F
  pub target_itl : F
  pub target_tps : F

pub record TargetRate (F : Type 0) : Type 0 where
  pub rate_target_ttft : F
  pub rate_target_itl : F
  pub rate_target_tps : F

pub data QueueError (F : Type 0) : Type 0 where
  invalid_configuration : QueueError F
  invalid_request_size : RequestSize → QueueError F
  invalid_request_rate : F → QueueError F
  rate_above_max : (rate max_rate : F) → QueueError F
  invalid_model : QueueError F
  invalid_targets : TargetPerf F → QueueError F
  no_rate_for_ttft : F → QueueError F
  no_rate_for_itl : F → QueueError F

-- What the check of a configuration leaves of it.
pub record CheckedConfiguration (F : Type 0) : Type 0 where
  pub batch_size : ℕ
  pub queue_size : ℕ
  pub prefill : PrefillParms F
  pub decode : DecodeParms F

module _ {F : Type 0} where
  abbrev pub check_parms : Option (ServiceParms F) → Option (PrefillParms F × DecodeParms F)
  check_parms none = none
  check_parms (some s) = elim s.prefill [
    | none ↦ none
    | some p ↦ elim s.decode [ none ↦ none | some d ↦ some (p, d) ]
  ]

  abbrev pub check_sizes :
      (batch queue : ℤ) → PrefillParms F × DecodeParms F → Option (CheckedConfiguration F)
  check_sizes (pos (suc n)) (pos q) parms =
      some (record { batch_size = suc n; queue_size = q; prefill = parms.0; decode = parms.1 })
  check_sizes _ _ parms = none

  -- check of a Configuration: the batch size is positive, the queue size is not negative, and no
  -- pointer is nil.
  unfoldable pub check_configuration : Configuration F → Option (CheckedConfiguration F)
  check_configuration c = elim (check_parms c.service_parms) [
    | none ↦ none
    | some parms ↦ check_sizes c.max_batch_size c.max_queue_size parms
  ]

abbrev pub is_negative : ℤ → Bool
is_negative (pos n) = false
is_negative (negsuc n) = true

abbrev pub is_positive : ℤ → Bool
is_positive (pos (suc n)) = true
is_positive (pos zero) = false
is_positive (negsuc n) = false

abbrev pub is_zero : ℤ → Bool
is_zero (pos zero) = true
is_zero (pos (suc n)) = false
is_zero (negsuc n) = false

-- n - 1
abbrev pub predecessor : ℤ → ℤ
predecessor (pos zero) = negsuc 0
predecessor (pos (suc n)) = pos n
predecessor (negsuc n) = negsuc (suc n)

-- check of a RequestSize
unfoldable pub check_request_size : RequestSize → Bool
check_request_size r = not (is_negative r.avg_input_tokens || not (is_positive r.avg_output_tokens))

-- numDecode: one decode per output token but the first, and one in the case of decode only.
unfoldable pub num_decode : RequestSize → ℤ
num_decode r =
    if is_zero r.avg_input_tokens && is_zero (predecessor r.avg_output_tokens)
    then pos 1
    else predecessor r.avg_output_tokens

module _ {F : Type 0} ⦃f : Float F⦄ where
  open f use {add, sub, mul, div, lt, decimal}

  -- Epsilon and StabilitySafetyFraction
  abbrev pub small_disturbance : F
  small_disturbance = decimal 1 3

  abbrev pub stability_safety_fraction : F
  stability_safety_fraction = decimal 1 1

  unfoldable pub prefill_time : PrefillParms F → ℤ → F → F
  prefill_time p tokens batch =
      if is_zero tokens then nought else add p.gamma (mul (mul p.delta (f.of_int tokens)) batch)

  unfoldable pub decode_time : DecodeParms F → F → F
  decode_time p batch = add p.alpha (mul p.beta batch)

  -- servRate[n-1]
  unfoldable pub service_rate : PrefillParms F → DecodeParms F → RequestSize → ℕ → F
  unfolding prefill_time decode_time num_decode
  service_rate p d r n =
      let x = of_nat n in
      div x (
        add (prefill_time p r.avg_input_tokens x) (mul (f.of_int (num_decode r)) (decode_time d x)))

  -- The rates for n, n + 1, ... requests, `left` of them.
  unfoldable pub service_rates :
      PrefillParms F → DecodeParms F → RequestSize → (left n : ℕ) → List F
  service_rates p d r zero n = []
  service_rates p d r (suc left) n = service_rate p d r n ∷ service_rates p d r left (n + 1)

  unfoldable pub effective_concurrency : F → PrefillParms F → DecodeParms F → RequestSize → ℕ → F
  effective_concurrency serv_time p d r max_batch =
      let tokens = f.of_int (predecessor r.avg_output_tokens) in
      let numerator = sub serv_time (add p.gamma (mul d.alpha tokens)) in
      let denominator = add (mul p.delta (f.of_int r.avg_input_tokens)) (mul d.beta tokens) in
      float_min (float_max (div numerator denominator) nought) (of_nat max_batch)

  -- check of a TargetPerf
  unfoldable pub check_targets : TargetPerf F → Bool
  check_targets t =
      not (lt t.target_itl nought || lt t.target_ttft nought || lt t.target_tps nought)
