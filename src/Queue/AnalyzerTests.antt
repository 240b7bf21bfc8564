-- ===== src/Queue/AnalyzerTests.antt =====
-- The queue model and its analyzer on small inputs.
use inferno_autoscaler.Base.{
  ℕ, suc, ◌%◌, ◌==◌, Bool, true, false, not, ◌&&◌, [], ◌∷◌, some, ◌≡◌, refl, arith, ◌<◌, Float,
  Double, Conversion, of_nat, nought, Milli, Milli-IsOrdered, milli_float, milli_double,
  milli_conversion, pos, negsuc,
}
use inferno_autoscaler.Queue.Weights.{at, rate_at, sum_first}
use inferno_autoscaler.Queue.Model.{QueueModel, new_queue_model, compute_probabilities}
use inferno_autoscaler.Queue.Exact.{IsExact}
use inferno_autoscaler.Queue.Rescaling.{plain_weights}
use inferno_autoscaler.Queue.Balance.{total, compute_probabilities-balance}
use inferno_autoscaler.Queue.Parameters.{
  Configuration, RequestSize, TargetPerf, ok, CheckedConfiguration, check_configuration,
  check_request_size, service_rate, prefill_time, decode_time, num_decode,
}
use inferno_autoscaler.Queue.Analyzer.{QueueAnalyzer, build_model, new_queue_analyzer, analyze}
use inferno_autoscaler.Queue.WellFormed.{IsShaped, Fits, new_queue_analyzer-IsShaped}
use inferno_autoscaler.Queue.Results.{Reports, analyze-Reports}
use inferno_autoscaler.Queue.Sizing.{lambda_min, lambda_max}
use inferno_autoscaler.Queue.Sizes.{Sizes}

-- The numbers modulo 2, an arithmetic with exact quotients.
abbrev is_odd : ℕ → Bool
is_odd n = n % 2 == 1

abbrev xor : Bool → Bool → Bool
xor true y = not y
xor false y = y

instance abbrev parity_float : Float Bool
parity_float = record {
  of_int = λ n. elim n [ pos n ↦ is_odd n | negsuc n ↦ is_odd (suc n) ];
  decimal = λ m k. false;
  add = xor;
  sub = xor;
  mul = λ x y. x && y;
  div = λ x y. x;
  lt = λ x y. not x && y;
  eq = λ x y. not (xor x y);
  max_float = true;
}

instance abbrev parity_double : Double Bool
parity_double = record {
  is_inf = λ x. false;
  is_nan = λ x. false;
  max_double = true;
  pow = λ x y. x;
  ceil = λ x. x;
  to_int = λ x. pos 0;
}

instance abbrev parity_conversion : Conversion Bool Bool
parity_conversion = record { widen = λ x. x; narrow = λ x. x }

parity-IsExact : IsExact Bool
parity-IsExact = record {
  div_one = λ x. refl;
  one-ne-zero = refl;
  mul-ne-zero = λ x y p q. ground arith;
  add_zero = λ x. ground arith;
  zero_div = λ x. refl;
  div_div = λ x y z. refl;
  div_comm = λ x y z. refl;
  mul-div = λ x y z. refl;
  add-div = λ x y z. refl;
  div_self = λ x p. ground arith;
  div-mul_cancel = λ x y p. ground arith;
  div-div_cancel = λ x y z p. refl;
}

-- Two places, an arrival rate and a service rate of 1: three equal weights, whose sum is 1 modulo 2.
abbrev parity_model : QueueModel Bool Bool
parity_model = record (new_queue_model 2 (true ∷ [])) { lambda = true }

parity_total : total parity-IsExact parity_model ≡ true
unfolding plain_weights sum_first rate_at new_queue_model
parity_total = refl

compute_probabilities-balance_example :
    let m' = compute_probabilities parity_model in
    (m'.sum_p ≡ of_nat 1)
    × ((n : ℕ)
        → n < parity_model.k
        → parity_float.eq (rate_at parity_model.serv_rate n) nought ≡ false
        → parity_float.mul (at m'.p n) (parity_conversion.widen parity_model.lambda)
          ≡ parity_float.mul (at m'.p (suc n)) (rate_at parity_model.serv_rate n))
unfolding sum_first plain_weights new_queue_model
compute_probabilities-balance_example =
    compute_probabilities-balance parity-IsExact parity_model refl refl

-- A batch of two requests, each of one token in and two out, that takes half a second of the service.
abbrev configuration : Configuration Milli
configuration = record {
  max_batch_size = pos 2;
  max_queue_size = pos 4;
  service_parms = some (record {
    prefill = some (record { gamma = pos 100; delta = pos 0 });
    decode = some (record { alpha = pos 400; beta = pos 0 });
  });
}

abbrev checked : CheckedConfiguration Milli
checked = record {
  batch_size = 2;
  queue_size = 4;
  prefill = record { gamma = pos 100; delta = pos 0 };
  decode = record { alpha = pos 400; beta = pos 0 };
}

abbrev request : RequestSize
request = record { avg_input_tokens = pos 1; avg_output_tokens = pos 2 }

abbrev analyzer : QueueAnalyzer Milli Milli
analyzer = build_model checked request

abbrev targets : TargetPerf Milli
targets = record { target_ttft = pos 900; target_itl = pos 0; target_tps = pos 0 }

made_lem : new_queue_analyzer configuration request ≡ ok analyzer
unfolding new_queue_analyzer check_configuration check_request_size
made_lem = refl

new_queue_analyzer-IsShaped_example : Fits configuration request analyzer × IsShaped analyzer
new_queue_analyzer-IsShaped_example =
    new_queue_analyzer-IsShaped configuration request analyzer made_lem

natural_lem : (n : ℕ) → milli_float.lt (of_nat n) nought ≡ false
natural_lem n = ground arith

analyze-Reports_example :
    Reports analyzer
      (pos 1_000_000)
      (analyze analyzer (pos 1_000_000)).0
      (analyze analyzer (pos 1_000_000)).1
analyze-Reports_example = analyze-Reports Milli-IsOrdered natural_lem analyzer (pos 1_000_000)

range_lem : (lambda_min analyzer ≡ pos 2) × (lambda_max analyzer ≡ pos 3996)
unfolding build_model service_rate prefill_time decode_time num_decode
range_lem = (refl, refl)
