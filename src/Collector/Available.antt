-- ===== src/Collector/Available.antt =====
-- internal/collector/collector.go, ValidateMetricsAvailability: when metrics are called available.
use inferno_autoscaler.Base.{
  ℕ, ◌≤◌, ◌<◌, ℤ, pos, negsuc, String, true, false, List, [], ◌∷◌, length, ◌==◌, ◌≡◌, ◌⊎◌, refl,
  subst, suc, arith, inl, inr, if_cases, if◌then◌else◌,
}
use inferno_autoscaler.Controller.Engines.{MetricsValidation}
use inferno_autoscaler.Collector.Prometheus.{
  Prometheus, Reading, QueryResult, failed, vector, no_vector, selector, num_request_running,
  fallback_query, is_stale, check_ages, check_readings, validate_fallback, validate_result,
  validate_metrics_availability,
}

-- At most five minutes, in nanoseconds.
abbrev pub IsRecent : ℤ → Type 0
IsRecent (pos n) = n ≤ 300_000_000_000
IsRecent (negsuc n) = Unit

is_stale-IsRecent : (age : ℤ) → is_stale age ≡ false → IsRecent age
is_stale-IsRecent (pos n) h = ground (arith, h)
is_stale-IsRecent (negsuc n) h = tt

-- A test for an empty list, on one that is not.
nonempty_branch : {A : Type 0} (n : ℕ) (x y : A) → (if suc n == 0 then x else y) ≡ y
nonempty_branch n x y = ground arith

module _ {D C : Type 0} (prometheus : Prometheus D C) (model_name namespace : String) where
  -- No sample is older than five minutes when it is looked at.
  abbrev pub AreFresh : List (Reading D) → C → Type 0
  AreFresh [] c = Unit
  AreFresh (r ∷ readings) c =
      let (c', age) = prometheus.since r.timestamp c in IsRecent age × AreFresh readings c'

  -- A result with samples, all of them fresh.
  abbrev pub IsFresh : QueryResult D → C → Type 0
  IsFresh result c =
      (readings : List (Reading D)) × (result ≡ vector readings)
      × (0 < length readings)
      × AreFresh readings c

  check_ages-AreFresh :
      (readings : List (Reading D)) (c : C)
      → (check_ages prometheus model_name namespace readings c).1.available ≡ true
      → AreFresh readings c
  unfolding check_ages
  check_ages-AreFresh [] c = λ h. tt
  check_ages-AreFresh (r ∷ readings) c =
      if_cases (λ (v : C × MetricsValidation). v.1.available ≡ true → AreFresh (r ∷ readings) c)
        (is_stale (prometheus.since r.timestamp c).1) _ _ (λ old h. absurd (ground (arith, h)))
        (λ fresh h. (is_stale-IsRecent _ fresh, check_ages-AreFresh readings _ h))

  check_readings-IsFresh :
      (readings : List (Reading D)) (c : C)
      → (check_readings prometheus model_name namespace readings c).1.available ≡ true
      → IsFresh (vector readings) c
  check_readings-IsFresh [] c h = absurd (ground (arith, h))
  check_readings-IsFresh (r ∷ readings) c h = (
    r ∷ readings,
    refl,
    omega arith,
    check_ages-AreFresh (r ∷ readings) c (
        subst (λ (v : C × MetricsValidation). v.1.available ≡ true)
          (nonempty_branch (length readings) _ _) h),
  )

  validate_fallback-IsFresh :
      (result : QueryResult D) (c : C)
      → (validate_fallback prometheus model_name namespace result c).1.available ≡ true
      → IsFresh result c
  validate_fallback-IsFresh (failed error) c h = absurd (ground (arith, h))
  validate_fallback-IsFresh (vector readings) c h = check_readings-IsFresh readings c h
  validate_fallback-IsFresh no_vector c h = absurd (ground (arith, h))

  validate_result-IsFresh :
      (result : QueryResult D) (c : C)
      → (validate_result prometheus model_name namespace result c).1.available ≡ true
      → let (c', fallback) = prometheus.query (fallback_query model_name) c in
        IsFresh result c ⊎ ((result ≡ vector []) × IsFresh fallback c')
  validate_result-IsFresh (failed error) c h = absurd (ground (arith, h))
  validate_result-IsFresh (vector []) c h = inr (refl, validate_fallback-IsFresh _ _ h)
  validate_result-IsFresh (vector (r ∷ readings)) c h = inl (
    r ∷ readings,
    refl,
    omega arith,
    check_ages-AreFresh (r ∷ readings) c (
        subst (λ (v : C × MetricsValidation). v.1.available ≡ true)
          (nonempty_branch (length readings) _ _) h),
  )
  validate_result-IsFresh no_vector c h = absurd (ground (arith, h))

  -- Metrics are called available only if the query with the namespace gave samples, none older than five
  -- minutes, or it gave an empty vector and the query without the namespace gave such samples.
  pub validate_metrics_availability-IsFresh :
      (c : C)
      → (validate_metrics_availability prometheus model_name namespace c).1.available ≡ true
      → let (c1, result) = prometheus.query (selector num_request_running model_name namespace) c in
        let (c2, fallback) = prometheus.query (fallback_query model_name) c1 in
        IsFresh result c1 ⊎ ((result ≡ vector []) × IsFresh fallback c2)
  unfolding validate_metrics_availability
  validate_metrics_availability-IsFresh c h = validate_result-IsFresh _ _ h
