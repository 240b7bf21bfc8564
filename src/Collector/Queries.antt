-- ===== src/Collector/Queries.antt =====
-- internal/collector/capacity_metrics.go and collector.go: the label values and time limits of queries, and
-- the values taken from their results.
use inferno_autoscaler.Base.{
  ℕ, ◌+◌, ◌-◌, String, ◌||◌, List, [], ◌∷◌, ◌++◌, Option, none, some, ltb, ◌==◌, if◌then◌else◌,
  Table, insert, str_eq, Float, nought, Double,
}

-- The characters of a text, by code point: '\\' is 92 and '"' is 34.
abbrev pub backslash : ℕ
backslash = 92

abbrev pub quote : ℕ
quote = 34

-- regexp.MustCompile(c).ReplaceAllString(text, by), for one character
unfoldable pub replace_all : (c : ℕ) (by text : List ℕ) → List ℕ
replace_all c by [] = []
replace_all c by (x ∷ xs) =
    let rest = replace_all c by xs in if x == c then by ++ rest else x ∷ rest

-- escapePrometheusLabelValue, on the characters of the value
unfoldable pub escape_label_value : List ℕ → List ℕ
escape_label_value value =
    replace_all quote (backslash ∷ quote ∷ [])
      (replace_all backslash (backslash ∷ backslash ∷ []) value)

-- A millisecond and the buffer before the deadline, in nanoseconds.
abbrev pub millisecond : ℕ
millisecond = 1_000_000

abbrev pub deadline_buffer : ℕ
deadline_buffer = 100_000_000

-- contextWithRespectedDeadline: the time limit, where `remaining` is the time to the parent's deadline, if
-- it has one; 0 if that has passed.
unfoldable pub time_limit : (desired : ℕ) → Option ℕ → ℕ
time_limit desired none = desired
time_limit desired (some remaining) =
    if remaining == 0
    then millisecond
    else if ltb remaining desired
    then if ltb remaining (deadline_buffer + millisecond)
      then millisecond
      else remaining - deadline_buffer
    else desired

-- What the code reads of a sample of a vector.
pub record Sample (D : Type 0) : Type 0 where
  pub pod : String
  pub pod_name : String
  pub value : D

-- The name of a sample's pod, under either label.
abbrev pub pod_of : {D : Type 0} → Sample D → String
pod_of s = if str_eq s.pod "" then s.pod_name else s.pod

-- The loop over the samples of a vector, with the conversion of the values.
unfoldable pub values_by_pod :
    {D V : Type 0} (convert : D → V) → Table V → List (Sample D) → Table V
values_by_pod convert values [] = values
values_by_pod convert values (s ∷ samples) =
    values_by_pod convert
      (if str_eq (pod_of s) "" then values else insert (pod_of s) (convert s.value) values) samples

module _ {D : Type 0} ⦃f : Float D⦄ ⦃d : Double D⦄ where
  -- FixValue
  unfoldable pub fix_value : D → D
  fix_value x = if d.is_nan x || d.is_inf x then nought else x

  -- The value that queryAndExtractMetric takes from the result of a query: `none` stands for one that is
  -- no vector.
  unfoldable pub extract_metric : Option (List D) → D
  unfolding fix_value
  extract_metric none = nought
  extract_metric (some []) = nought
  extract_metric (some (x ∷ xs)) = fix_value x
