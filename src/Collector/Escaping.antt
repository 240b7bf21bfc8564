-- ===== src/Collector/Escaping.antt =====
-- internal/collector/capacity_metrics.go: what the escaping of label values keeps, and how long a query may take.
use inferno_autoscaler.Base.{ℕ, ◌+◌, ◌≤◌, List, [], ◌∷◌, some, ◌==◌, arith, if◌then◌else◌}
use inferno_autoscaler.Collector.Queries.{
  backslash, quote, millisecond, deadline_buffer, time_limit,
}

-- An inverse of the escaping: a backslash takes the character after it as it is.
abbrev unescape : List ℕ → List ℕ
unescape [] = []
unescape (x ∷ []) = x ∷ []
unescape (x ∷ y ∷ xs) =
    let escaped = unescape xs in
    let rest = unescape (y ∷ xs) in if x == backslash then y ∷ escaped else x ∷ rest

-- What is escaped in front of the rest.
abbrev escape_onto : ℕ → List ℕ → List ℕ
escape_onto x rest =
    if x == backslash
    then backslash ∷ backslash ∷ rest
    else if x == quote
    then backslash ∷ quote ∷ rest
    else x ∷ rest

-- The time limit of a query is at least a millisecond, if the desired one is; it is never above the desired
-- one, unless that is below a millisecond; and where the parent has more than the buffer left, the query
-- ends before the parent's deadline.
pub time_limit-bounds :
    (desired remaining : ℕ)
    → millisecond ≤ desired
    → let limit = time_limit desired (some remaining) in
      (millisecond ≤ limit)
      × (limit ≤ desired)
      × (deadline_buffer + millisecond ≤ remaining → limit ≤ remaining)
unfolding time_limit
time_limit-bounds desired remaining h = (ground arith, ground arith, λ more. ground arith)
