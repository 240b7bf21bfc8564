-- ===== src/Queue/Tests.antt =====
-- The binary search on the doubling of thousandths.
use inferno_autoscaler.Base.{
  ℕ, ◌+◌, Option, some, ◌≡◌, refl, arith, Milli, Milli-IsOrdered, milli_float, pos, negsuc,
}
use inferno_autoscaler.Queue.Search.{
  Indicator, within, found, midpoint, binary_search, search_right, search_inside, search_loop,
  within_tolerance,
}
use inferno_autoscaler.Queue.Bounds.{IsIn, AnswerIsIn, binary_search-AnswerIsIn}
use inferno_autoscaler.Queue.Answers.{Means, binary_search-Answers}

abbrev double : Milli → Milli
double x = milli_float.mul (pos 2000) x

-- A function whose state counts its calls.
abbrev eval_double : ℕ → Milli → ℕ × Option Milli
eval_double s x = (s + 1, some (double x))

halves_lem :
    (a b : Milli)
    → IsIn (pos 0) (pos 8000) a
    → IsIn (pos 0) (pos 8000) b
    → IsIn (pos 0) (pos 8000) (midpoint a b)
halves_lem (pos a) (pos b) ha hb = ground arith
halves_lem (negsuc a) b ha hb = ground arith
halves_lem (pos a) (negsuc b) ha hb = ground arith

binary_search-AnswerIsIn_example :
    AnswerIsIn (pos 0) (pos 8000) (binary_search eval_double (pos 0) (pos 8000) (pos 6000) 0).1
binary_search-AnswerIsIn_example =
    binary_search-AnswerIsIn eval_double (pos 0) (pos 8000) (pos 6000) halves_lem Milli-IsOrdered 0

binary_search-Answers_example :
    (x : Milli) × (i : Indicator) × ((binary_search eval_double (pos 0) (pos 8000) (pos 6000) 0).1
      ≡ found x i)
    × Means Milli-IsOrdered eval_double double (λ s y. refl) (pos 0) (pos 8000) (pos 6000) x i
binary_search-Answers_example =
    binary_search-Answers Milli-IsOrdered eval_double double (λ s y. refl) (pos 0) (pos 8000)
      (pos 6000) refl 0

-- The search finds 3, whose double is 6, in its fifth evaluation.
search_test :
    binary_search eval_double (pos 0) (pos 8000) (pos 6000) 0 ≡ (5, found (pos 3000) within)
unfolding binary_search search_right search_inside search_loop within_tolerance
search_test = refl
