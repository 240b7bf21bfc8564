-- ===== src/Solver/Usage/Greedy.antt =====
-- allocate ends without a panic, and keeps within the capacity.
use Prim.Native.Nat.{Ordering}
use inferno_autoscaler.Base.{
  ℕ, zero, suc, ◌<◌, List, [], ◌∷◌, ◌++◌, Option, none, some, ◌≡◌, refl, arith, All, All-append,
  Table, Float, inr,
}
use inferno_autoscaler.Core.Types.{System}
use inferno_autoscaler.Solver.Entries.{ServerEntry, reinsert}
use inferno_autoscaler.Solver.Allocate.{
  Pool, Outcome, skipped, placed, advanced, exhausted, panicked, visit_entry, allocate_loop,
  rounds_left, allocate,
}
use inferno_autoscaler.Solver.Usage.{PoolFits, IsKnown, Extends, Known, Known-Extends}
use inferno_autoscaler.Solver.Usage.Rounds.{
  IsReady, steps_left-pos, total_left, total_left-lt, reinsert-All, reinsert-left, GoesOn,
  visit_entry-GoesOn,
}

module _ {F : Type 0} ⦃f : Float F⦄ (order : ServerEntry F → ServerEntry F → Ordering)
    (sys : System F) (capacity : Table ℕ) where
  -- A run that ends, within the capacity, with the servers of the unallocated entries in the map.
  abbrev pub Ends : Pool F → Option (Pool F × List (ServerEntry F)) → Type 0
  Ends pool r =
      (end : Pool F × List (ServerEntry F)) × (r ≡ some end)
      × PoolFits sys capacity end.0
      × Known end.0 end.1
      × Extends pool.servers end.0.servers

  Ends-Extends :
      (old new : Pool F) {r : Option (Pool F × List (ServerEntry F))}
      → Extends old.servers new.servers
      → Ends new r
      → Ends old r
  Ends-Extends old new x (end, e, fits, known, y) = (end, e, fits, known, λ n h. y n (x n h))

  allocate_loop-Ends :
      (fuel : ℕ) (pool : Pool F) (un es : List (ServerEntry F))
      → total_left es < fuel
      → All IsReady es
      → PoolFits sys capacity pool
      → Known pool un
      → Known pool es
      → Ends pool (allocate_loop order sys fuel pool un es)
  unfolding allocate_loop
  allocate_loop-Ends zero pool un es h ready fits ku ke = elim h [ ]
  allocate_loop-Ends (suc fuel) pool un [] h ready fits ku ke =
      ((pool, un), refl, fits, ku, λ n k. k)
  allocate_loop-Ends (suc fuel) pool un (top ∷ es) h (r, rs) fits ku (k, ks) =
      step (visit_entry sys pool top) (visit_entry-GoesOn sys capacity pool top r)
        (allocate_loop-Ends fuel)
    where
      step :
          (o : Outcome F)
          → GoesOn sys capacity pool top o
          → ((pool' : Pool F) (un' es' : List (ServerEntry F))
              → total_left es' < fuel
              → All IsReady es'
              → PoolFits sys capacity pool'
              → Known pool' un'
              → Known pool' es'
              → Ends pool' (allocate_loop order sys fuel pool' un' es'))
          → Ends pool (elim o [
            | skipped ↦ allocate_loop order sys fuel pool un es
            | placed pool' ↦ allocate_loop order sys fuel pool' un es
            | advanced e ↦ allocate_loop order sys fuel pool un (reinsert order e es)
            | exhausted e ↦ allocate_loop order sys fuel pool (un ++ (e ∷ [])) es
            | panicked ↦ none
          ])
      step skipped g next = next pool un es (omega (arith, steps_left-pos top r)) rs fits ku ks
      step (placed new) (within, x) next = Ends-Extends pool new x (
          next new un es (omega (arith, steps_left-pos top r)) rs (within fits)
            (Known-Extends pool new un x ku) (Known-Extends pool new es x ks))
      step (advanced e) (has, less, same) next =
          next pool un (reinsert order e es) (omega (arith, reinsert-left order e es))
            (reinsert-All IsReady order e es (inr has) rs) fits ku
            (reinsert-All (λ d. IsKnown pool.servers d.server_name) order e es (rw same k) ks)
      step (exhausted e) same next =
          next pool (un ++ (e ∷ [])) es (omega (arith, steps_left-pos top r)) rs fits
            (All-append (λ d. IsKnown pool.servers d.server_name) un (e ∷ []) ku (rw same k, tt)) ks
      step panicked g next = absurd g

  -- allocate ends without a panic when every entry starts at its first candidate and names a server
  -- that exists: it keeps within the capacity, loses no server, and leaves entries of servers that
  -- exist.
  pub allocate-Ends :
      (pool : Pool F) (es : List (ServerEntry F))
      → All IsReady es
      → Known pool es
      → PoolFits sys capacity pool
      → Ends pool (allocate order sys pool es)
  unfolding allocate
  allocate-Ends pool es ready known fits =
      allocate_loop-Ends (rounds_left es) pool [] es (total_left-lt es) ready fits tt known
