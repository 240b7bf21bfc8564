-- ===== src/Solver.antt =====
-- pkg/solver: the assignment of allocations to servers.
pub mod Entries
pub mod Allocate
pub mod Usage
pub mod BestEffort
pub mod RoundRobin
pub mod Solve
pub mod Unlimited
pub mod Priorities
pub mod Reinsertion
pub mod Differences
mod Tests
