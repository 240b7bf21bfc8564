-- ===== src/Core.antt =====
-- pkg/core: the system of accelerators, models, service classes and servers.
pub mod Types
pub mod Allocation
pub mod Server
pub mod System
pub mod WellFormed
pub mod Transitions
pub mod Targets
pub mod Samples
pub mod Creation
pub mod Candidates
pub mod Feasible
pub mod Least
pub mod Calculated
mod Tests
mod CreationTests
