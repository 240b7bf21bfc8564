-- ===== src/Capacity.antt =====
-- The capacity analyzer: internal/capacity and the types of internal/interfaces that it works on.
pub mod Types
pub mod ScalingConfig
pub mod Analysis
pub mod Targets
pub mod Arbitration
mod Tests
mod TargetTests
