-- ===== src/Controller.antt =====
-- internal/controller/variantautoscaling_controller.go and internal/actuator: the reconciliation of the
-- VariantAutoscaling resources.
pub mod Types
pub mod Client
pub mod Modes
pub mod Groups
pub mod Configs
pub mod Decisions
pub mod Emission
pub mod Applying
pub mod Engines
pub mod Collecting
pub mod Reconcile
pub mod Optimizing
pub mod Partition
pub mod Cache
pub mod Converted
pub mod SafetyNet
pub mod Applied
pub mod OneEngine
pub mod Requeues
pub mod Optimal
pub mod Tests
mod OptimizerTests
