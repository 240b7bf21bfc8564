-- ===== src/Queue.antt =====
-- pkg/analyzer: the queue analyzer, of which the binary search is here.
pub mod Search
pub mod Weights
pub mod Model
pub mod Shape
pub mod States
pub mod WellFormed
pub mod Results
pub mod Sizes
pub mod Exact
pub mod Rescaling
pub mod Balance
pub mod Parameters
pub mod Analyzer
pub mod Sizing
pub mod Bounds
pub mod Sides
pub mod Indicators
pub mod Answers
mod Tests
mod AnalyzerTests
