-- ===== src/Collector.antt =====
-- internal/collector: the metrics of the replicas, from Prometheus and the Kubernetes API.
pub mod Queries
pub mod Merging
pub mod Escaping
pub mod Matching
pub mod Attribution
pub mod Replicas
pub mod Prometheus
pub mod Status
pub mod Available
mod Tests
