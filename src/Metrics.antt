-- ===== src/Metrics.antt =====
-- src/metrics: the counters and the log of decisions.
pub mod Store
pub mod Decisions
