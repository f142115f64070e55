-- ===== src/Observability.antt =====
-- internal/observability: the logger and the metrics.
pub mod Logger
pub mod Metrics
