-- ===== src/Observability/Metrics.antt =====
-- internal/observability/metrics.go: counters of requests.
use p2p_storage.Base.{ℕ, ◌+◌, ◌/◌, ltb, if◌then◌else◌}

-- Latencies are in nanoseconds.
pub record Metrics : Type 0 where
  pub requests_total : ℕ
  pub failures_total : ℕ
  pub total_latency : ℕ
  pub request_count : ℕ

unfoldable pub new_metrics : Metrics
new_metrics = record {
  requests_total = 0;
  failures_total = 0;
  total_latency = 0;
  request_count = 0;
}

unfoldable pub record_request : ℕ → Metrics → Metrics
record_request latency m = record m {
  requests_total = m.requests_total + 1;
  total_latency = m.total_latency + latency;
  request_count = m.request_count + 1;
}

unfoldable pub record_failure : Metrics → Metrics
record_failure m = record m { failures_total = m.failures_total + 1 }

pub record Snapshot : Type 0 where
  pub requests_total : ℕ
  pub failures_total : ℕ
  pub avg_latency : ℕ

unfoldable pub snapshot : Metrics → Snapshot
snapshot m = record {
  requests_total = m.requests_total;
  failures_total = m.failures_total;
  avg_latency = if ltb 0 m.request_count then m.total_latency / m.request_count else 0;
}
