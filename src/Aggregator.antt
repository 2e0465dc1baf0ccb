-- ===== src/Aggregator.antt =====
-- modules/aggregator: a metric of a cluster is computed from the latest values of its hosts.
pub mod Expression
pub mod Compute
pub mod Workers
mod Tests
