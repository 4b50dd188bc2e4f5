-- ===== src/Analytics.antt =====
-- ghost_amm/analytics: the numbers of a replay's report, and the gate that judges reports.
pub mod Metrics
pub mod QualityGate
