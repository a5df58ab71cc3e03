-- ===== src/WorkInProgress.antt =====
-- The earlier variants of the scripts, in
-- telemetry_receiver/WorkInProgress-deduplication-compliance.
pub mod Deduplicate
pub mod Evaluate
