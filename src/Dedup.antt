-- ===== src/Dedup.antt =====
-- telemetry_receiver/deduplicate_telemetry.py: the newest snapshot of each cluster, from the log files
-- of a range of days.
pub mod Files
pub mod Backups
pub mod Records
pub mod Run
