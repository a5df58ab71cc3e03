-- ===== src/Pipeline.antt =====
-- From the output of telemetry_receiver/deduplicate_telemetry.py to the dictionaries of
-- telemetry_receiver/evaluate_compliance.py, which reads it.
pub mod Blocks
pub mod Evaluated
