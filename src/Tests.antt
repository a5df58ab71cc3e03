-- ===== src/Tests.antt =====
-- The theorems at concrete inputs.
pub mod Data
pub mod Subscriptions
pub mod Compliance
pub mod Dedup
pub mod Receiver
pub mod Sender
pub mod Payload
pub mod Service
pub mod TestLogs
pub mod WorkInProgress
pub mod Pipeline
