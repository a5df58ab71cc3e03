-- ===== src/Receiver.antt =====
-- telemetry_receiver/telemetry_receiver.py: the assembly of messages from datagrams, their check and
-- decoding.
pub mod Decode
pub mod Message
pub mod ClusterIds
pub mod Retention
pub mod Serve
pub mod Salt
pub mod Assembly
