-- ===== src/InProcess.antt =====
-- crates/ruststream-kinesis/src/in_process: the transport of the test harness. It keeps one log of
-- records per stream, which the broker's subscription reads.
pub mod Sequence
pub mod Log
pub mod Bus
pub mod Streams
