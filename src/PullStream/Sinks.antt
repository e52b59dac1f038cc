-- ===== src/PullStream/Sinks.antt =====
-- dk_pull/pull_stream/sinks.
pub mod Drain
pub mod Reduce
pub mod Collect
pub mod AbortNow
