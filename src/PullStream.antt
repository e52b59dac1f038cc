-- ===== src/PullStream.antt =====
-- dk_pull/pull_stream: the sources, the sinks, the protocol checker and `Pull`.
pub mod Sources
pub mod Conforming
pub mod Deferring
pub mod Sinks
pub mod ProtocolChecker
pub mod Pull
pub mod Pipeline
