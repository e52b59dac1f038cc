-- ===== src/PullStream/Sources.antt =====
-- dk_pull/pull_stream/sources. A source that is an object takes a reference to it, which is the
-- `self` that its closure captures; `default` is the value `T()`.
pub mod Values
pub mod Count
pub mod Empty
