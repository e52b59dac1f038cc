-- ===== src/Types.antt =====
-- dk_pull/types: how a stream ends, and the functions that the parts of a stream are.
pub mod EndOrError
pub mod Stream
