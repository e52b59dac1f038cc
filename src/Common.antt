-- ===== src/Common.antt =====
-- dk_pull/common.
pub mod SplitString
pub mod Finally
