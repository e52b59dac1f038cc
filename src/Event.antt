-- ===== src/Event.antt =====
-- dk_pull/event: timers and event loops over libuv. libuv is a parameter.
pub mod Uv
pub mod Timer
pub mod EventLoop
