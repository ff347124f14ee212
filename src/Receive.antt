-- ===== src/Receive.antt =====
-- The receive frames of rust/src/native_receive_v1.rs.
pub mod Frame
pub mod Preflight
