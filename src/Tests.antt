-- ===== src/Tests.antt =====
-- Runs of the models at concrete inputs, and the theorems applied to them.
pub mod Streaming
pub mod Turns
pub mod Requests
pub mod Dispatching
pub mod Library
pub mod Files
