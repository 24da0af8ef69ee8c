-- ===== src/Buffer.antt =====
-- src/buffer.rs: the buffers that received strings are stored in.
pub mod Bump
pub mod Slices
pub mod Examples
