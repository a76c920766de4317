-- ===== src/Util.antt =====
-- Utilities: src/util.
pub mod Suspender
pub mod Format
pub mod Allocator
