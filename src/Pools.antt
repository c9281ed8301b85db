-- ===== src/Pools.antt =====
-- The pools of connections (honker-core/src/lib.rs).
pub mod Writer
pub mod Readers
