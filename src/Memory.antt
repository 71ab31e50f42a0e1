-- ===== src/Memory.antt =====
-- packages/dogos_memory: the per-dog SQLite memory.
pub mod Models
pub mod Database
pub mod Store
mod Tests
