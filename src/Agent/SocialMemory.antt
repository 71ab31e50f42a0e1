-- ===== src/Agent/SocialMemory.antt =====
-- packages/native_agent/dogos_adapter/adapter.py: what an agent may read of a memory, cut so that its JSON
-- text stays within a budget. The checks of the database's path are left out.
pub mod Size
pub mod Search
pub mod Budget
pub mod Recall
pub mod Longest
pub mod Bounded
mod Tests
