-- ===== src/Demo.antt =====
-- packages/dogos_demo: identity gate, plan, command execution and sessions of the two dogs.
pub mod Models
pub mod Identity
pub mod Session
pub mod Plan
pub mod World
pub mod Adapters
pub mod Persistence
pub mod Executor
pub mod PairMemory
pub mod Coordinator
pub mod Encounter
pub mod PairConnection
mod Tests
