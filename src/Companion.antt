-- ===== src/Companion.antt =====
-- apps/companion: the engine that decides when the robot seeks company, and the loop that runs it.
pub mod Models
pub mod Engine
pub mod Lab
mod Tests
