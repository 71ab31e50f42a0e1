-- ===== src/Choreo.antt =====
-- apps/demo_choreo: the routines of a demo, validated and run step by step.
pub mod Dict
pub mod Book
pub mod Catalogue
pub mod Runner
pub mod Live
mod Tests
