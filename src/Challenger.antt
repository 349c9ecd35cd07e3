-- ===== src/Challenger.antt =====
-- The reference challenger (worker/src/enforce.ts).
pub mod Filter
pub mod Node
pub mod Act
pub mod Sweep
