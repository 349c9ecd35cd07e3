-- ===== src/Reads.antt =====
-- The chain reads of the pages (frontend/lib/hooks.ts).
pub mod Pool
pub mod Scans
