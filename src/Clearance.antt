-- ===== src/Clearance.antt =====
-- Clearance (frontend/lib/clearance.ts): is this evidence already committed to a claim?
pub mod Legs
pub mod Check
