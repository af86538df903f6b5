-- ===== src/Pairing.antt =====
-- Pairing of a device: its session and the gate before a claim.
pub mod Session
pub mod Bucket
pub mod Gate
mod Tests
