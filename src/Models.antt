-- ===== src/Models.antt =====
-- The records that the other modules share (src/lib/models.ts).
pub mod Transport
pub mod Jobs
pub mod Snapshot
pub mod Console
