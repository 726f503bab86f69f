-- ===== src/Hub.antt =====
-- The hub's reading of fleets and schedules: internal/agenthub.
pub mod Status
pub mod Derive
mod Examples
