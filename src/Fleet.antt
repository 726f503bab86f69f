-- ===== src/Fleet.antt =====
-- internal/fleet
pub mod Search
pub mod Plan
pub mod Layers
pub mod Tokens
pub mod Run
pub mod Workflow
mod Examples
