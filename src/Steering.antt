-- ===== src/Steering.antt =====
-- The decisions and conversations of an operator: internal/steering.
pub mod Decision
pub mod Conversation
pub mod Rounds
pub mod Store
pub mod Session
pub mod Service
mod Examples
