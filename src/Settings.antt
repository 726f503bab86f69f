-- ===== src/Settings.antt =====
-- Values that are configured for a place, and the settings among them: internal/scoped, internal/setting.
pub mod Scoped
pub mod Catalogue
pub mod Resolver
pub mod Winning
pub mod Examples
