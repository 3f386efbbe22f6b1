-- ===== src/Config.antt =====
-- internal/config/config.go.
pub mod Redact
pub mod Load
