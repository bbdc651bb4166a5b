-- ===== src/Resources.antt =====
-- internal/resources/utils.go and internal/constants: labels, readiness, environment variables.
pub mod Constants
pub mod Labels
pub mod Status
pub mod Hash
pub mod Env
pub mod Escape
