-- ===== src/Sessions.antt =====
-- The sessions of the web interface (webgui/internal/api/security.go).
pub mod Table
pub mod Bounded
pub mod Abstract
pub mod Issued
pub mod Login
pub mod Backoff
pub mod Tests
