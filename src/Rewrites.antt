-- ===== src/Rewrites.antt =====
-- The typed DNS rewrites (webgui/internal/rewrites/rewrites.go).
pub mod Rule
pub mod Lookup
pub mod Store
pub mod Saving
pub mod Changes
pub mod Tests
pub mod Best
pub mod Suffix
