-- ===== src/Access.antt =====
-- Who may ask, and how often (webgui/internal/dnsserver/acl.go and the first stages of pipeline.go).
pub mod Clientnets
pub mod Limiter
pub mod Gate
pub mod Spent
pub mod Rate
pub mod Paced
pub mod Permitted
pub mod Tests
