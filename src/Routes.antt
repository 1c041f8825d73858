-- ===== src/Routes.antt =====
-- The domain-specific routes to upstreams (webgui/internal/dnsroutes/dnsroutes.go).
pub mod Table
pub mod Specific
pub mod Tests
