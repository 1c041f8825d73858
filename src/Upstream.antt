-- ===== src/Upstream.antt =====
-- The upstream servers (webgui/internal/upstream).
pub mod Spec
pub mod Valid
pub mod Message
pub mod Stats
pub mod Pool
pub mod Exchange
pub mod History
pub mod Order
pub mod Failover
pub mod Tests
