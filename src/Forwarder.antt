-- ===== src/Forwarder.antt =====
-- The telemetry forwarder of an agent (webgui/internal/forwarder).
pub mod Queue
pub mod Delivery
pub mod Held
pub mod Conservation
pub mod Steps
pub mod Runs
pub mod Rounds
pub mod Persist
pub mod Tests
