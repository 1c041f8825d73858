-- ===== src/Clients.antt =====
-- The registry of client profiles (webgui/internal/clients).
pub mod Profile
pub mod Registry
pub mod Find
pub mod Longest
pub mod Apart
pub mod Consistent
pub mod Changes
pub mod Owner
pub mod Tests
