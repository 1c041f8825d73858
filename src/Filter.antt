-- ===== src/Filter.antt =====
-- The filter engine (webgui/internal/filter).
pub mod Rules
pub mod Indexes
pub mod First
pub mod Built
pub mod Search
pub mod Equivalence
pub mod Decision
pub mod Tests
