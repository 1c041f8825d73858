-- ===== src/Cache.antt =====
-- The DNS response cache: keys and entries, the bounded LRU store, and what is proved of them.
pub mod Entry
pub mod Store
pub mod Invalidation
pub mod Invariant
pub mod Run
pub mod Lifetime
pub mod Eviction
pub mod Recency
pub mod Accounting
mod Tests
