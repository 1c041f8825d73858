-- ===== src/Pipeline.antt =====
-- The server's use of the cache: storing, generations, the cached path of a query, miss flights.
pub mod Storing
pub mod Lifetimes
pub mod Entries
pub mod Generations
pub mod Domains
pub mod Resolve
pub mod Answers
pub mod Flights
mod Tests
