-- ===== src/Search.antt =====
-- indexers.go: the search over every indexer, from the queries to the list of results.
pub mod Merge
pub mod Fanout
pub mod Cached
pub mod Repeated
pub mod Merged
pub mod Ranked
pub mod Answer
mod Tests
mod CacheTests
