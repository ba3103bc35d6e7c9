-- ===== src/Store.antt =====
-- The database (store.go), table by table.
pub mod Keys
pub mod Rows
pub mod Resolve
pub mod History
pub mod Sessions
pub mod SessionRows
pub mod SignedIn
pub mod Caches
pub mod Tests
pub mod SessionTests
