-- ===== src/Engine.antt =====
-- The torrent engine (engine.go): which torrents are loaded, who reads them, and which bytes of
-- which file a player is given.
pub mod State
pub mod Evict
pub mod Table
pub mod Rounds
pub mod Eviction
pub mod Choose
pub mod Largest
pub mod Chosen
pub mod Title
pub mod Titled
pub mod RangeHeader
pub mod RangeRead
pub mod Reap
pub mod Reaped
pub mod ReapPass
pub mod Ensure
pub mod Client
pub mod Steps
pub mod Loading
pub mod Reader
pub mod Range
mod ReaderTests
mod ChoiceTests
mod Tests
