-- ===== src/Aliases.antt =====
-- anilist.go: the other names of a title that are worth a search.
pub mod Pick
pub mod Picked
mod Tests
