-- ===== src/Addon.antt =====
-- addon.go: what the addon's handlers make of the path of a request.
pub mod Episodes
pub mod Remapped
pub mod Auth
mod Tests
