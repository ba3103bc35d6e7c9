-- ===== src/Util.antt =====
-- util.go: the checks on what a request carries.
pub mod Infohash
