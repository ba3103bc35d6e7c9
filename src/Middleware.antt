-- ===== src/Middleware.antt =====
-- main.go: what stands before every handler: the host, the headers and the origin of a request.
pub mod Origin
pub mod Gate
pub mod Own
pub mod Passed
mod Tests
