-- ===== src/WireGuard.antt =====
-- The WireGuard tunnel's configuration (wireguard.go).
pub mod Config
pub mod Parse
pub mod Keys
pub mod Sound
pub mod Kept
pub mod Loop
pub mod Usable
pub mod Uapi
pub mod Read
pub mod Load
mod Tests
