-- ===== src/PortMux.antt =====
-- One port for the web server and the torrent client (portmux.go).
pub mod Sniff
pub mod Replay
pub mod Methods
pub mod Routing
pub mod Tests
