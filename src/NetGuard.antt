-- ===== src/NetGuard.antt =====
-- netguard.go: the addresses that an outgoing connection may go to, and the dialer that chooses among
-- those of a name.
pub mod Dial
pub mod Guarded
mod Tests
