-- ===== src/Security.antt =====
-- The second factor of the admin sign-in (security.go).
pub mod Totp
pub mod SecondFactor
pub mod OneUse
pub mod Recovery
pub mod Tests
