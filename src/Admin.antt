-- ===== src/Admin.antt =====
-- The admin surface (admin.go): the throttle of failed sign-ins and the sign-in itself.
pub mod Window
pub mod Throttle
pub mod Login
pub mod SignIn
pub mod SignInTests
pub mod Tests
