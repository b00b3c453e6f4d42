-- ===== src/Sessions.antt =====
-- sessions.go: browser sessions and the guard against scripted logins.
pub mod Store
pub mod Calls
pub mod Validity
pub mod Logout
pub mod Limiter
pub mod Window
