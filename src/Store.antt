-- ===== src/Store.antt =====
-- store.go: the file format, and what a data file must satisfy.
pub mod Validate
pub mod Accepts
pub mod Format
pub mod Decode
pub mod Files
pub mod RoundTrip
pub mod Damage
pub mod Crash
