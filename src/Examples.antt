-- ===== src/Examples.antt =====
-- Runs and instances of the theorems at concrete inputs.
pub mod Data
mod Texts
mod Calls
mod Saves
mod Logins
mod Lists
mod Files
mod Dates
mod Archives
mod Views
mod Locks
mod Webhooks
mod Servers
