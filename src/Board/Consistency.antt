-- ===== src/Board/Consistency.antt =====
-- What holds of a board's state between two calls: the rules that ValidateState checks (store.go),
-- the shape of task ids, and that a lease stands only on a task in progress.
pub mod Rules
pub mod Parts
pub mod Keeps
pub mod Claims
pub mod Heartbeat
pub mod Tasks
pub mod Update
pub mod Accounts
pub mod Calls
