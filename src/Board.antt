-- ===== src/Board.antt =====
-- board.go, auth.go and login.go: the board, its operations and its write-behind saving.
pub mod Types
pub mod Inputs
pub mod Leases
pub mod Do
pub mod Tasks
pub mod Claims
pub mod Update
pub mod Edits
pub mod Accounts
pub mod Saving
pub mod Queries
pub mod Calls
pub mod Open
pub mod Opened
pub mod Listing
pub mod Sweep
pub mod Exclusion
pub mod Atomic
pub mod WriteBehind
pub mod Consistency
