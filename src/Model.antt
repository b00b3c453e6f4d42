-- ===== src/Model.antt =====
-- model/: the data types that the server, the client and the user interface share.
pub mod Status
pub mod Priority
pub mod Kind
pub mod Date
pub mod Calendar
pub mod Data
