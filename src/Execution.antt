-- ===== src/Execution.antt =====
-- Running statements: the history of runs, sessions, the batch loop, and pages of a cursor.
pub mod History
pub mod Failure
pub mod Views
pub mod LocalQueries
pub mod Batch
pub mod Play
pub mod Settled
pub mod Terminal
pub mod Paging
pub mod Saving
pub mod Session
