-- ===== src/Lifecycle.antt =====
-- Sequences of calls of the rtthreads library, and the run queue that they leave.
pub mod Kept
pub mod Queue
pub mod Create
pub mod Remove
pub mod Call
pub mod Follows
pub mod Runs
pub mod Circle
pub mod Lands
pub mod Keeps
pub mod Yields
pub mod Rest
