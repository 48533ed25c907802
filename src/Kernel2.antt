-- ===== src/Kernel2.antt =====
-- The kernel of arduino/context_switch_2_0/context_switch_2_0.ino, the version before the rtthreads
-- library: one file with no signals, semaphores or queues, where cli() and sei() stand in place of
-- ATOMIC_BLOCK. (arduino/context_switch_1_0/context_switch_1_0.ino is the same text.)
pub mod State
pub mod Switch
pub mod Scheduler
pub mod Create
pub mod Pattern
pub mod Forget
pub mod Frame
pub mod Layout
pub mod Exchange
pub mod Resume
pub mod First
pub mod Links
pub mod Start
pub mod FirstThread
pub mod Grid
pub mod Call
pub mod Loop
pub mod Period
