-- ===== src/Kernel1.antt =====
-- The first version of the kernel, arduino/context_switch/context_switch.ino. It has periodic threads
-- only, no demotion, and no switch from a thread to itself in `thread_yield`. What its text shares with
-- arduino/context_switch_2_0/context_switch_2_0.ino is taken from Kernel2, with its state: the fields
-- `block_pattern`, `offset_ticks` and `tick_counter_last_cost_us` do not exist here, and nothing
-- reads or writes them.
pub mod Switch
pub mod Scheduler
pub mod Create
pub mod Pattern
pub mod Charge
